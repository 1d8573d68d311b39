-- ===== src/Sketch/Update/Contents.antt =====
-- The contents of a sketch as a sum over the stream: each bucket holds the exclusive or of the
-- updates that reach it.
use native.Mathlib.Nat.{div-add-mod', mod-lt, div-lt_iff_lt-mul}
use graph_streaming_cc.Prelude.{
  ℕ, ◌+◌, ◌-◌, ◌*◌, ◌/◌, ◌%◌, ◌<◌, ◌≡◌, ◌≢◌, sym, ap, ◌∙◌, inl, inr, arith, ◌==◌, if◌then◌else◌,
  Bool-cases, List, [], ◌∷◌, length, get_or_ext, ==→eq, ==-false→ne, ne→==-false,
}
use graph_streaming_cc.Bucket.{Hashes, Bucket, empty_bucket, get_index_hash}
use graph_streaming_cc.Bucket.Group.{◌⊕◌, ⊕-empty, ⊕_assoc}
use graph_streaming_cc.Sketch.{Shape, Sketch, bucket_at, checksum_seed}
use graph_streaming_cc.Sketch.Update.{Algorithm, touch, update, update_all}
use graph_streaming_cc.Sketch.Update.Cells.{
  WellFormed, get_or-touch_at, get_or-touch_ne, length-touch, share,
}
use graph_streaming_cc.Sketch.Update.Columns.{length-cols, cols_outside, cols_inside}

-- Two sketches of one shape are the same if their buckets are.
pub sketch_ext :
    (s t : Sketch)
    → s.shape ≡ t.shape
    → s.sample_idx ≡ t.sample_idx
    → length s.buckets ≡ length t.buckets
    → ((j : ℕ) → j < length s.buckets → bucket_at s j ≡ bucket_at t j)
    → s ≡ t
sketch_ext s t p q l h = λ i. record {
  shape = p i;
  sample_idx = q i;
  buckets = get_or_ext empty_bucket s.buckets t.buckets l h i;
}

column_of : (j columns rows : ℕ) → 0 < rows → j < columns * rows → j / rows < 0 + columns
column_of j columns rows h lt = omega (arith, (div-lt_iff_lt-mul h).1 lt)

module _ (hashes : Hashes) (alg : Algorithm) where
  abbrev pub checksum : Shape → ℕ → ℕ
  checksum s idx = get_index_hash hashes idx (checksum_seed s)

  -- What an update puts into bucket j: its index and checksum, if it reaches that bucket.
  unfoldable pub contribution : Shape → ℕ → ℕ → Bucket
  contribution s idx j =
      if j == s.num_buckets - 1
      then record { alpha = idx; gamma = checksum s idx }
      else share hashes idx (checksum s idx) alg s (j / s.bkt_per_col) (j % s.bkt_per_col)

  unfoldable pub total : Shape → List ℕ → ℕ → Bucket
  total s [] j = empty_bucket
  total s (idx ∷ stream) j = contribution s idx j ⊕ total s stream j

  pub contribution_last :
      (s : Shape) (idx j : ℕ)
      → j ≡ s.num_buckets - 1
      → contribution s idx j ≡ record { alpha = idx; gamma = checksum s idx }
  unfolding contribution
  contribution_last s idx j e = ground arith

  contribution_other :
      (s : Shape) (idx j : ℕ)
      → j ≢ s.num_buckets - 1
      → contribution s idx j
        ≡ share hashes idx (checksum s idx) alg s (j / s.bkt_per_col) (j % s.bkt_per_col)
  unfolding contribution
  contribution_other s idx j ne = rw (ne→==-false j (s.num_buckets - 1) ne)

  -- Every bucket after an update, for both builds.
  pub bucket_at-update :
      (s : Sketch) (idx j : ℕ)
      → WellFormed s
      → j < s.num_buckets
      → bucket_at (update hashes alg s idx) j ≡ bucket_at s j ⊕ contribution s.shape idx j
  unfolding update
  bucket_at-update s idx j w h = elim (Bool-cases (j == s.num_buckets - 1)) [
    | inl e ↦
        let last : j ≡ s.num_buckets - 1 = ==→eq _ _ e in
        rw (contribution_last s.shape idx j last) (
          cols_outside hashes idx (sum_of idx) s.shape alg 0 s.num_columns j (start idx)
            (inr (omega (arith, w.total)))
          ∙ get_or-touch_at hashes idx (sum_of idx) s.buckets (s.num_buckets - 1) j (sym last)
              (omega (arith, w.sized)))
    | inr e ↦
        let other : j ≢ s.num_buckets - 1 = ==-false→ne _ _ e in
        let in_columns : j < s.num_columns * s.bkt_per_col = omega (arith, w.total) in
        rw (contribution_other s.shape idx j other) (
          cols_inside hashes idx (sum_of idx) s.shape alg 0 s.num_columns (j / s.bkt_per_col)
            (j % s.bkt_per_col) j (start idx)
            (omega
              (arith, w.sized, length-touch hashes idx (sum_of idx) s.buckets (s.num_buckets - 1)))
            (mod-lt j w.rows) (div-add-mod' j s.bkt_per_col) (omega arith)
            (column_of j s.num_columns s.bkt_per_col w.rows in_columns)
          ∙ ap
              (λ t.
                t
                ⊕ share hashes idx (sum_of idx) alg s.shape (j / s.bkt_per_col) (j % s.bkt_per_col))
              (get_or-touch_ne hashes idx (sum_of idx) s.buckets (s.num_buckets - 1) j
                (λ e'. other (sym e'))))
  ]
    where
      sum_of : ℕ → ℕ
      sum_of = checksum s.shape

      start : ℕ → List Bucket
      start i = touch hashes i (sum_of i) s.buckets (s.num_buckets - 1)

  pub update-WellFormed :
      (s : Sketch) (idx : ℕ) → WellFormed s → WellFormed (update hashes alg s idx)
  unfolding update
  update-WellFormed s idx w =
      let sum = checksum s.shape idx in
      let first = touch hashes idx sum s.buckets (s.num_buckets - 1) in
      record {
        columns = w.columns;
        rows = w.rows;
        total = w.total;
        sized =
            length-cols hashes idx sum s.shape alg 0 s.num_columns first
            ∙ length-touch hashes idx sum s.buckets (s.num_buckets - 1)
            ∙ w.sized;
      }

  pub update_all-WellFormed :
      (s : Sketch) (stream : List ℕ) → WellFormed s → WellFormed (update_all hashes alg s stream)
  unfolding update_all
  update_all-WellFormed s [] w = w
  update_all-WellFormed s (idx ∷ stream) w =
      update_all-WellFormed (update hashes alg s idx) stream (update-WellFormed s idx w)

  -- In a well-formed sketch every bucket after a stream is the bucket before, combined with the sum
  -- of what the indices of the stream contribute to it.
  pub bucket_at-update_all :
      (s : Sketch) (stream : List ℕ) (j : ℕ)
      → WellFormed s
      → j < s.num_buckets
      → bucket_at (update_all hashes alg s stream) j ≡ bucket_at s j ⊕ total s.shape stream j
  unfolding update_all update total
  bucket_at-update_all s [] j w h = sym (⊕-empty (bucket_at s j))
  bucket_at-update_all s (idx ∷ stream) j w h =
      bucket_at-update_all (update hashes alg s idx) stream j (update-WellFormed s idx w) h
      ∙ ap (λ t. t ⊕ total s.shape stream j) (bucket_at-update s idx j w h)
      ∙ ⊕_assoc (bucket_at s j) (contribution s.shape idx j) (total s.shape stream j)
