-- ===== src/Sketch/Merge/Range.antt =====
-- `range_merge` of one sample, as a Boruvka round uses it, against `merge` of everything.
use native.Mathlib.Nat.{mul-le-mul_right}
use graph_streaming_cc.Prelude.{
  ℕ, suc, ◌+◌, ◌-◌, ◌*◌, ◌≤◌, ◌<◌, ◌≡◌, refl, sym, ap, subst, ◌∙◌, inl, inr, ⊎_elim, arith, lt→ltb,
  Bool-cases, le→ltb-false, ltb, if◌then◌else◌, List, [], ◌∷◌, foldl, length, range_from,
}
use graph_streaming_cc.Bucket.{Hashes, Bucket}
use graph_streaming_cc.Bucket.Group.{◌⊕◌}
use graph_streaming_cc.Sketch.{
  Shape, Sketch, SketchSample, returned, out_of_samples, bucket_at, absorb, merge, range_merge,
}
use graph_streaming_cc.Sketch.Merge.{
  length-absorb, absorb_outside, absorb_inside, bucket_at-merge, length-merge, shape-merge,
}
use graph_streaming_cc.Sketch.Sample.{query, sample}
use graph_streaming_cc.Sketch.Sample.Results.{sample_lem}
use graph_streaming_cc.Sketch.Sample.Window.{AgreeAt, query-AgreeAt}
use graph_streaming_cc.Sketch.Update.Cells.{WellFormed}

pub shape-range_merge :
    (s other : Sketch) (start n : ℕ) → (range_merge s other start n).shape ≡ s.shape
unfolding range_merge
shape-range_merge s other start n = elim (Bool-cases (ltb s.num_samples (start + n))) [
  | inl e ↦ rw e refl
  | inr e ↦ rw e refl
]

-- The fail state.
pub range_merge_spent :
    (s other : Sketch) (start n : ℕ)
    → s.num_samples < start + n
    → (range_merge s other start n).num_samples ≤ (range_merge s other start n).sample_idx
unfolding range_merge
range_merge_spent s other start n h = rw (lt→ltb _ _ h) (omega arith)

-- After a `range_merge` that reaches past the last sample, `sample` throws.
range_merge_overrun :
    (hashes : Hashes) (s other : Sketch) (start n : ℕ)
    → s.num_samples < start + n
    → sample hashes (range_merge s other start n)
      ≡ out_of_samples s.seed s.num_samples s.num_samples
unfolding range_merge
range_merge_overrun hashes s other start n h = rw (lt→ltb _ _ h) (
    ⊎_elim (λ r. r.1) (λ r. absurd (omega (arith, r.0)))
      (sample_lem hashes (record s { sample_idx = s.num_samples })))

rows_le : (a b rows : ℕ) → a ≤ b → a * rows ≤ b * rows
rows_le a b rows h = mul-le-mul_right rows h

module _ (s other : Sketch) (k : ℕ) (fits : k + 1 ≤ s.num_samples) where
  abbrev first_of_window : ℕ
  first_of_window = k * s.cols_per_sample * s.bkt_per_col

  abbrev merged_last : List Bucket
  merged_last = absorb other.buckets s.buckets (range_from (s.num_buckets - 1) 1)

  -- The sketch that a merge of one sample leaves.
  abbrev merged : Sketch
  merged = record s {
    sample_idx = if ltb s.sample_idx k then k else s.sample_idx;
    buckets =
        absorb other.buckets merged_last
          (range_from first_of_window (1 * s.cols_per_sample * s.bkt_per_col));
  }

  range_merge-merged : range_merge s other k 1 ≡ merged
  unfolding range_merge
  range_merge-merged = rw (le→ltb-false s.num_samples (k + 1) fits)

  length-merged : length merged.buckets ≡ length s.buckets
  length-merged =
      length-absorb other.buckets first_of_window (1 * s.cols_per_sample * s.bkt_per_col)
        merged_last
      ∙ length-absorb other.buckets (s.num_buckets - 1) 1 s.buckets

  module _ (w : WellFormed s) where
    -- The window of the sample ends before the deterministic bucket.
    window_end : first_of_window + s.cols_per_sample * s.bkt_per_col ≤ s.num_buckets - 1
    window_end =
        let cols : (k + 1) * s.cols_per_sample ≤ s.num_columns =
          omega (arith, rows_le (k + 1) s.num_samples s.cols_per_sample fits, w.columns) in
        omega
          (arith, rows_le ((k + 1) * s.cols_per_sample) s.num_columns s.bkt_per_col cols, w.total)

    merged_last_lem :
        bucket_at merged (s.num_buckets - 1)
        ≡ bucket_at s (s.num_buckets - 1) ⊕ bucket_at other (s.num_buckets - 1)
    merged_last_lem =
        (absorb_outside other.buckets first_of_window (1 * s.cols_per_sample * s.bkt_per_col)
            (s.num_buckets - 1) merged_last (inr (omega (arith, window_end)))
          ∙ absorb_inside other.buckets (s.num_buckets - 1) 1 (s.num_buckets - 1) s.buckets
              (omega (arith, w.sized, w.total)) (omega arith) (omega arith))

    merged_window :
        (j : ℕ)
        → first_of_window ≤ j
        → j < first_of_window + s.cols_per_sample * s.bkt_per_col
        → bucket_at merged j ≡ bucket_at s j ⊕ bucket_at other j
    merged_window j p q =
        (absorb_inside other.buckets first_of_window (1 * s.cols_per_sample * s.bkt_per_col) j
            merged_last
            (omega (
              arith,
              w.sized,
              w.total,
              window_end,
              length-absorb other.buckets (s.num_buckets - 1) 1 s.buckets,
            ))
            p (omega arith)
          ∙ ap (λ t. t ⊕ bucket_at other j)
              (absorb_outside other.buckets (s.num_buckets - 1) 1 j s.buckets
                (inl (omega (arith, window_end)))))

-- One round of merges into a zeroed sketch, and the merge of everything.
abbrev pub round_merge : ℕ → Sketch → List Sketch → Sketch
round_merge k = foldl (λ s o. range_merge s o k 1)

abbrev pub full_merge : Sketch → List Sketch → Sketch
full_merge = foldl merge

-- The two sketches, while the merges go on.
record InStep (k : ℕ) (s t : Sketch) : Type 0 where
  agree : AgreeAt k s t
  formed : WellFormed s
  sized : length t.buckets ≡ s.num_buckets
  fits : k + 1 ≤ s.num_samples

InStep-merge : (k : ℕ) (s t o : Sketch) → InStep k s t → InStep k (range_merge s o k 1) (merge t o)
InStep-merge k s t o h =
    subst (λ z. InStep k z (merge t o)) (sym (range_merge-merged s o k h.fits))
      (record {
        agree = record {
          shapes = h.agree.shapes ∙ sym (shape-merge t o);
          last =
              merged_last_lem s o k h.fits h.formed
              ∙ ap (λ z. z ⊕ bucket_at o (s.num_buckets - 1)) h.agree.last
              ∙ sym (
                  bucket_at-merge t o (s.num_buckets - 1) (omega (arith, h.sized, h.formed.total))
                    (omega (arith, buckets_eq, h.formed.total)));
          window = λ j p q.
              merged_window s o k h.fits h.formed j p q
              ∙ ap (λ z. z ⊕ bucket_at o j) (h.agree.window j p q)
              ∙ sym (
                  bucket_at-merge t o j (omega (arith, h.sized, window_end s o k h.fits h.formed))
                    (omega (arith, buckets_eq, window_end s o k h.fits h.formed)));
        };
        formed = record {
          columns = h.formed.columns;
          rows = h.formed.rows;
          total = h.formed.total;
          sized = length-merged s o k h.fits ∙ h.formed.sized;
        };
        sized = length-merge t o ∙ h.sized;
        fits = h.fits;
      })
  where
    buckets_eq : s.num_buckets ≡ t.num_buckets
    buckets_eq = ap (λ (z : Shape). z.num_buckets) h.agree.shapes

InStep-fold :
    (k : ℕ) (s t : Sketch) (os : List Sketch)
    → InStep k s t
    → InStep k (round_merge k s os) (full_merge t os)
InStep-fold k s t [] h = h
InStep-fold k s t (o ∷ os) h =
    InStep-fold k (range_merge s o k 1) (merge t o) os (InStep-merge k s t o h)

sample_idx-round_merge :
    (k : ℕ) (s : Sketch) (os : List Sketch)
    → k + 1 ≤ s.num_samples
    → s.sample_idx ≡ k
    → (round_merge k s os).sample_idx ≡ k
sample_idx-round_merge k s [] fits e = e
sample_idx-round_merge k s (o ∷ os) fits e =
    ap (λ z. (round_merge k z os).sample_idx) (range_merge-merged s o k fits)
    ∙ sample_idx-round_merge k (merged s o k fits) os fits (ground arith)

sample_idx-round_merge_first :
    (k : ℕ) (s o : Sketch) (os : List Sketch)
    → k + 1 ≤ s.num_samples
    → s.sample_idx ≤ k
    → (round_merge k s (o ∷ os)).sample_idx ≡ k
sample_idx-round_merge_first k s o os fits h =
    ap (λ z. (round_merge k z os).sample_idx) (range_merge-merged s o k fits)
    ∙ sample_idx-round_merge k (merged s o k fits) os fits (ground arith)

sample_at :
    (hashes : Hashes) (k : ℕ) (s : Sketch)
    → s.sample_idx ≡ k
    → k < s.num_samples
    → sample hashes s ≡ returned (record s { sample_idx = suc k }, query hashes s k)
sample_at hashes k s e h =
    ⊎_elim (λ r. absurd (omega (arith, r.0)))
      (λ r. r.1 ∙ ap (λ (i : ℕ). returned (record s { sample_idx = suc i }, query hashes s i)) e)
      (sample_lem hashes s)

AgreeAt-idx : (k i : ℕ) (s : Sketch) → AgreeAt k (record s { sample_idx = i }) s
AgreeAt-idx k i s = record { shapes = refl; last = refl; window = λ j p q. refl }

-- In a well-formed sketch that has a sample k and has not passed it: merging only the columns of
-- sample k of one or more sketches, as a Boruvka round does, gives the sample that merging the whole
-- sketches gives; both calls return, with one result.
pub sample-round_merge :
    (hashes : Hashes) (k : ℕ) (s o : Sketch) (os : List Sketch)
    → WellFormed s
    → s.sample_idx ≤ k
    → k < s.num_samples
    → let part = round_merge k s (o ∷ os) in
      let whole = record (full_merge s (o ∷ os)) { sample_idx = k } in
      (r : SketchSample) × (sample hashes part ≡ returned (record part { sample_idx = suc k }, r))
      × (sample hashes whole ≡ returned (record whole { sample_idx = suc k }, r))
sample-round_merge hashes k s o os w idx h = (
  query hashes part k,
  sample_at hashes k part (sample_idx-round_merge_first k s o os fits idx)
      (omega (arith, step.fits)),
  sample_at hashes k (record full { sample_idx = k }) refl (omega (arith, step.fits, samples))
      ∙ ap (λ z. returned (record full { sample_idx = suc k }, z))
          (query-AgreeAt hashes k (record full { sample_idx = k }) full (AgreeAt-idx k k full)
            ∙ sym (query-AgreeAt hashes k part full step.agree)),
)
  where
    fits : k + 1 ≤ s.num_samples
    fits = omega arith

    part : Sketch
    part = round_merge k s (o ∷ os)

    full : Sketch
    full = full_merge s (o ∷ os)

    step : InStep k part full
    step = InStep-fold k s s (o ∷ os) (record {
      agree = record { shapes = refl; last = refl; window = λ j p q. refl };
      formed = w;
      sized = w.sized;
      fits = fits;
    })

    samples : part.num_samples ≡ full.num_samples
    samples = ap (λ (z : Shape). z.num_samples) step.agree.shapes
