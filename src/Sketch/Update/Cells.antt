-- ===== src/Sketch/Update/Cells.antt =====
-- What each bucket of a sketch holds, bucket by bucket.
use native.Mathlib.Nat.{
  div-eq_of_lt-le, mul-add-mod_self_right, mod-eq_of_lt, add-mul, mul-le-mul_right,
}
use graph_streaming_cc.Prelude.{
  ℕ, zero, suc, ◌+◌, ◌*◌, ◌/◌, ◌%◌, ◌≤◌, ◌<◌, ◌≡◌, ◌≢◌, refl, ap, ◌∙◌, ◌⊎◌, inl, inr, arith, Bool,
  ◌&&◌, ltb, leb, ◌==◌, if◌then◌else◌, eq-or-ne, List, foldl, get_or, length, length-modify,
  get_or-modify_self, get_or-modify_ne, range_from,
}
use graph_streaming_cc.Bucket.{Hashes, Bucket, empty_bucket, get_index_hash}
use graph_streaming_cc.Bucket
use graph_streaming_cc.Bucket.Group.{◌⊕◌, update-as_⊕}
use graph_streaming_cc.Sketch.{Shape, Sketch}
use graph_streaming_cc.Sketch.Update.{Algorithm, cube, cameo, touch, column_depth, update_column}

-- The sizes that the constructors give, which no operation changes.
pub record WellFormed (s : Sketch) : Type 0 where
  pub columns : s.num_columns ≡ s.num_samples * s.cols_per_sample
  pub rows : 0 < s.bkt_per_col
  pub total : s.num_buckets ≡ s.num_columns * s.bkt_per_col + 1
  pub sized : length s.buckets ≡ s.num_buckets

-- Whether an index of that depth is held by the bucket in row `r` of the column.
abbrev pub reaches : Algorithm → ℕ → ℕ → ℕ → Bool
reaches cube rows depth r = ltb depth rows && leb r depth
reaches cameo rows depth r = ltb depth rows && (depth == r)

-- Quotient and remainder of a position are its column and its row.
pub position_unique :
    (rows c d j : ℕ) → d < rows → c * rows + d ≡ j → (j / rows ≡ c) × (j % rows ≡ d)
position_unique rows c d j h e = rw (← e) (
  div-eq_of_lt-le rows (omega arith) (omega (arith, add-mul c rows)),
  mul-add-mod_self_right c rows d ∙ mod-eq_of_lt h,
)

-- The columns c' < c end where column c begins, or before.
pub column_below : (c c' rows r : ℕ) → r < rows → c < c' → c * rows + r < c' * rows
column_below c c' rows r h lt =
    let step : (c + 1) * rows ≤ c' * rows = mul-le-mul_right rows (omega arith) in
    omega (arith, step, add-mul c 1 rows)

module _ (hashes : Hashes) (idx sum : ℕ) where
  abbrev pub mark : Bucket
  mark = record { alpha = idx; gamma = sum }

  pub get_or-touch_self :
      (bs : List Bucket) (i : ℕ)
      → i < length bs
      → get_or (touch hashes idx sum bs i) i empty_bucket ≡ get_or bs i empty_bucket ⊕ mark
  unfolding touch
  get_or-touch_self bs i h =
      get_or-modify_self bs i (λ b. Bucket.update b idx sum) empty_bucket h
      ∙ update-as_⊕ (get_or bs i empty_bucket) idx sum

  pub get_or-touch_at :
      (bs : List Bucket) (i j : ℕ)
      → i ≡ j
      → j < length bs
      → get_or (touch hashes idx sum bs i) j empty_bucket ≡ get_or bs j empty_bucket ⊕ mark
  get_or-touch_at bs i j e h = rw e (get_or-touch_self bs j h)

  pub get_or-touch_ne :
      (bs : List Bucket) (i j : ℕ)
      → i ≢ j
      → get_or (touch hashes idx sum bs i) j empty_bucket ≡ get_or bs j empty_bucket
  unfolding touch
  get_or-touch_ne bs i j ne = get_or-modify_ne bs i j (λ b. Bucket.update b idx sum) empty_bucket ne

  pub length-touch : (bs : List Bucket) (i : ℕ) → length (touch hashes idx sum bs i) ≡ length bs
  unfolding touch
  length-touch bs i = length-modify bs i (λ b. Bucket.update b idx sum)

  -- The inner loop of CubeSketch touches the rows lo .. lo + n of column c.
  abbrev pub touch_rows : ℕ → ℕ → List Bucket → List ℕ → List Bucket
  touch_rows c rows = foldl (λ bs j. touch hashes idx sum bs (c * rows + j))

  pub length-touch_rows :
      (c rows lo n : ℕ) (bs : List Bucket)
      → length (touch_rows c rows bs (range_from lo n)) ≡ length bs
  length-touch_rows c rows lo zero bs = refl
  length-touch_rows c rows lo (suc n) bs =
      length-touch_rows c rows (suc lo) n (touch hashes idx sum bs (c * rows + lo))
      ∙ length-touch bs (c * rows + lo)

  pub touch_rows_outside :
      (c rows lo n j : ℕ) (bs : List Bucket)
      → (j < c * rows + lo) ⊎ (c * rows + lo + n ≤ j)
      → get_or (touch_rows c rows bs (range_from lo n)) j empty_bucket ≡ get_or bs j empty_bucket
  touch_rows_outside c rows lo zero j bs out = refl
  touch_rows_outside c rows lo (suc n) j bs out =
      touch_rows_outside c rows (suc lo) n j (touch hashes idx sum bs (c * rows + lo)) (omega arith)
      ∙ get_or-touch_ne bs (c * rows + lo) j (omega arith)

  pub touch_rows_inside :
      (c rows lo n j : ℕ) (bs : List Bucket)
      → j < length bs
      → c * rows + lo ≤ j
      → j < c * rows + lo + n
      → get_or (touch_rows c rows bs (range_from lo n)) j empty_bucket
        ≡ get_or bs j empty_bucket ⊕ mark
  touch_rows_inside c rows lo zero j bs h p q = absurd (omega arith)
  touch_rows_inside c rows lo (suc n) j bs h p q = elim (eq-or-ne (c * rows + lo) j) [
    | inl e ↦
        touch_rows_outside c rows (suc lo) n j (touch hashes idx sum bs (c * rows + lo))
          (omega arith)
        ∙ rw e (get_or-touch_self bs j h)
    | inr ne ↦
        touch_rows_inside c rows (suc lo) n j (touch hashes idx sum bs (c * rows + lo))
          (omega (arith, length-touch bs (c * rows + lo))) (omega arith) (omega arith)
        ∙ ap (λ t. t ⊕ mark) (get_or-touch_ne bs (c * rows + lo) j ne)
  ]

  module _ (alg : Algorithm) (s : Shape) where
    abbrev pub cols_from : List Bucket → List ℕ → List Bucket
    cols_from = foldl (update_column hashes alg s idx sum)

    -- What a column's bucket in row r gets.
    abbrev pub share : ℕ → ℕ → Bucket
    share c r =
        if reaches alg s.bkt_per_col (column_depth hashes s idx c) r then mark else empty_bucket
