-- ===== src/Sketch/Update/Columns.antt =====
-- The loop over the columns of `Sketch::update`, bucket by bucket.
use native.Mathlib.Nat.{add-mul, suc-mul, mul-le-mul_right}
use graph_streaming_cc.Prelude.{
  ℕ, zero, suc, ◌+◌, ◌*◌, ◌≤◌, ◌<◌, ◌≡◌, refl, sym, ap, ◌∙◌, ◌⊎◌, inl, inr, arith, true, false, ltb,
  leb, ◌==◌, Bool-cases, eq-or-ne, List, get_or, length, range_from, ltb→lt,
}
use graph_streaming_cc.Bucket.{Hashes, Bucket, empty_bucket}
use graph_streaming_cc.Bucket.Group.{◌⊕◌, ⊕-empty}
use graph_streaming_cc.Sketch.{Shape}
use graph_streaming_cc.Sketch.Update.{Algorithm, cube, cameo, touch, column_depth, update_column}
use graph_streaming_cc.Sketch.Update.Cells.{
  column_below, get_or-touch_self, get_or-touch_ne, length-touch, touch_rows, length-touch_rows,
  touch_rows_outside, touch_rows_inside, share, cols_from,
}

row_start : (lo c rows : ℕ) → lo + 1 ≤ c → (lo + 1) * rows ≤ c * rows
row_start lo c rows h = mul-le-mul_right rows h

module _ (hashes : Hashes) (idx sum : ℕ) (s : Shape) where
  -- A column whose depth is cut off is left alone; the others are touched by the rows reached.
  cube_skip :
      (c : ℕ) (bs : List Bucket)
      → ltb (column_depth hashes s idx c) s.bkt_per_col ≡ false
      → update_column hashes cube s idx sum bs c ≡ bs
  unfolding update_column
  cube_skip c bs e = rw e

  cube_hit :
      (c : ℕ) (bs : List Bucket)
      → ltb (column_depth hashes s idx c) s.bkt_per_col ≡ true
      → update_column hashes cube s idx sum bs c
        ≡ touch_rows hashes idx sum c s.bkt_per_col bs
            (range_from 0 (suc (column_depth hashes s idx c)))
  unfolding update_column
  cube_hit c bs e = rw e

  cameo_skip :
      (c : ℕ) (bs : List Bucket)
      → ltb (column_depth hashes s idx c) s.bkt_per_col ≡ false
      → update_column hashes cameo s idx sum bs c ≡ bs
  unfolding update_column
  cameo_skip c bs e = rw e

  cameo_hit :
      (c : ℕ) (bs : List Bucket)
      → ltb (column_depth hashes s idx c) s.bkt_per_col ≡ true
      → update_column hashes cameo s idx sum bs c
        ≡ touch hashes idx sum bs (c * s.bkt_per_col + column_depth hashes s idx c)
  unfolding update_column
  cameo_hit c bs e = rw e

  length-update_column :
      (alg : Algorithm) (c : ℕ) (bs : List Bucket)
      → length (update_column hashes alg s idx sum bs c) ≡ length bs
  length-update_column cube c bs =
      elim (Bool-cases (ltb (column_depth hashes s idx c) s.bkt_per_col)) [
        | inl e ↦ rw (cube_hit c bs e) (
            length-touch_rows hashes idx sum c s.bkt_per_col 0 (suc (column_depth hashes s idx c))
              bs)
        | inr e ↦ rw (cube_skip c bs e)
      ]
  length-update_column cameo c bs =
      elim (Bool-cases (ltb (column_depth hashes s idx c) s.bkt_per_col)) [
        | inl e ↦
            rw (cameo_hit c bs e)
              (length-touch hashes idx sum bs (c * s.bkt_per_col + column_depth hashes s idx c))
        | inr e ↦ rw (cameo_skip c bs e)
      ]

  column_outside :
      (alg : Algorithm) (c j : ℕ) (bs : List Bucket)
      → (j < c * s.bkt_per_col) ⊎ ((c + 1) * s.bkt_per_col ≤ j)
      → get_or (update_column hashes alg s idx sum bs c) j empty_bucket ≡ get_or bs j empty_bucket
  column_outside cube c j bs out =
      elim (Bool-cases (ltb (column_depth hashes s idx c) s.bkt_per_col)) [
        | inl e ↦ rw (cube_hit c bs e) (
            touch_rows_outside hashes idx sum c s.bkt_per_col 0 (suc (column_depth hashes s idx c))
              j bs (omega (arith, add-mul c 1 s.bkt_per_col, ltb→lt _ _ e)))
        | inr e ↦ rw (cube_skip c bs e)
      ]
  column_outside cameo c j bs out =
      elim (Bool-cases (ltb (column_depth hashes s idx c) s.bkt_per_col)) [
        | inl e ↦ rw (cameo_hit c bs e) (
            get_or-touch_ne hashes idx sum bs (c * s.bkt_per_col + column_depth hashes s idx c) j
              (omega (arith, add-mul c 1 s.bkt_per_col, ltb→lt _ _ e)))
        | inr e ↦ rw (cameo_skip c bs e)
      ]

  column_inside :
      (alg : Algorithm) (c r j : ℕ) (bs : List Bucket)
      → j < length bs
      → r < s.bkt_per_col
      → c * s.bkt_per_col + r ≡ j
      → get_or (update_column hashes alg s idx sum bs c) j empty_bucket
        ≡ get_or bs j empty_bucket ⊕ share hashes idx sum alg s c r
  column_inside cube c r j bs h small pos =
      elim (Bool-cases (ltb (column_depth hashes s idx c) s.bkt_per_col)) [
        | inl e ↦ elim (Bool-cases (leb r (column_depth hashes s idx c))) [
          | inl le ↦
              rw (cube_hit c bs e, e, le)
                (touch_rows_inside hashes idx sum c s.bkt_per_col 0
                  (suc (column_depth hashes s idx c)) j bs h (omega arith) (ground arith))
          | inr gt ↦
              rw (cube_hit c bs e, e, gt)
                (touch_rows_outside hashes idx sum c s.bkt_per_col 0
                    (suc (column_depth hashes s idx c)) j bs (inr (ground arith))
                  ∙ sym (⊕-empty _))
        ]
        | inr e ↦ rw (cube_skip c bs e, e) (sym (⊕-empty _))
      ]
  column_inside cameo c r j bs h small pos =
      elim (Bool-cases (ltb (column_depth hashes s idx c) s.bkt_per_col)) [
        | inl e ↦ elim (Bool-cases (column_depth hashes s idx c == r)) [
          | inl eq ↦
              let hit : c * s.bkt_per_col + column_depth hashes s idx c ≡ j = ground arith in
              rw (cameo_hit c bs e, e, eq, hit) (get_or-touch_self hashes idx sum bs j h)
          | inr ne ↦
              rw (cameo_hit c bs e, e, ne)
                (get_or-touch_ne hashes idx sum bs (c * s.bkt_per_col + column_depth hashes s idx c)
                    j (ground arith)
                  ∙ sym (⊕-empty _))
        ]
        | inr e ↦ rw (cameo_skip c bs e, e) (sym (⊕-empty _))
      ]

  pub length-cols :
      (alg : Algorithm) (lo n : ℕ) (bs : List Bucket)
      → length (cols_from hashes idx sum alg s bs (range_from lo n)) ≡ length bs
  length-cols alg lo zero bs = refl
  length-cols alg lo (suc n) bs =
      length-cols alg (suc lo) n (update_column hashes alg s idx sum bs lo)
      ∙ length-update_column alg lo bs

  pub cols_outside :
      (alg : Algorithm) (lo n j : ℕ) (bs : List Bucket)
      → (j < lo * s.bkt_per_col) ⊎ ((lo + n) * s.bkt_per_col ≤ j)
      → get_or (cols_from hashes idx sum alg s bs (range_from lo n)) j empty_bucket
        ≡ get_or bs j empty_bucket
  cols_outside alg lo zero j bs out = refl
  cols_outside alg lo (suc n) j bs out =
      let first : (j < lo * s.bkt_per_col) ⊎ ((lo + 1) * s.bkt_per_col ≤ j) = omega (
        arith,
        add-mul lo 1 s.bkt_per_col,
        add-mul lo (suc n) s.bkt_per_col,
        suc-mul n s.bkt_per_col,
      ) in
      let others : (j < suc lo * s.bkt_per_col) ⊎ ((suc lo + n) * s.bkt_per_col ≤ j) = omega (
        arith,
        suc-mul lo s.bkt_per_col,
        add-mul (suc lo) n s.bkt_per_col,
        add-mul lo (suc n) s.bkt_per_col,
        suc-mul n s.bkt_per_col,
      ) in
      cols_outside alg (suc lo) n j (update_column hashes alg s idx sum bs lo) others
      ∙ column_outside alg lo j bs first

  pub cols_inside :
      (alg : Algorithm) (lo n c r j : ℕ) (bs : List Bucket)
      → j < length bs
      → r < s.bkt_per_col
      → c * s.bkt_per_col + r ≡ j
      → lo ≤ c
      → c < lo + n
      → get_or (cols_from hashes idx sum alg s bs (range_from lo n)) j empty_bucket
        ≡ get_or bs j empty_bucket ⊕ share hashes idx sum alg s c r
  cols_inside alg lo zero c r j bs h small pos p q = absurd (omega arith)
  cols_inside alg lo (suc n) c r j bs h small pos p q = elim (eq-or-ne lo c) [
    | inl e ↦
        cols_outside alg (suc lo) n j (update_column hashes alg s idx sum bs lo)
          (inl (omega (arith, column_below c (suc lo) s.bkt_per_col r small (omega arith))))
        ∙ rw e (column_inside alg c r j bs h small pos)
    | inr ne ↦
        cols_inside alg (suc lo) n c r j (update_column hashes alg s idx sum bs lo)
          (omega (arith, length-update_column alg lo bs)) small pos (omega arith) (omega arith)
        ∙ ap (λ t. t ⊕ share hashes idx sum alg s c r)
            (column_outside alg lo j bs
              (inr (omega (arith, row_start lo c s.bkt_per_col (omega arith)))))
  ]
