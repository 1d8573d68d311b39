-- ===== src/Sketch/Sample/Exhaustive.antt =====
-- `Sketch::exhaustive_sample` (src/sketch.cpp) against `Sketch::sample`.
use graph_streaming_cc.Prelude.{
  ℕ, ◌+◌, ◌*◌, ◌-◌, ◌≡◌, ◌≢◌, refl, sym, ap, ◌∙◌, subst, inl, inr, Bool, true, false, ◌==◌,
  if◌then◌else◌, Option, none, some, List, [], ◌∷◌, foldl, range_from, Bool-cases, ==→eq,
  Option-cases,
}
use mathlib.Core.Option
use graph_streaming_cc.Bucket.{Hashes, is_good}
use graph_streaming_cc.Sketch.{
  Sketch, SampleResult, SketchSample, ExhaustiveSketchSample, bucket_at, checksum_seed,
}
use graph_streaming_cc.Sketch.Sample.{
  is_empty, insert_idx, or_else, scan_result, collected, scan_column, scan_columns, query,
  collect_column, collect_columns, query_all,
}

-- An index of the set.
pub data Held (a : ℕ) : List ℕ → Type 0 where
  first : (xs : List ℕ) → Held a (a ∷ xs)
  later : (x : ℕ) (xs : List ℕ) → Held a xs → Held a (x ∷ xs)

Held-insert_idx_self : (a : ℕ) (xs : List ℕ) → Held a (insert_idx a xs)
unfolding insert_idx
Held-insert_idx_self a [] = first []
Held-insert_idx_self a (x ∷ xs) = elim (Bool-cases (a == x)) [
  | inl e ↦ rw e (subst (λ z. Held z (x ∷ xs)) (sym (==→eq a x e)) (first xs))
  | inr e ↦ rw e (later x (insert_idx a xs) (Held-insert_idx_self a xs))
]

Held-insert_idx_old : (a b : ℕ) (xs : List ℕ) → Held b xs → Held b (insert_idx a xs)
unfolding insert_idx
Held-insert_idx_old a b [] h = elim h [ ]
Held-insert_idx_old a b (x ∷ xs) (first _) = elim (Bool-cases (a == b)) [
  | inl e ↦ rw e (first xs)
  | inr e ↦ rw e (first (insert_idx a xs))
]
Held-insert_idx_old a b (x ∷ xs) (later _ _ h) = elim (Bool-cases (a == x)) [
  | inl e ↦ rw e (later x xs h)
  | inr e ↦ rw e (later x (insert_idx a xs) (Held-insert_idx_old a b xs h))
]

module _ (hashes : Hashes) (s : Sketch) where
  Held-collect_column :
      (column a j : ℕ) (ret : List ℕ) → Held a ret → Held a (collect_column hashes s column ret j)
  unfolding collect_column
  Held-collect_column column a j ret h =
      let b = bucket_at s (column * s.bkt_per_col + j) in
      elim (Bool-cases (is_good hashes b (checksum_seed s.shape))) [
        | inl e ↦ rw e (Held-insert_idx_old b.alpha a ret h)
        | inr e ↦ rw e h
      ]

  Held-column :
      (column a : ℕ) (js : List ℕ) (ret : List ℕ)
      → Held a ret
      → Held a (foldl (collect_column hashes s column) ret js)
  Held-column column a [] ret h = h
  Held-column column a (j ∷ js) ret h =
      Held-column column a js (collect_column hashes s column ret j)
        (Held-collect_column column a j ret h)

  Held-columns :
      (start a : ℕ) (is : List ℕ) (ret : List ℕ)
      → Held a ret
      → Held a (foldl (collect_columns hashes s start) ret is)
  unfolding collect_columns
  Held-columns start a [] ret h = h
  Held-columns start a (i ∷ is) ret h =
      Held-columns start a is (collect_columns hashes s start ret i)
        (Held-column (i + start) a (range_from 0 s.bkt_per_col) ret h)

  -- What the search of a column finds is collected.
  column_found :
      (column a : ℕ) (js : List ℕ) (ret : List ℕ)
      → scan_column hashes s column js ≡ some a
      → Held a (foldl (collect_column hashes s column) ret js)
  unfolding scan_column collect_column
  column_found column a [] ret e = cc
  column_found column a (j ∷ js) ret e =
      let b = bucket_at s (column * s.bkt_per_col + j) in
      elim (Bool-cases (is_good hashes b (checksum_seed s.shape))) [
        | inl good ↦
            let same : b.alpha ≡ a = Option.some_inj.0 (
              sym (ap (λ t. if t then some b.alpha else scan_column hashes s column js) good)
              ∙ e) in
            Held-column column a js (collect_column hashes s column ret j) (
              rw good (
                subst (λ z. Held z (insert_idx b.alpha ret)) same
                  (Held-insert_idx_self b.alpha ret)))
        | inr bad ↦
            column_found column a js (collect_column hashes s column ret j)
              (sym (ap (λ t. if t then some b.alpha else scan_column hashes s column js) bad) ∙ e)
      ]

  columns_found :
      (start a : ℕ) (is : List ℕ) (ret : List ℕ)
      → scan_columns hashes s start is ≡ some a
      → Held a (foldl (collect_columns hashes s start) ret is)
  unfolding scan_columns collect_columns
  columns_found start a [] ret e = cc
  columns_found start a (i ∷ is) ret e =
      let rows = range_from 0 s.bkt_per_col in
      elim (Option-cases (scan_column hashes s (i + start) rows)) [
        | inl nothing ↦
            columns_found start a is (collect_columns hashes s start ret i)
              (sym (ap (λ t. or_else t (scan_columns hashes s start is)) nothing) ∙ e)
        | inr (b, found) ↦
            let same : b ≡ a =
              Option.some_inj.0
                (sym (ap (λ t. or_else t (scan_columns hashes s start is)) found) ∙ e) in
            Held-columns start a is (collect_columns hashes s start ret i)
              (column_found (i + start) a rows ret (found ∙ ap some same))
      ]

  scan_good :
      (o : Option ℕ) (a : ℕ)
      → scan_result o ≡ record { idx = a; result = SampleResult.good }
      → o ≡ some a
  unfolding scan_result
  scan_good (some b) a e = ap (λ (t : SketchSample). some t.idx) e
  scan_good none a e = absurd (fail≢good (ap (λ (t : SketchSample). t.result) e))
    where
      fail≢good : SampleResult.fail ≢ SampleResult.good
      fail≢good h = cc

  collected_good : (a : ℕ) (xs : List ℕ) → Held a xs → (collected xs).result ≡ SampleResult.good
  unfolding collected
  collected_good a [] h = elim h [ ]
  collected_good a (x ∷ xs) h = refl

  collected_same : (xs : List ℕ) → (collected xs).idxs ≡ xs
  unfolding collected
  collected_same [] = refl
  collected_same (x ∷ xs) = refl

  -- The tests of the deterministic bucket, in both functions.
  one_of :
      (empty good : Bool) (alpha a : ℕ) (found : Option ℕ) (all : List ℕ)
      → (found ≡ some a → Held a all)
      → (if empty
          then record { idx = 0; result = SampleResult.zero }
          else if good
          then record { idx = alpha; result = SampleResult.good }
          else scan_result found)
        ≡ record { idx = a; result = SampleResult.good }
      → let every : ExhaustiveSketchSample =
          (if empty
            then record { idxs = []; result = SampleResult.zero }
            else if good
            then record { idxs = alpha ∷ []; result = SampleResult.good }
            else collected all) in
        (every.result ≡ SampleResult.good) × Held a every.idxs
  one_of true good alpha a found all holds e =
      absurd (zero≢good (ap (λ (t : SketchSample). t.result) e))
    where
      zero≢good : SampleResult.zero ≢ SampleResult.good
      zero≢good h = cc
  one_of false true alpha a found all holds e =
      (refl, subst (λ z. Held z (alpha ∷ [])) (ap (λ (t : SketchSample). t.idx) e) (first []))
  one_of false false alpha a found all holds e =
      let h = holds (scan_good found a e) in
      (collected_good a all h, subst (Held a) (sym (collected_same all)) h)

  -- When the sample of a sketch is good, the exhaustive sample that has as many samples taken is good
  -- too and holds its index.
  pub query_all-query :
      (k a : ℕ)
      → query hashes s k ≡ record { idx = a; result = SampleResult.good }
      → ((query_all hashes s k).result ≡ SampleResult.good) × Held a (query_all hashes s k).idxs
  unfolding query query_all
  query_all-query k a e =
      let last = bucket_at s (s.num_buckets - 1) in
      one_of (is_empty last) (is_good hashes last (checksum_seed s.shape)) last.alpha a
        (scan_columns hashes s (k * s.cols_per_sample) (range_from 0 s.cols_per_sample))
        (foldl (collect_columns hashes s (k * s.cols_per_sample)) []
          (range_from 0 s.cols_per_sample))
        (columns_found (k * s.cols_per_sample) a (range_from 0 s.cols_per_sample) []) e
