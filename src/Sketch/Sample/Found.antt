-- ===== src/Sketch/Sample/Found.antt =====
-- A good result of `Sketch::sample` (src/sketch.cpp) is the index of a good bucket.
use graph_streaming_cc.Prelude.{
  ℕ, ◌+◌, ◌-◌, ◌*◌, ◌≡◌, ◌≢◌, refl, sym, ap, ◌∙◌, inl, inr, Bool, true, false, if◌then◌else◌,
  Option, none, some, List, [], ◌∷◌, range_from, Bool-cases, Option-cases,
}
use mathlib.Core.Option
use graph_streaming_cc.Bucket.{Hashes, is_good}
use graph_streaming_cc.Sketch.{Sketch, SampleResult, SketchSample, bucket_at, checksum_seed}
use graph_streaming_cc.Sketch.Sample.{
  is_empty, or_else, scan_result, scan_column, scan_columns, query,
}

-- A good bucket with this index.
pub record Found (hashes : Hashes) (s : Sketch) (a : ℕ) : Type 0 where
  pub place : ℕ
  pub is_good_there : is_good hashes (bucket_at s place) (checksum_seed s.shape) ≡ true
  pub index : (bucket_at s place).alpha ≡ a

module _ (hashes : Hashes) (s : Sketch) where
  scan_column-Found :
      (column : ℕ) (js : List ℕ) (a : ℕ)
      → scan_column hashes s column js ≡ some a
      → Found hashes s a
  unfolding scan_column
  scan_column-Found column [] a h = absurd (none≢some h)
    where
      none≢some : none ≢ some a
      none≢some e = cc
  scan_column-Found column (j ∷ js) a h =
      let b = bucket_at s (column * s.bkt_per_col + j) in
      elim (Bool-cases (is_good hashes b (checksum_seed s.shape))) [
        | inl good ↦ record {
          place = column * s.bkt_per_col + j;
          is_good_there = good;
          index =
              Option.some_inj.0 (
                sym (ap (λ t. if t then some b.alpha else scan_column hashes s column js) good)
                ∙ h);
        }
        | inr bad ↦
            scan_column-Found column js a
              (sym (ap (λ t. if t then some b.alpha else scan_column hashes s column js) bad) ∙ h)
      ]

  scan_columns-Found :
      (first : ℕ) (is : List ℕ) (a : ℕ) → scan_columns hashes s first is ≡ some a → Found hashes s a
  unfolding scan_columns
  scan_columns-Found first [] a h = absurd (none≢some h)
    where
      none≢some : none ≢ some a
      none≢some e = cc
  scan_columns-Found first (i ∷ is) a h =
      let column = scan_column hashes s (i + first) (range_from 0 s.bkt_per_col) in
      elim (Option-cases column) [
        | inr (a', found) ↦
            scan_column-Found (i + first) (range_from 0 s.bkt_per_col) a
              (found ∙ (sym (ap (λ t. or_else t (scan_columns hashes s first is)) found) ∙ h))
        | inl nothing ↦
            scan_columns-Found first is a
              (sym (ap (λ t. or_else t (scan_columns hashes s first is)) nothing) ∙ h)
      ]

  scan_result-good :
      (o : Option ℕ) → (scan_result o).result ≡ SampleResult.good → o ≡ some (scan_result o).idx
  unfolding scan_result
  scan_result-good none h = absurd (fail≢good h)
    where
      fail≢good : SampleResult.fail ≢ SampleResult.good
      fail≢good e = cc
  scan_result-good (some a) h = refl

  -- The three returns of `sample`.
  by_case :
      (empty good : Bool) (a : ℕ) (rest : SketchSample)
      → (good ≡ true → Found hashes s a)
      → (rest.result ≡ SampleResult.good → Found hashes s rest.idx)
      → let out : SketchSample =
          if empty
          then record { idx = 0; result = SampleResult.zero }
          else if good
          then record { idx = a; result = SampleResult.good }
          else rest in
        out.result ≡ SampleResult.good → Found hashes s out.idx
  by_case true good a rest k k' h = absurd (zero≢good h)
    where
      zero≢good : SampleResult.zero ≢ SampleResult.good
      zero≢good e = cc
  by_case false true a rest k k' h = k refl
  by_case false false a rest k k' h = k' h

  pub query-Found :
      (k : ℕ)
      → (query hashes s k).result ≡ SampleResult.good
      → Found hashes s (query hashes s k).idx
  unfolding query
  query-Found k h =
      let last = bucket_at s (s.num_buckets - 1) in
      let scanned =
        scan_columns hashes s (k * s.cols_per_sample) (range_from 0 s.cols_per_sample) in
      by_case (is_empty last) (is_good hashes last (checksum_seed s.shape)) last.alpha
        (scan_result scanned)
        (λ good. record { place = s.num_buckets - 1; is_good_there = good; index = refl })
        (λ good.
          scan_columns-Found (k * s.cols_per_sample) (range_from 0 s.cols_per_sample)
            (scan_result scanned).idx (scan_result-good scanned good))
        h
