-- ===== src/Sketch/Sample.antt =====
-- `Sketch::sample` and `Sketch::exhaustive_sample` of src/sketch.cpp.
pub mod Results
pub mod Window
pub mod Found
pub mod Exhaustive
use graph_streaming_cc.Prelude.{
  ℕ, suc, ◌+◌, ◌-◌, ◌*◌, Bool, ◌&&◌, leb, ◌==◌, if◌then◌else◌, Option, none, some, List, [], ◌∷◌,
  foldl, range_from,
}
use graph_streaming_cc.Bucket.{Hashes, Bucket, is_good}
use graph_streaming_cc.Sketch.{
  Sketch, SampleResult, SketchSample, ExhaustiveSketchSample, Sampled, returned, out_of_samples,
  bucket_at, checksum_seed,
}

abbrev pub is_empty : Bucket → Bool
is_empty b = b.alpha == 0 && b.gamma == 0

-- `ret.insert(alpha)` on a set of indices.
pub insert_idx : ℕ → List ℕ → List ℕ
insert_idx a [] = a ∷ []
insert_idx a (x ∷ xs) = if a == x then x ∷ xs else x ∷ insert_idx a xs

-- An early return from the inner loop ends the outer one.
abbrev pub or_else : Option ℕ → Option ℕ → Option ℕ
or_else (some a) rest = some a
or_else none rest = rest

-- The result of the search for a good bucket.
unfoldable pub scan_result : Option ℕ → SketchSample
scan_result (some a) = record { idx = a; result = SampleResult.good }
scan_result none = record { idx = 0; result = SampleResult.fail }

-- The result of the search for all good buckets.
pub collected : List ℕ → ExhaustiveSketchSample
collected [] = record { idxs = []; result = SampleResult.fail }
collected (x ∷ xs) = record { idxs = x ∷ xs; result = SampleResult.good }

module _ (hashes : Hashes) where
  -- The inner loop of `sample`, over the rows left in column `column`.
  unfoldable pub scan_column : Sketch → ℕ → List ℕ → Option ℕ
  scan_column s column [] = none
  scan_column s column (j ∷ js) =
      let rest = scan_column s column js in
      let b = bucket_at s (column * s.bkt_per_col + j) in
      if is_good hashes b (checksum_seed s.shape) then some b.alpha else rest

  -- The outer loop, over the columns left of this sample.
  unfoldable pub scan_columns : Sketch → ℕ → List ℕ → Option ℕ
  scan_columns s first_column [] = none
  scan_columns s first_column (i ∷ is) =
      let rest = scan_columns s first_column is in
      or_else (scan_column s (i + first_column) (range_from 0 s.bkt_per_col)) rest

  -- What is read off the buckets when `idx` samples have been taken.
  unfoldable pub query : Sketch → ℕ → SketchSample
  query s idx =
      let last = bucket_at s (s.num_buckets - 1) in
      if is_empty last
      then record { idx = 0; result = SampleResult.zero }
      else if is_good hashes last (checksum_seed s.shape)
      then record { idx = last.alpha; result = SampleResult.good }
      else scan_result (scan_columns s (idx * s.cols_per_sample) (range_from 0 s.cols_per_sample))

  unfoldable pub sample : Sketch → Sampled (Sketch × SketchSample)
  sample s =
      if leb s.num_samples s.sample_idx
      then out_of_samples s.seed s.num_samples s.sample_idx
      else returned (record s { sample_idx = suc s.sample_idx }, query s s.sample_idx)

  -- The two loops of `exhaustive_sample`: every good bucket adds its index.
  pub collect_column : Sketch → ℕ → List ℕ → ℕ → List ℕ
  collect_column s column ret j =
      let b = bucket_at s (column * s.bkt_per_col + j) in
      if is_good hashes b (checksum_seed s.shape) then insert_idx b.alpha ret else ret

  pub collect_columns : Sketch → ℕ → List ℕ → ℕ → List ℕ
  collect_columns s first_column ret i =
      foldl (collect_column s (i + first_column)) ret (range_from 0 s.bkt_per_col)

  pub query_all : Sketch → ℕ → ExhaustiveSketchSample
  query_all s idx =
      let last = bucket_at s (s.num_buckets - 1) in
      if is_empty last
      then record { idxs = []; result = SampleResult.zero }
      else if is_good hashes last (checksum_seed s.shape)
      then record { idxs = last.alpha ∷ []; result = SampleResult.good }
      else collected
          (foldl (collect_columns s (idx * s.cols_per_sample)) [] (range_from 0 s.cols_per_sample))

  pub exhaustive_sample : Sketch → Sampled (Sketch × ExhaustiveSketchSample)
  exhaustive_sample s =
      if leb s.num_samples s.sample_idx
      then out_of_samples s.seed s.num_samples s.sample_idx
      else returned (record s { sample_idx = suc s.sample_idx }, query_all s s.sample_idx)
