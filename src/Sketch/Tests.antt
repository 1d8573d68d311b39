-- ===== src/Sketch/Tests.antt =====
-- Runs of src/sketch.cpp on a sketch with two samples.
use graph_streaming_cc.Prelude.{ℕ, ◌<◌, ◌≡◌, inl, refl, List, [], ◌∷◌, ◌++◌, arith}
use graph_streaming_cc.Bucket.{is_good, get_index_hash}
use graph_streaming_cc.Bucket.Group.{◌⊕◌}
use graph_streaming_cc.Bucket.Tests.{test_hashes}
use graph_streaming_cc.Sketch.{
  checksum_seed, Shape, Sketch, SampleResult, SketchSample, returned, bucket_at, new_sketch,
  calc_bkt_per_col, ceil_log2_from, merge,
}
use graph_streaming_cc.Sketch.Fresh.{new_sketch-IsFresh}
use graph_streaming_cc.Sketch.Merge.Range.{round_merge, full_merge, sample-round_merge}
use graph_streaming_cc.Sketch.Sample.{
  sample, query, query_all, scan_columns, scan_column, scan_result,
}
use graph_streaming_cc.Sketch.Sample.Exhaustive.{Held, query_all-query}
use graph_streaming_cc.Sketch.Sample.Results.{sample-zero, sample-good}
use graph_streaming_cc.Sketch.Update.{Algorithm, update_all}
use graph_streaming_cc.Sketch.Update.Contents.{total, bucket_at-update_all}
use graph_streaming_cc.Sketch.Update.Linear.{SameVector, parity, IsFresh}
use graph_streaming_cc.Sketch.Update.Streams.{update_all-SameVector, merge-update_all, merge-append}

-- A vector of up to 28 indices, seed 3, two samples of two columns.
abbrev blank : Sketch
blank = new_sketch 28 3 2 2

blank-IsFresh : IsFresh blank
blank-IsFresh = new_sketch-IsFresh 28 3 2 2

blank_samples : blank.num_samples ≡ 2
unfolding new_sketch
blank_samples = refl

blank_idx : blank.sample_idx ≡ 0
unfolding new_sketch
blank_idx = refl

blank_buckets : 20 < blank.num_buckets
unfolding new_sketch calc_bkt_per_col ceil_log2_from
blank_buckets = omega arith

abbrev stream : List ℕ
stream = 5 ∷ 6 ∷ 5 ∷ []

stream_vector : SameVector stream (6 ∷ [])
unfolding parity
stream_vector x = ground arith

stream_even : SameVector (5 ∷ 5 ∷ []) []
unfolding parity
stream_even x = ground arith

update_all-SameVector_example :
    update_all test_hashes Algorithm.cube blank stream
    ≡ update_all test_hashes Algorithm.cube blank (6 ∷ [])
update_all-SameVector_example =
    update_all-SameVector test_hashes Algorithm.cube blank stream (6 ∷ []) blank-IsFresh.formed
      stream_vector

merge-update_all_example :
    merge blank (update_all test_hashes Algorithm.cameo blank stream)
    ≡ update_all test_hashes Algorithm.cameo blank stream
merge-update_all_example =
    merge-update_all test_hashes Algorithm.cameo blank blank stream blank-IsFresh.formed
      blank-IsFresh refl

merge-append_example :
    merge
      (update_all test_hashes Algorithm.cameo blank (4 ∷ []))
      (update_all test_hashes Algorithm.cameo blank stream)
    ≡ update_all test_hashes Algorithm.cameo blank ((4 ∷ []) ++ stream)
merge-append_example = merge-append test_hashes Algorithm.cameo blank (4 ∷ []) stream blank-IsFresh

bucket_at-update_all_example :
    bucket_at (update_all test_hashes Algorithm.cube blank stream) 20
    ≡ bucket_at blank 20 ⊕ total test_hashes Algorithm.cube blank.shape stream 20
bucket_at-update_all_example =
    bucket_at-update_all test_hashes Algorithm.cube blank stream 20 blank-IsFresh.formed
      blank_buckets

sample-good_example :
    sample test_hashes (update_all test_hashes Algorithm.cube blank stream)
    ≡ returned (
      record (update_all test_hashes Algorithm.cube blank stream) { sample_idx = 1 },
      record { idx = 6; result = SampleResult.good },
    )
sample-good_example =
    sample-good test_hashes Algorithm.cube blank stream 6 blank-IsFresh
      (omega (arith, blank_samples)) stream_vector (inl (omega arith))

sample-zero_example :
    sample test_hashes (update_all test_hashes Algorithm.cube blank (5 ∷ 5 ∷ []))
    ≡ returned (
      record (update_all test_hashes Algorithm.cube blank (5 ∷ 5 ∷ [])) { sample_idx = 1 },
      record { idx = 0; result = SampleResult.zero },
    )
sample-zero_example =
    sample-zero test_hashes Algorithm.cube blank (5 ∷ 5 ∷ []) blank-IsFresh
      (omega (arith, blank_samples)) stream_even

sample-round_merge_example :
    let part = round_merge 1 blank (blank ∷ []) in
    let whole = record (full_merge blank (blank ∷ [])) { sample_idx = 1 } in
    (r : SketchSample) × (sample test_hashes part ≡ returned (record part { sample_idx = 2 }, r))
    × (sample test_hashes whole ≡ returned (record whole { sample_idx = 2 }, r))
sample-round_merge_example =
    sample-round_merge test_hashes 1 blank blank [] blank-IsFresh.formed (omega (arith, blank_idx))
      (omega (arith, blank_samples))

-- A sketch whose deterministic bucket holds two indices, and one of whose columns holds one.
abbrev small : Shape
small = record {
  seed = 5;
  num_samples = 1;
  cols_per_sample = 2;
  num_columns = 2;
  bkt_per_col = 1;
  num_buckets = 3;
}

abbrev two_indices : Sketch
two_indices = record {
  shape = small;
  sample_idx = 0;
  buckets =
      record { alpha = 3; gamma = 1 }
      ∷ record { alpha = 6; gamma = test_hashes.vec_hash 6 (checksum_seed small) }
      ∷ record { alpha = 3; gamma = 1 }
      ∷ [];
}

second_column : query test_hashes two_indices 0 ≡ record { idx = 6; result = SampleResult.good }
unfolding query is_good get_index_hash scan_columns scan_column scan_result
second_column = refl

query_all-query_example :
    ((query_all test_hashes two_indices 0).result ≡ SampleResult.good)
    × Held 6 (query_all test_hashes two_indices 0).idxs
query_all-query_example = query_all-query test_hashes two_indices 0 6 second_column
