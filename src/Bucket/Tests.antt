-- ===== src/Bucket/Tests.antt =====
-- A run of the depth of an index (include/bucket.h).
use graph_streaming_cc.Prelude.{◌+◌, ◌*◌, arith}
use graph_streaming_cc.Bucket.{Hashes, get_index_depth}
use graph_streaming_cc.Bucket.Depth.{IsDepth, get_index_depth-IsDepth}

-- Functions in place of xxhash.
abbrev pub test_hashes : Hashes
test_hashes = record {
  vec_hash = λ x seed. x * 7 + seed + 1;
  col_hash = λ x seed. x * 5 + seed;
  hash_bytes = 4;
}

get_index_depth-IsDepth_example :
    IsDepth (test_hashes.col_hash 8 0) 5 (get_index_depth test_hashes 8 0 5)
get_index_depth-IsDepth_example = get_index_depth-IsDepth test_hashes 8 0 5 (omega arith)
