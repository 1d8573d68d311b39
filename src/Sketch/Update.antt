-- ===== src/Sketch/Update.antt =====
-- `Sketch::update` of src/sketch.cpp, in both builds: CubeSketch (with L0_SAMPLING) touches every
-- bucket of a column down to the depth of the index, CameoSketch that of the depth alone.
pub mod Cells
pub mod Columns
pub mod Contents
pub mod Linear
pub mod Streams
use graph_streaming_cc.Prelude.{
  ℕ, suc, ◌+◌, ◌-◌, ◌*◌, ltb, if◌then◌else◌, List, foldl, modify, range_from,
}
use graph_streaming_cc.Bucket.{Hashes, Bucket, get_index_depth, get_index_hash}
use graph_streaming_cc.Bucket
use graph_streaming_cc.Sketch.{Shape, Sketch, column_seed, checksum_seed}

-- The build: `cube` is the one with L0_SAMPLING.
pub data Algorithm : Type 0 where
  cube cameo : Algorithm

module _ (hashes : Hashes) where
  -- `Bucket_Boruvka::update(buckets[bucket_id], update_idx, checksum)`
  pub touch : ℕ → ℕ → List Bucket → ℕ → List Bucket
  touch update_idx checksum bs bucket_id =
      modify bs bucket_id (λ b. Bucket.update b update_idx checksum)

  pub column_depth : Shape → ℕ → ℕ → ℕ
  column_depth s update_idx i = get_index_depth hashes update_idx (column_seed s i) s.bkt_per_col

  -- The body of the loop over the columns.
  pub update_column : Algorithm → Shape → ℕ → ℕ → List Bucket → ℕ → List Bucket
  unfolding touch column_depth
  update_column cube s update_idx checksum bs i =
      let depth = column_depth s update_idx i in
      if ltb depth s.bkt_per_col
      then foldl (λ bs' j. touch update_idx checksum bs' (i * s.bkt_per_col + j)) bs
          (range_from 0 (suc depth))
      else bs
  update_column cameo s update_idx checksum bs i =
      let depth = column_depth s update_idx i in
      let bucket_id = i * s.bkt_per_col + depth in
      if ltb depth s.bkt_per_col then touch update_idx checksum bs bucket_id else bs

  pub update : Algorithm → Sketch → ℕ → Sketch
  unfolding update_column touch
  update alg s update_idx =
      let checksum = get_index_hash hashes update_idx (checksum_seed s.shape) in
      let first = touch update_idx checksum s.buckets (s.num_buckets - 1) in
      record s {
        buckets =
            foldl (update_column alg s.shape update_idx checksum) first
              (range_from 0 s.num_columns);
      }

  -- A stream of updates, one after the other.
  unfoldable pub update_all : Algorithm → Sketch → List ℕ → Sketch
  unfolding update
  update_all alg = foldl (update alg)
