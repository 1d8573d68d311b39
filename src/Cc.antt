-- ===== src/Cc.antt =====
-- include/cc_sketch_alg.h and src/cc_sketch_alg.cpp: the state of the connected components
-- algorithm and the calls that ingest updates. The locks of the sketches and of the forest are
-- held for the whole of what they guard, so such a piece is one step of the model.
pub mod Binary
pub mod Tests
pub mod Stored
pub mod Eager
pub mod Ingest
pub mod Direct
pub mod PreInsert
pub mod Query
pub mod Partition
pub mod Round
pub mod Instructions
pub mod Boruvka
use graph_streaming_cc.Prelude.{
  ℕ, suc, ◌+◌, ◌*◌, Bool, true, false, ltb, ◌==◌, if◌then◌else◌, Option, none, some, List, [], ◌∷◌,
  ◌&&◌, length, map, foldl, get_or, modify, replicate, range_from,
}
use mathlib.Core.Option
use graph_streaming_cc.Util.{Edge, low_of, high_of, concat_pairing_fn}
use graph_streaming_cc.Bucket.{Hashes, Bucket}
use graph_streaming_cc.Sketch.{Sketch, new_sketch, calc_vector_length, zero_contents}
use graph_streaming_cc.Sketch
use graph_streaming_cc.Sketch.Update.{Algorithm, update_all}
use graph_streaming_cc.Sketch.Update
use graph_streaming_cc.Dsu.{Dsu, DsuMergeRet, new_dsu, merge_mt}

-- `QueryCode`
pub data QueryCode : Type 0 where
  connectivity kspanningforests : QueryCode

pub record CcSketchAlg : Type 0 where
  pub num_vertices : ℕ
  pub seed : ℕ
  pub update_locked : Bool
  pub representatives : List ℕ
  pub sketches : List Sketch
  pub dsu : Dsu
  pub dsu_valid : Bool
  pub shared_dsu_valid : Bool
  pub spanning_forest : List (List ℕ)
  pub delta_sketches : List Sketch
  pub num_samples : ℕ
  pub last_query_rounds : ℕ

-- What an update call gives: the new state, or `UpdateLockedException`; or an access out of bounds,
-- of a delta sketch that was not allocated or of a vertex that is not in the graph.
pub data Updated : Type 0 where
  done : CcSketchAlg → Updated
  update_locked_exception : Updated
  out_of_bounds : Updated

pub and_then : Updated → (CcSketchAlg → Updated) → Updated
and_then (done c) f = f c
and_then update_locked_exception f = update_locked_exception
and_then out_of_bounds f = out_of_bounds

-- The arguments of one call of `apply_update_batch`.
pub record Batch : Type 0 where
  pub thr_id : ℕ
  pub src_vertex : ℕ
  pub dst_vertices : List ℕ

-- `spanning_forest[src].find(dst) != end()`, and `insert(dst)`.
unfoldable pub contains : List ℕ → ℕ → Bool
contains [] x = false
contains (y ∷ ys) x = if y == x then true else contains ys x

unfoldable pub insert : List ℕ → ℕ → List ℕ
unfolding contains
insert xs x = if contains xs x then xs else x ∷ xs

abbrev pub forest_at : CcSketchAlg → ℕ → List ℕ
forest_at cc src = get_or cc.spanning_forest src []

-- The columns of each sample: `default_cols_per_sample` of the build.
pub default_cols_per_sample : Algorithm → ℕ
default_cols_per_sample Algorithm.cube = 7
default_cols_per_sample Algorithm.cameo = 1

-- A sketch of this graph. `samples` is what `calc_cc_samples` computes, in floating point.
pub vertex_sketch : Algorithm → (num_vertices seed samples : ℕ) → Sketch
unfolding default_cols_per_sample
vertex_sketch alg num_vertices seed samples =
    new_sketch (calc_vector_length num_vertices) seed samples (default_cols_per_sample alg)

-- The constructor, with the priorities that its `dsu` draws.
unfoldable pub new_cc : Algorithm → (num_vertices seed samples : ℕ) → List ℕ → CcSketchAlg
unfolding vertex_sketch
new_cc alg num_vertices seed samples prio = record {
  num_vertices = num_vertices;
  seed = seed;
  update_locked = false;
  representatives = range_from 0 num_vertices;
  sketches = replicate num_vertices (vertex_sketch alg num_vertices seed samples);
  dsu = new_dsu prio num_vertices;
  dsu_valid = true;
  shared_dsu_valid = true;
  spanning_forest = replicate num_vertices [];
  delta_sketches = [];
  num_samples = samples;
  last_query_rounds = 0;
}

unfoldable pub allocate_worker_memory : Algorithm → CcSketchAlg → ℕ → CcSketchAlg
unfolding vertex_sketch
allocate_worker_memory alg cc num_workers = record cc {
  delta_sketches = replicate num_workers (vertex_sketch alg cc.num_vertices cc.seed cc.num_samples);
}

unfoldable pub has_cached_query : CcSketchAlg → QueryCode → Bool
has_cached_query cc connectivity = cc.shared_dsu_valid
has_cached_query cc kspanningforests = false

-- After the merge of `pre_insert`: a new connection goes into the forest; the deletion of an edge
-- of the forest makes the cached answer invalid.
unfoldable pub record_edge : CcSketchAlg → ℕ → ℕ → Dsu × DsuMergeRet → CcSketchAlg
unfolding contains insert
record_edge cc src dst (d, ret) =
    if ret.merged
    then record cc { dsu = d; spanning_forest = modify cc.spanning_forest src (λ s. insert s dst) }
    else if contains (forest_at cc src) dst
    then record cc { dsu = d; dsu_valid = false; shared_dsu_valid = false }
    else record cc { dsu = d }

-- `pre_insert`. The list says which attempts of the `merge` fail without a cause.
unfoldable pub pre_insert : List Bool → CcSketchAlg → Edge → Option CcSketchAlg
unfolding record_edge
pre_insert failures cc edge =
    let src = low_of edge.src edge.dst in
    let dst = high_of edge.src edge.dst in
    if cc.dsu_valid
    then Option.map (record_edge cc src dst) (merge_mt failures cc.dsu src dst)
    else some cc

-- `pre_insert` of a build with NO_EAGER_DSU.
pub pre_insert_no_eager : CcSketchAlg → Edge → CcSketchAlg
pre_insert_no_eager cc edge =
    if cc.dsu_valid then record cc { dsu_valid = false; shared_dsu_valid = false } else cc

module _ (hashes : Hashes) (alg : Algorithm) where
  abbrev pub empty_sketch : CcSketchAlg → Sketch
  empty_sketch cc = vertex_sketch alg cc.num_vertices cc.seed cc.num_samples

  -- `apply_update_batch`: the batch goes through the delta sketch of the thread.
  pub apply_update_batch : CcSketchAlg → (thr_id src_vertex : ℕ) → List ℕ → Updated
  apply_update_batch cc thr_id src_vertex dst_vertices =
      let zeroed = zero_contents (get_or cc.delta_sketches thr_id (empty_sketch cc)) in
      let delta =
        foldl (λ d dst. Update.update hashes alg d (concat_pairing_fn src_vertex dst)) zeroed
          dst_vertices in
      if cc.update_locked
      then update_locked_exception
      else if ltb thr_id (length cc.delta_sketches) && ltb src_vertex (length cc.sketches)
      then done (record cc {
        delta_sketches = modify cc.delta_sketches thr_id (λ _. delta);
        sketches = modify cc.sketches src_vertex (λ s. Sketch.merge s delta);
      })
      else out_of_bounds

  -- Batches in the order in which their threads hold the locks, until one throws.
  pub apply_batches : CcSketchAlg → List Batch → Updated
  unfolding apply_update_batch
  apply_batches cc [] = done cc
  apply_batches cc (b ∷ bs) =
      and_then (apply_update_batch cc b.thr_id b.src_vertex b.dst_vertices)
        (λ c. apply_batches c bs)

  -- `apply_raw_buckets_update`
  pub apply_raw_buckets_update : CcSketchAlg → ℕ → List Bucket → CcSketchAlg
  apply_raw_buckets_update cc src_vertex raw_buckets = record cc {
    sketches = modify cc.sketches src_vertex (λ s. Sketch.merge_raw_bucket_buffer s raw_buckets);
  }

  -- Both calls of `Sketch::update` of one edge.
  pub update_ends : Edge → CcSketchAlg → CcSketchAlg
  update_ends edge alg_state =
      let idx = concat_pairing_fn edge.src edge.dst in
      let apply = λ (v : ℕ) (sketches : List Sketch).
        modify sketches v (λ s. Update.update hashes alg s idx) in
      record alg_state { sketches = apply edge.dst (apply edge.src alg_state.sketches) }

  -- `update`: straight into the sketches of both ends.
  pub update : List Bool → CcSketchAlg → Edge → Option CcSketchAlg
  unfolding pre_insert
  update failures state edge = Option.map (update_ends edge) (pre_insert failures state edge)
