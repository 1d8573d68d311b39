-- ===== src/Cc/Tests.antt =====
-- Runs of src/cc_sketch_alg.cpp on a graph of three vertices.
use graph_streaming_cc.Prelude.{
  ℕ, ◌<◌, ◌≡◌, ◌≢◌, ap, ◌∙◌, ◌↔◌, ◌==◌, ◌||◌, if◌then◌else◌, refl, Bool, true, false, some, List,
  [], ◌∷◌, length, arith, subst, sym,
}
use graph_streaming_cc.Util.{Edge, low_of, high_of, concat_pairing_fn, inv_concat_pairing_fn}
use graph_streaming_cc.Graph.{EdgeSet, present, toggle, Linked}
use graph_streaming_cc.Bucket.{Bucket, empty_bucket, is_good, get_index_hash}
use graph_streaming_cc.Bucket.Tests.{test_hashes}
use graph_streaming_cc.Sketch.{
  Shape, Sketch, SampleResult, SketchSample, checksum_seed, calc_vector_length,
}
use graph_streaming_cc.Sketch.Sample.{query}
use graph_streaming_cc.Sketch.Fresh.{new_sketch-IsFresh}
use graph_streaming_cc.Sketch.Update.{Algorithm, update_all}
use graph_streaming_cc.Sketch.Update.Linear.{SameVector, parity, IsFresh}
use graph_streaming_cc.Dsu.{merge_mt, find_root, find_loop, order_edge, new_dsu}
use graph_streaming_cc.Dsu.Sets.{SameSet}
use graph_streaming_cc.Cc.{
  empty_sketch, vertex_sketch, default_cols_per_sample, apply_update_batch, out_of_bounds,
  update_ends, apply_raw_buckets_update, CcSketchAlg, QueryCode, Batch, new_cc,
  allocate_worker_memory, pre_insert, record_edge, insert, contains, has_cached_query,
}
use graph_streaming_cc.Cc.Stored.{in_forest}
use graph_streaming_cc.Cc.Eager.{PreInserted, none_yet, pre_inserted}
use graph_streaming_cc.Cc.Eager.Calls.{pre_insert_returns, cached_components, cached_forest}
use graph_streaming_cc.Cc.Direct.{apply_raw_buckets_update_lem, update_ends_lem}
use graph_streaming_cc.Cc.Query.{start_boruvka, run_round_zero}
use graph_streaming_cc.Cc.Query.Rounds.{
  EdgeOf, Each, each, no_more, Honest, Honest-Trusts, RoundGives, run_round_zero_lem,
}
use graph_streaming_cc.Components.{ConnectedComponents, is_connected}
use graph_streaming_cc.Components.Roots.{Mem, Below, no_item, below}
use graph_streaming_cc.Cc.Boruvka.{Choices, returned, connected_components, point_query}
use graph_streaming_cc.Cc.Boruvka.Cached.{cached_connected_components, cached_point_query}
use graph_streaming_cc.Cc.Ingest.{
  Fits, sketch_at, apply_batches_lem, apply_batches-SameVector, indices_for, InGraph, no_batch,
  batch, Ran, allocate_worker_memory-Fits,
}

abbrev priorities : List ℕ
priorities = 7 ∷ 9 ∷ 8 ∷ []

abbrev start : CcSketchAlg
start = new_cc Algorithm.cube 3 5 2 priorities

abbrev first_edge : Edge
first_edge = record { src = 1; dst = 0 }

-- After the insertion of the edge, which goes into the forest at its low end.
abbrev connected : CcSketchAlg
connected = record start {
  dsu = record { n = 3; parent = 1 ∷ 1 ∷ 2 ∷ []; priority = priorities };
  spanning_forest = (1 ∷ []) ∷ [] ∷ [] ∷ [];
}

vertices_of_start : start.num_vertices ≡ 3
unfolding new_cc
vertices_of_start = refl

first_call : pre_insert (true ∷ []) start first_edge ≡ some connected
unfolding pre_insert new_cc new_dsu record_edge insert contains merge_mt find_root find_loop
    order_edge low_of high_of
first_call = refl

one_edge_run : PreInserted start (first_edge ∷ []) connected
one_edge_run =
    pre_inserted [] start connected (true ∷ []) first_edge none_yet
      (omega (arith, vertices_of_start)) (omega (arith, vertices_of_start)) first_call

connected_cached : has_cached_query connected QueryCode.connectivity ≡ true
unfolding has_cached_query new_cc
connected_cached = refl

cached_components_example : SameSet connected.dsu 0 1 ↔ Linked (present (first_edge ∷ [])) 0 1
cached_components_example =
    cached_components Algorithm.cube 3 5 2 priorities (first_edge ∷ []) connected one_edge_run
      connected_cached 0 1 (omega arith) (omega arith)

cached_forest_example : Linked (in_forest connected) 0 2 ↔ Linked (present (first_edge ∷ [])) 0 2
cached_forest_example =
    cached_forest Algorithm.cube 3 5 2 priorities (first_edge ∷ []) connected one_edge_run
      connected_cached 0 2 (omega arith) (omega arith)

stored_edge : in_forest connected 0 1 ≡ true
unfolding contains
stored_edge = refl

pre_insert_returns_example :
    (c' : CcSketchAlg) × (pre_insert [] connected (record { src = 1; dst = 2 }) ≡ some c')
    × PreInserted start (record { src = 1; dst = 2 } ∷ first_edge ∷ []) c'
pre_insert_returns_example =
    pre_insert_returns Algorithm.cube 3 5 2 priorities (first_edge ∷ []) connected one_edge_run []
      (record { src = 1; dst = 2 }) (omega arith) (omega arith)

-- With memory for one worker.
abbrev ready : CcSketchAlg
ready = allocate_worker_memory Algorithm.cube start 1

ready_Fits : Fits test_hashes Algorithm.cube ready
ready_Fits = allocate_worker_memory-Fits test_hashes Algorithm.cube 3 5 2 priorities 1

ready_vertices : length ready.sketches ≡ 3
unfolding allocate_worker_memory new_cc
ready_vertices = refl

ready_threads : length ready.delta_sketches ≡ 1
unfolding allocate_worker_memory new_cc
ready_threads = refl

ready_unlocked : ready.update_locked ≡ false
unfolding allocate_worker_memory new_cc
ready_unlocked = refl

abbrev batch_of : ℕ → List ℕ → Batch
batch_of src dsts = record { thr_id = 0; src_vertex = src; dst_vertices = dsts }

abbrev batches : List Batch
batches = batch_of 1 (0 ∷ 2 ∷ []) ∷ batch_of 0 (1 ∷ []) ∷ batch_of 1 (2 ∷ []) ∷ []

batches_inside : InGraph (length ready.sketches) (length ready.delta_sketches) batches
batches_inside =
    batch (batch_of 1 (0 ∷ 2 ∷ [])) (batch_of 0 (1 ∷ []) ∷ batch_of 1 (2 ∷ []) ∷ [])
      (omega (arith, ready_vertices)) (omega (arith, ready_threads))
      (batch (batch_of 0 (1 ∷ [])) (batch_of 1 (2 ∷ []) ∷ []) (omega (arith, ready_vertices))
        (omega (arith, ready_threads))
        (batch (batch_of 1 (2 ∷ [])) [] (omega (arith, ready_vertices))
          (omega (arith, ready_threads)) no_batch))

apply_batches_lem_example : Ran test_hashes Algorithm.cube ready batches
apply_batches_lem_example =
    apply_batches_lem test_hashes Algorithm.cube ready batches ready_Fits ready_unlocked
      batches_inside

abbrev shorter : List Batch
shorter = batch_of 1 (0 ∷ []) ∷ []

shorter_inside : InGraph (length ready.sketches) (length ready.delta_sketches) shorter
shorter_inside =
    batch (batch_of 1 (0 ∷ [])) [] (omega (arith, ready_vertices)) (omega (arith, ready_threads))
      no_batch

-- Without memory for the workers a batch has no delta sketch to go through.
unallocated : apply_update_batch test_hashes Algorithm.cube start 0 1 (0 ∷ []) ≡ out_of_bounds
unfolding apply_update_batch new_cc
unallocated = refl

same_for_1 : SameVector (indices_for 1 batches) (indices_for 1 shorter)
unfolding indices_for parity
same_for_1 x = ground arith

apply_batches-SameVector_example :
    sketch_at test_hashes Algorithm.cube
      (apply_batches_lem test_hashes Algorithm.cube ready batches ready_Fits ready_unlocked
        batches_inside).after_all
      1
    ≡ sketch_at test_hashes Algorithm.cube
        (apply_batches_lem test_hashes Algorithm.cube ready shorter ready_Fits ready_unlocked
          shorter_inside).after_all
        1
apply_batches-SameVector_example =
    apply_batches-SameVector test_hashes Algorithm.cube ready batches shorter 1
      (apply_batches_lem test_hashes Algorithm.cube ready batches ready_Fits ready_unlocked
        batches_inside).after_all
      (apply_batches_lem test_hashes Algorithm.cube ready shorter ready_Fits ready_unlocked
        shorter_inside).after_all
      ready_Fits ready_unlocked batches_inside shorter_inside same_for_1
      (apply_batches_lem test_hashes Algorithm.cube ready batches ready_Fits ready_unlocked
        batches_inside).returns
      (apply_batches_lem test_hashes Algorithm.cube ready shorter ready_Fits ready_unlocked
        shorter_inside).returns

-- Two sketches of the edge between 0 and 1, and one of no edge.
abbrev small : Shape
small = record {
  seed = 5;
  num_samples = 1;
  cols_per_sample = 1;
  num_columns = 1;
  bkt_per_col = 1;
  num_buckets = 2;
}

abbrev filled : Bucket
filled = record { alpha = 1; gamma = test_hashes.vec_hash 1 (checksum_seed small) }

abbrev edge_sketch : Sketch
edge_sketch = record { shape = small; sample_idx = 0; buckets = filled ∷ filled ∷ [] }

abbrev no_edge_sketch : Sketch
no_edge_sketch = record {
  shape = small;
  sample_idx = 0;
  buckets = empty_bucket ∷ empty_bucket ∷ [];
}

abbrev sketched : CcSketchAlg
sketched = record start { sketches = edge_sketch ∷ edge_sketch ∷ no_edge_sketch ∷ [] }

edge_query :
    (k : ℕ) → query test_hashes edge_sketch k ≡ record { idx = 1; result = SampleResult.good }
unfolding query is_good get_index_hash checksum_seed
edge_query k = refl

no_edge_query :
    (k : ℕ) → query test_hashes no_edge_sketch k ≡ record { idx = 0; result = SampleResult.zero }
unfolding query
no_edge_query k = refl

abbrev graph : EdgeSet
graph = present (first_edge ∷ [])

edge_there : EdgeOf graph 3 (inv_concat_pairing_fn 1)
unfolding inv_concat_pairing_fn present toggle low_of high_of
edge_there = record { src_vertex = omega arith; dst_vertex = omega arith; there = refl }

edge_Honest : Honest test_hashes Algorithm.cube graph 3 edge_sketch
edge_Honest k good =
    subst (λ q. EdgeOf graph 3 (inv_concat_pairing_fn q.idx)) (sym (edge_query k)) edge_there

no_edge_Honest : Honest test_hashes Algorithm.cube graph 3 no_edge_sketch
no_edge_Honest k good =
    absurd (zero≢good (sym (ap (λ (q : SketchSample). q.result) (no_edge_query k)) ∙ good))
  where
    zero≢good : SampleResult.zero ≢ SampleResult.good
    zero≢good h = cc

all_Honest : Each (Honest test_hashes Algorithm.cube graph 3) sketched.sketches
all_Honest = each edge_sketch (edge_sketch ∷ no_edge_sketch ∷ []) edge_Honest (
    each edge_sketch (no_edge_sketch ∷ []) edge_Honest
      (each no_edge_sketch [] no_edge_Honest no_more))

abbrev schedule : List (ℕ × List Bool)
schedule = (1, []) ∷ (0, true ∷ []) ∷ (2, []) ∷ []

schedule_inside : Each (λ (p : ℕ × List Bool). p.0 < sketched.num_vertices) schedule
schedule_inside =
    each (1, []) ((0, true ∷ []) ∷ (2, []) ∷ []) (omega (arith, vertices_of_start))
      (each (0, true ∷ []) ((2, []) ∷ []) (omega (arith, vertices_of_start))
        (each (2, []) [] (omega (arith, vertices_of_start)) no_more))

items_of_start : start.dsu.n ≡ start.num_vertices
unfolding new_cc new_dsu
items_of_start = refl

run_round_zero_lem_example :
    RoundGives test_hashes Algorithm.cube graph
      (Honest test_hashes Algorithm.cube graph)
      (Honest-Trusts test_hashes Algorithm.cube graph)
      (start_boruvka sketched)
      (run_round_zero test_hashes Algorithm.cube (start_boruvka sketched) schedule)
run_round_zero_lem_example =
    run_round_zero_lem test_hashes Algorithm.cube graph (Honest test_hashes Algorithm.cube graph)
      (Honest-Trusts test_hashes Algorithm.cube graph) sketched schedule items_of_start
      (sym vertices_of_start)
      (subst (λ n. Each (Honest test_hashes Algorithm.cube graph n) sketched.sketches)
        (sym vertices_of_start) all_Honest)
      schedule_inside

first_index : Sketch
first_index = empty_sketch test_hashes Algorithm.cube ready

first_index-IsFresh : IsFresh first_index
unfolding first_index vertex_sketch default_cols_per_sample
first_index-IsFresh =
    new_sketch-IsFresh (calc_vector_length ready.num_vertices) ready.seed ready.num_samples 7

apply_raw_buckets_update_lem_example :
    sketch_at test_hashes Algorithm.cube
      (apply_raw_buckets_update test_hashes Algorithm.cube ready 1
        (update_all test_hashes Algorithm.cube first_index (1 ∷ [])).buckets)
      1
    ≡ (if 1 == 1
        then update_all test_hashes Algorithm.cube
            (sketch_at test_hashes Algorithm.cube ready 1)
            (1 ∷ [])
        else sketch_at test_hashes Algorithm.cube ready 1)
unfolding first_index
apply_raw_buckets_update_lem_example =
    apply_raw_buckets_update_lem test_hashes Algorithm.cube ready 1 first_index (1 ∷ []) ready_Fits
      (omega (arith, ready_vertices)) first_index-IsFresh refl 1

update_ends_lem_example :
    sketch_at test_hashes Algorithm.cube (update_ends test_hashes Algorithm.cube first_edge ready) 0
    ≡ (if 0 == 0 || 1 == 0
        then update_all test_hashes Algorithm.cube
            (sketch_at test_hashes Algorithm.cube ready 0)
            (concat_pairing_fn 1 0 ∷ [])
        else sketch_at test_hashes Algorithm.cube ready 0)
update_ends_lem_example =
    update_ends_lem test_hashes Algorithm.cube ready first_edge (omega (arith, ready_vertices))
      (omega (arith, ready_vertices)) (omega arith) 0

-- The cached answer of the graph with one edge, in a query that has no round.
abbrev no_rounds : Choices
no_rounds = record { threads = 1; schedule = λ k. []; claims = λ k. []; iterate = λ ccs. ccs }

abbrev all_three : List ℕ
all_three = 2 ∷ 0 ∷ 1 ∷ []

all_three-Below : Below 3 all_three
all_three-Below =
    below 2 (0 ∷ 1 ∷ []) (omega arith)
      (below 0 (1 ∷ []) (omega arith) (below 1 [] (omega arith) no_item))

cached_connected_components_example :
    (c' : CcSketchAlg) × (answer : ConnectedComponents) × (connected_components test_hashes
        Algorithm.cube no_rounds all_three connected
      ≡ returned c' answer)
    × ((x y : ℕ)
        → Mem x all_three
        → Mem y all_three
        → (is_connected answer x y ≡ true) ↔ Linked (present (first_edge ∷ [])) x y)
cached_connected_components_example =
    cached_connected_components test_hashes Algorithm.cube no_rounds 3 5 2 priorities
      (first_edge ∷ []) connected one_edge_run connected_cached all_three all_three-Below

cached_point_query_example :
    (c' : CcSketchAlg) × (same : Bool) × (point_query test_hashes Algorithm.cube no_rounds 0 2
        connected
      ≡ returned c' same)
    × ((same ≡ true) ↔ Linked (present (first_edge ∷ [])) 0 2)
cached_point_query_example =
    cached_point_query test_hashes Algorithm.cube no_rounds 3 5 2 priorities (first_edge ∷ [])
      connected one_edge_run connected_cached 0 2 (omega arith) (omega arith)
