-- ===== src/Driver/Whole.antt =====
-- A whole use of include/graph_sketch_driver.h: a stream up to its breakpoint, and the preparation of
-- a query.
use graph_streaming_cc.Prelude.{
  ℕ, ◌^◌, ◌≤◌, ◌≡◌, refl, sym, subst, ap, ◌∙◌, Bool, true, false, length-replicate,
  get_or-replicate, some, List, [], length,
}
use mathlib.Core.Option
use graph_streaming_cc.Util.{Edge}
use graph_streaming_cc.Bucket.{Hashes}
use graph_streaming_cc.Sketch.Update.{Algorithm, update_all}
use graph_streaming_cc.Graph.{present}
use graph_streaming_cc.Cc.{CcSketchAlg, QueryCode, vertex_sketch, new_cc, allocate_worker_memory}
use graph_streaming_cc.Cc.Eager.{Eager}
use graph_streaming_cc.Cc.Eager.Calls.{new_cc-Eager}
use graph_streaming_cc.Cc.Ingest.{Fits, sketch_at, allocate_worker_memory-Fits}
use graph_streaming_cc.Driver.{
  GraphUpdate, Gutters, DriverState, Event, start_threads, streamed, process_stream_until,
  PrepQuery, Run, begins,
}
use graph_streaming_cc.Driver.Incident.{incident, Edges}
use graph_streaming_cc.Driver.Prepare.{sketches_of_graph, PrepQuery-Run, Run-Edges}
use graph_streaming_cc.Driver.Shuffles.{or_else}
use graph_streaming_cc.Driver.Stream.{process_stream_until_lem}
use graph_streaming_cc.Driver.Threads.{AllReads, both_leave, Streaming}

streamed_inj : (gutters : Gutters) (a b : DriverState gutters) → streamed a ≡ streamed b → a ≡ b
streamed_inj gutters a b e = cc

leaves_nothing : (es : List Edge) (s d : ℕ) → both_leave es [] s d ≡ present es s d
unfolding present
leaves_nothing es s d = by_value (present es s d)
  where
    by_value : (b : Bool) → or_else b false ≡ b
    by_value true = refl
    by_value false = refl

module _ (gutters : Gutters) (hashes : Hashes) (alg : Algorithm) (n seed samples num_workers : ℕ)
    (prio : List ℕ) where
  -- The algorithm as the driver's constructor leaves it.
  abbrev pub ready : CcSketchAlg
  ready = allocate_worker_memory alg (new_cc alg n seed samples prio) num_workers

  ready-Eager : Eager [] ready
  unfolding allocate_worker_memory
  ready-Eager =
      let e = new_cc-Eager alg n seed samples prio in
      record {
        agree = e.agree;
        tracks = λ valid.
            let t = e.tracks valid in
            record {
              items = t.items;
              sized = t.sized;
              forest = t.forest;
              stored = t.stored;
              covers = t.covers;
              spans = t.spans;
            };
      }

  abbrev pub at_start : gutters.G → DriverState gutters
  at_start g = record {
    sketching_alg = ready;
    gts = g;
    num_workers = num_workers;
    total_updates = 0;
  }

  pub ready_unlocked : ready.update_locked ≡ false
  unfolding allocate_worker_memory new_cc
  ready_unlocked = refl

  pub ready_sized : length ready.sketches ≡ ready.num_vertices
  unfolding allocate_worker_memory new_cc
  ready_sized = length-replicate n (vertex_sketch alg n seed samples)

  ready_threads : length ready.delta_sketches ≡ num_workers
  unfolding allocate_worker_memory
  ready_threads = length-replicate num_workers _

  pub ready_Fits : Fits hashes alg ready
  ready_Fits = allocate_worker_memory-Fits hashes alg n seed samples prio num_workers

  pub start-Streaming :
      (g : gutters.G)
      → ((v : ℕ) → gutters.held g v ≡ [])
      → Streaming gutters hashes alg ready ready_Fits ready_unlocked ready_sized [] (at_start g)
  start-Streaming g empty = record {
    run = begins g num_workers 0 empty ready_threads;
    eager = ready-Eager;
    vertices = refl;
  }

  ready_vertices : ready.num_vertices ≡ n
  unfolding allocate_worker_memory new_cc
  ready_vertices = refl

  ready_sketches : (v : ℕ) → sketch_at hashes alg ready v ≡ vertex_sketch alg n seed samples
  unfolding allocate_worker_memory new_cc
  ready_sketches v = get_or-replicate n v (vertex_sketch alg n seed samples)

  -- From a new algorithm of at most 2 ^ 32 vertices, with memory for each worker and empty gutters:
  -- let every stream thread's buffers have a breakpoint, and every update before it be an edge
  -- between two different vertices of the graph. If `process_stream_until` has set the
  -- breakpoint and returned, after any order of the updates of the stream threads and of the
  -- batches of the workers, then `prep_query` has returned after any batches of the workers, and
  -- no gutter holds an update any more, then every vertex has the sketch that one update for
  -- each of its edges in `graph` gives to an empty one. `graph` is any list of edges between
  -- different 32-bit vertices that leaves the edges that the updates of all threads leave.
  pub streamed_sketches :
      (g : gutters.G) (events : List Event) (threads : List (List (List GraphUpdate)))
      (ls graph : List Edge) (query_code : QueryCode) (d d' : DriverState gutters)
      → n ≤ 2 ^ 32
      → ((v : ℕ) → gutters.held g v ≡ [])
      → AllReads n (start_threads threads) ls
      → Edges graph
      → ((src dst : ℕ) → present ls src dst ≡ present graph src dst)
      → process_stream_until gutters hashes alg true events (at_start g) threads ≡ some (streamed d)
      → PrepQuery gutters hashes alg query_code d d'
      → ((v : ℕ) → gutters.held d'.gts v ≡ [])
      → (v : ℕ)
      → sketch_at hashes alg d'.sketching_alg v
        ≡ update_all hashes alg (vertex_sketch alg n seed samples) (incident v graph)
  streamed_sketches g events threads ls graph query_code d d' small empty reads within same returned
        prepared none_held v =
      let (d1, returns, all, s, left) =
        process_stream_until_lem gutters hashes alg ready ready_Fits ready_unlocked ready_sized
          events threads ls [] (at_start g) (rw ready_vertices reads) (start-Streaming g empty) in
      let run : Run gutters hashes alg ready all d' =
        PrepQuery-Run gutters hashes alg ready ready_Fits ready_unlocked ready_sized query_code all
          d d'
          (subst (Run gutters hashes alg ready all)
            (streamed_inj gutters d1 d (Option.some_inj.0 (sym returns ∙ returned))) s.run)
          prepared in
      sketches_of_graph gutters hashes alg ready ready_Fits ready_unlocked ready_sized all graph d'
        v run (none_held v)
        (Run-Edges gutters hashes alg ready ready_Fits ready_unlocked ready_sized all d'
          (rw ready_vertices small) run)
        within (λ src dst. left src dst ∙ leaves_nothing ls src dst ∙ same src dst)
      ∙ ap (λ t. update_all hashes alg t (incident v graph)) (ready_sketches v)
