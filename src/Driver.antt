-- ===== src/Driver.antt =====
-- include/graph_sketch_driver.h: the stream threads of `process_stream_until`, `prep_query` and
-- `batch_callback`, with the stream and the guttering system, which are libraries, as parameters.
pub mod Incident
pub mod Prepare
pub mod Pending
pub mod Refines
pub mod Shuffles
pub mod Buffers
pub mod Threads
pub mod Stream
pub mod Tests
pub mod Whole
pub mod Construct
use graph_streaming_cc.Prelude.{
  ltb, map, ◌>>=◌, ℕ, zero, suc, ◌+◌, ◌%◌, ◌^◌, ◌<◌, ◌≡◌, Bool, true, false, ◌==◌, if◌then◌else◌,
  Option, none, some, List, [], ◌∷◌, ◌++◌, length,
}
use mathlib.Core.Option
use graph_streaming_cc.Util.{Edge}
use graph_streaming_cc.Bucket.{Hashes}
use graph_streaming_cc.Sketch.Update.{Algorithm}
use graph_streaming_cc.Cc.{
  CcSketchAlg, QueryCode, Updated, done, update_locked_exception, out_of_bounds, pre_insert,
  apply_update_batch, has_cached_query,
}

-- The types of stream updates, and an update as the stream threads read it.
pub data UpdateType : Type 0 where
  insert delete breakpoint : UpdateType

-- `upd.type == BREAKPOINT`
pub is_breakpoint : UpdateType → Bool
is_breakpoint UpdateType.breakpoint = true
is_breakpoint _ = false

pub record GraphUpdate : Type 0 where
  pub edge : Edge
  pub update_type : UpdateType

-- The same destinations in another order.
pub data Shuffle : List ℕ → List ℕ → Type 0 where
  nothing : Shuffle [] []
  kept : (x : ℕ) (xs ys : List ℕ) → Shuffle xs ys → Shuffle (x ∷ xs) (x ∷ ys)
  swapped : (x y : ℕ) (xs : List ℕ) → Shuffle (x ∷ y ∷ xs) (y ∷ x ∷ xs)
  both : (xs ys zs : List ℕ) → Shuffle xs ys → Shuffle ys zs → Shuffle xs zs

-- What a worker takes from the gutters.
pub record GutterBatch : Type 0 where
  pub src_vertex : ℕ
  pub dst_vertices : List ℕ

-- The guttering system. `held` are the destinations that it holds for a vertex: an insertion adds
-- one, a worker takes a batch of one vertex away, which is not empty, and a flush only moves them to
-- where the workers take them.
pub record Gutters : Type 1 where
  pub G : Type 0
  pub held : G → ℕ → List ℕ
  pub insert : G → (src dst thr_id : ℕ) → G
  pub take : G → Option (GutterBatch × G)
  pub force_flush : G → G
  pub insert_law :
      (g : G) (src dst thr v : ℕ)
      → Shuffle (held (insert g src dst thr) v) (if src == v then dst ∷ held g v else held g v)
  pub take_law :
      (g g' : G) (b : GutterBatch) (v : ℕ)
      → take g ≡ some (b, g')
      → Shuffle (held g v) (if b.src_vertex == v then b.dst_vertices ++ held g' v else held g' v)
  pub flush_law : (g : G) (v : ℕ) → Shuffle (held (force_flush g) v) (held g v)
  pub batch_law : (g g' : G) (b : GutterBatch) → take g ≡ some (b, g') → ¬ (b.dst_vertices ≡ [])

-- A stream thread: the buffer that it goes through, and those that `get_update_buffer` gives it then.
pub record StreamThread : Type 0 where
  pub buffer : List GraphUpdate
  pub coming : List (List GraphUpdate)
  pub finished : Bool

-- `threads.emplace_back(task, i)`
abbrev pub start_threads : List (List (List GraphUpdate)) → List StreamThread
start_threads = map (λ bs. record { buffer = []; coming = bs; finished = false })

-- What happens next while stream threads and workers run: an update of a stream thread, with the
-- attempts of its merge that fail without a cause, or a batch of a worker.
pub data Event : Type 0 where
  of_stream : ℕ → List Bool → Event
  of_worker : ℕ → Event

module _ (gutters : Gutters) where
  pub record DriverState : Type 0 where
    pub sketching_alg : CcSketchAlg
    pub gts : gutters.G
    pub num_workers : ℕ
    pub total_updates : ℕ

  -- The two insertions of an update.
  pub insert_ends : ℕ → Edge → DriverState → DriverState
  insert_ends thr_id edge d = record d {
    gts = gutters.insert (gutters.insert d.gts edge.src edge.dst thr_id) edge.dst edge.src thr_id;
  }

  -- An update that is no breakpoint.
  pub stream_update : List Bool → ℕ → DriverState → Edge → Option DriverState
  unfolding insert_ends
  stream_update failures thr_id d edge =
      Option.map (λ alg. insert_ends thr_id edge (record d { sketching_alg = alg }))
        (pre_insert failures d.sketching_alg edge)

  -- The loop over one buffer; with whether it has come to a breakpoint, which ends the thread.
  pub stream_buffer : ℕ → DriverState → List GraphUpdate → Option (DriverState × Bool)
  unfolding stream_update
  stream_buffer thr_id d [] = some (d, false)
  stream_buffer thr_id d (u ∷ us) =
      if is_breakpoint u.update_type
      then some (d, true)
      else (stream_update [] thr_id d u.edge >>= (λ d'. stream_buffer thr_id d' us))

  -- `while (true)`, over what `get_update_buffer` gives. `none` also stands for a stream that ends
  -- without a breakpoint, on which the loop goes on for ever.
  pub stream_task : ℕ → DriverState → List (List GraphUpdate) → Option DriverState
  unfolding stream_buffer
  stream_task thr_id d [] = none
  stream_task thr_id d (buffer ∷ rest) = do
    p ← stream_buffer thr_id d buffer
    elim p.1 [ true ↦ some p.0 | false ↦ stream_task thr_id p.0 rest ]

  -- The next update of a thread, or the next buffer.
  pub stream_next :
      List Bool
      → ℕ
      → DriverState
      → List GraphUpdate
      → List (List GraphUpdate)
      → Option (DriverState × StreamThread)
  unfolding stream_update
  stream_next failures thr_id d [] [] = none
  stream_next failures thr_id d [] (b ∷ bs) =
      some (d, record { buffer = b; coming = bs; finished = false })
  stream_next failures thr_id d (u ∷ us) bs =
      if is_breakpoint u.update_type
      then some (d, record { buffer = us; coming = bs; finished = true })
      else Option.map (λ d'. (d', record { buffer = us; coming = bs; finished = false }))
          (stream_update failures thr_id d u.edge)

  pub stream_step : List Bool → ℕ → DriverState → StreamThread → Option (DriverState × StreamThread)
  unfolding stream_next
  stream_step failures thr_id d t =
      if t.finished then some (d, t) else stream_next failures thr_id d t.buffer t.coming

  -- The thread in place `i`; one that does not exist makes no step.
  pub stream_at :
      List Bool → ℕ → DriverState → List StreamThread → ℕ → Option (DriverState × List StreamThread)
  unfolding stream_step
  stream_at failures thr_id d [] i = some (d, [])
  stream_at failures thr_id d (t ∷ ts) zero =
      Option.map (λ (p : DriverState × StreamThread). (p.0, p.1 ∷ ts))
        (stream_step failures thr_id d t)
  stream_at failures thr_id d (t ∷ ts) (suc i) =
      Option.map (λ (p : DriverState × List StreamThread). (p.0, t ∷ p.1))
        (stream_at failures thr_id d ts i)

  -- `threads[i].join()`: what is left of the threads, one after the other.
  pub join_threads : ℕ → DriverState → List StreamThread → Option DriverState
  unfolding stream_task
  join_threads thr_id d [] = some d
  join_threads thr_id d (t ∷ ts) = do
    d' ← if t.finished then some d else stream_task thr_id d (t.buffer ∷ t.coming)
    join_threads (suc thr_id) d' ts

  -- How `process_stream_until` ends: it exits the process if the breakpoint cannot be set.
  pub data Streamed : Type 0 where
    exit_failure : Streamed
    streamed : DriverState → Streamed

  module _ (hashes : Hashes) (alg : Algorithm) where
    after_batch : DriverState → ℕ → gutters.G → Updated → Option DriverState
    after_batch d count g (done c) = some (record d {
      sketching_alg = c;
      gts = g;
      total_updates = (d.total_updates + count) % 2 ^ 64;
    })
    after_batch d count g update_locked_exception = none
    after_batch d count g out_of_bounds = none

    -- The `batch_callback` of worker `thr_id` with a batch that it has taken. `none` is the exception,
    -- or an access out of bounds.
    pub run_batch : ℕ → DriverState → GutterBatch → gutters.G → Option DriverState
    unfolding after_batch
    run_batch thr_id d b g =
        after_batch d (length b.dst_vertices) g
          (apply_update_batch hashes alg d.sketching_alg thr_id b.src_vertex b.dst_vertices)

    -- A worker that exists takes what there is to take.
    pub worker_event : ℕ → DriverState → Option DriverState
    unfolding run_batch
    worker_event thr_id d =
        if ltb thr_id d.num_workers
        then elim (gutters.take d.gts) [ none ↦ some d | some p ↦ run_batch thr_id d p.0 p.1 ]
        else some d

    -- The events in their order, and then what is left of the stream threads.
    pub run_events : List Event → DriverState → List StreamThread → Option DriverState
    unfolding join_threads stream_at worker_event
    run_events [] d ts = join_threads 0 d ts
    run_events (of_stream i failures ∷ events) d ts = do
      p ← stream_at failures i d ts i
      run_events events p.0 p.1
    run_events (of_worker thr_id ∷ events) d ts = do
      d' ← worker_event thr_id d
      run_events events d' ts

    -- With the buffers of each of its stream threads, and the order of events. The workers, which
    -- `resume_workers` lets run, take batches in between.
    pub process_stream_until :
        (set_break_point : Bool)
        → List Event
        → DriverState
        → List (List (List GraphUpdate))
        → Option Streamed
    unfolding run_events
    process_stream_until false events d threads = some exit_failure
    process_stream_until true events d threads =
        Option.map streamed (run_events events d (start_threads threads))

    -- Batches of workers.
    pub data WorkerSteps (start : DriverState) : DriverState → Type 0 where
      no_batch : WorkerSteps start start
      then_batch :
          (d d' : DriverState) (thr_id : ℕ) (b : GutterBatch) (g : gutters.G)
          → WorkerSteps start d
          → thr_id < d.num_workers
          → gutters.take d.gts ≡ some (b, g)
          → run_batch thr_id d b g ≡ some d'
          → WorkerSteps start d'

    -- `prep_query`: nothing if the answer is cached; or a flush of the gutters, and `flush_workers`,
    -- which returns after some batches of the workers.
    pub data PrepQuery (query_code : QueryCode) (d : DriverState) : DriverState → Type 0 where
      cached : has_cached_query d.sketching_alg query_code ≡ true → PrepQuery query_code d d
      flushed :
          (d' : DriverState)
          → has_cached_query d.sketching_alg query_code ≡ false
          → WorkerSteps (record d { gts = gutters.force_flush d.gts }) d'
          → PrepQuery query_code d d'

    -- The runs of the driver from a state with empty gutters, with the edges of the updates, the
    -- latest first: the steps of stream threads and of workers in any order.
    pub data Run (c : CcSketchAlg) : List Edge → DriverState → Type 0 where
      begins :
          (g : gutters.G) (num_workers total : ℕ)
          → ((v : ℕ) → gutters.held g v ≡ [])
          → length c.delta_sketches ≡ num_workers
          → Run c [] (record {
            sketching_alg = c;
            gts = g;
            num_workers = num_workers;
            total_updates = total;
          })
      streams :
          (edges : List Edge) (d d' : DriverState) (failures : List Bool) (thr_id : ℕ) (edge : Edge)
          → Run c edges d
          → edge.src < c.num_vertices
          → edge.dst < c.num_vertices
          → ¬ (edge.src ≡ edge.dst)
          → stream_update failures thr_id d edge ≡ some d'
          → Run c (edge ∷ edges) d'
      flushes :
          (edges : List Edge) (d : DriverState)
          → Run c edges d
          → Run c edges (record d { gts = gutters.force_flush d.gts })
      works :
          (edges : List Edge) (d d' : DriverState) (thr_id : ℕ) (b : GutterBatch) (g : gutters.G)
          → Run c edges d
          → thr_id < d.num_workers
          → gutters.take d.gts ≡ some (b, g)
          → run_batch thr_id d b g ≡ some d'
          → Run c edges d'
