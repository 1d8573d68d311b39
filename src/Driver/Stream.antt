-- ===== src/Driver/Stream.antt =====
-- `process_stream_until` of include/graph_sketch_driver.h: the stream threads, to the breakpoints of
-- their streams, while the workers take batches.
use graph_streaming_cc.Prelude.{
  ℕ, zero, suc, ◌≡◌, refl, sym, ap, subst, ◌∙◌, inl, inr, Bool, true, false, Option, some, List, [],
  ◌∷◌, ◌++◌, length, ltb, ltb→lt, Bool-cases, Option-cases,
}
use graph_streaming_cc.Util.{Edge}
use graph_streaming_cc.Bucket.{Hashes}
use graph_streaming_cc.Sketch.Update.{Algorithm}
use graph_streaming_cc.Graph.{present}
use graph_streaming_cc.Cc.{CcSketchAlg}
use graph_streaming_cc.Cc.Eager.{Eager}
use graph_streaming_cc.Cc.Ingest.{Fits}
use graph_streaming_cc.Driver.{
  GraphUpdate, Gutters, StreamThread, Event, of_stream, of_worker, DriverState, streamed, stream_at,
  join_threads, worker_event, run_events, stream_task, process_stream_until, start_threads, works,
}
use graph_streaming_cc.Driver.Buffers.{joined, stream_all, stream_task-joined}
use graph_streaming_cc.Driver.Refines.{Run-Refines, batch_lem}
use graph_streaming_cc.Driver.Shuffles.{or_else, or_else_assoc}
use graph_streaming_cc.Driver.Threads.{
  stopped, going, AllReads, no_thread, a_thread, both_leave, present-append, or_else_swap,
  Streaming, stream_step_lem, stream_all_lem,
}

-- A thread's step, among what the others have still to read.
first_moves :
    (es es' ls edges come : List Edge) (x y : ℕ)
    → both_leave es' come x y ≡ both_leave es edges x y
    → both_leave (es' ++ ls) come x y ≡ both_leave (es ++ ls) edges x y
first_moves es es' ls edges come x y h =
    around es' come ∙ ap (or_else (present ls x y)) h ∙ sym (around es edges)
  where
    around :
        (gs hs : List Edge)
        → both_leave (gs ++ ls) hs x y ≡ or_else (present ls x y) (both_leave gs hs x y)
    around gs hs =
        ap (λ t. or_else t (present hs x y)) (present-append gs ls x y)
        ∙ or_else_assoc (present gs x y) (present ls x y) (present hs x y)
        ∙ or_else_swap (present gs x y) (present ls x y) (present hs x y)

other_moves :
    (es ls ls' edges come : List Edge) (x y : ℕ)
    → both_leave ls' come x y ≡ both_leave ls edges x y
    → both_leave (es ++ ls') come x y ≡ both_leave (es ++ ls) edges x y
other_moves es ls ls' edges come x y h =
    around ls' come ∙ ap (or_else (present es x y)) h ∙ sym (around ls edges)
  where
    around :
        (gs hs : List Edge)
        → both_leave (es ++ gs) hs x y ≡ or_else (present es x y) (both_leave gs hs x y)
    around gs hs =
        ap (λ t. or_else t (present hs x y)) (present-append es gs x y)
        ∙ or_else_assoc (present es x y) (present gs x y) (present hs x y)

module _ (gutters : Gutters) (hashes : Hashes) (alg : Algorithm) (c : CcSketchAlg)
    (fits : Fits hashes alg c) (unlocked : c.update_locked ≡ false)
    (sized : length c.sketches ≡ c.num_vertices) where
  abbrev pub Going : List Edge → DriverState gutters → Type 1
  Going edges d = Streaming gutters hashes alg c fits unlocked sized edges d

  -- The outcome of a step of one of the threads.
  record Moved (ls edges : List Edge) (r : Option (DriverState gutters × List StreamThread))
      : Type 1 where
    state : DriverState gutters
    threads : List StreamThread
    returns : r ≡ some (state, threads)
    left : List Edge
    come : List Edge
    reads : AllReads c.num_vertices threads left
    streaming : Going come state
    same : (x y : ℕ) → both_leave left come x y ≡ both_leave ls edges x y

  stream_at_lem :
      (failures : List Bool) (thr_id : ℕ) (ts : List StreamThread) (i : ℕ) (ls edges : List Edge)
      (d : DriverState gutters)
      → AllReads c.num_vertices ts ls
      → Going edges d
      → Moved ls edges (stream_at gutters failures thr_id d ts i)
  unfolding stream_at
  stream_at_lem failures thr_id _ i _ edges d no_thread s = record {
    state = d;
    threads = [];
    returns = refl;
    left = [];
    come = edges;
    reads = no_thread;
    streaming = s;
    same = λ x y. refl;
  }
  stream_at_lem failures thr_id _ zero _ edges d (a_thread t ts es ls first others) s =
      let step =
        stream_step_lem gutters hashes alg c fits unlocked sized failures thr_id t es edges d first
          s in
      record {
        state = step.state;
        threads = step.thread ∷ ts;
        returns = rw step.returns refl;
        left = step.left ++ ls;
        come = step.come;
        reads = a_thread step.thread ts step.left ls step.reads others;
        streaming = step.streaming;
        same = λ x y. first_moves es step.left ls edges step.come x y (step.same x y);
      }
  stream_at_lem failures thr_id _ (suc i) _ edges d (a_thread t ts es ls first others) s =
      let moved = stream_at_lem failures thr_id ts i ls edges d others s in
      record {
        state = moved.state;
        threads = t ∷ moved.threads;
        returns = rw moved.returns refl;
        left = es ++ moved.left;
        come = moved.come;
        reads = a_thread t moved.threads es moved.left first moved.reads;
        streaming = moved.streaming;
        same = λ x y. other_moves es ls moved.left edges moved.come x y (moved.same x y);
      }

  by_buffers :
      (thr_id : ℕ) (t : StreamThread) (d : DriverState gutters)
      → stream_task gutters thr_id d (t.buffer ∷ t.coming)
        ≡ stream_all gutters thr_id d (t.buffer ++ joined t.coming)
  unfolding joined
  by_buffers thr_id t d = stream_task-joined gutters thr_id (t.buffer ∷ t.coming) d

  -- Joining the threads ends, at the breakpoint of each.
  join_lem :
      (thr_id : ℕ) (ts : List StreamThread) (ls edges : List Edge) (d : DriverState gutters)
      → AllReads c.num_vertices ts ls
      → Going edges d
      → (d' : DriverState gutters) × (join_threads gutters thr_id d ts ≡ some d')
        × (all : List Edge) × Going all d'
        × ((x y : ℕ) → present all x y ≡ both_leave ls edges x y)
  unfolding join_threads
  join_lem thr_id _ _ edges d no_thread s = (d, refl, edges, s, λ x y. unfold present in refl)
  join_lem thr_id _ _ edges d (a_thread t ts _ ls (stopped ended) others) s =
      let (d', ends, all, s', same) = join_lem (suc thr_id) ts ls edges d others s in
      (d', rw ended ends, all, s', same)
  join_lem thr_id _ _ edges d (a_thread t ts _ ls (going es runs reads) others) s =
      let (d1, first, come, s1, same1) =
        stream_all_lem gutters hashes alg c fits unlocked sized thr_id (t.buffer ++ joined t.coming)
          es edges d reads s in
      let (d', ends, all, s', same) = join_lem (suc thr_id) ts ls come d1 others s1 in
      (
        d',
        rw (runs, by_buffers thr_id t d ∙ first) ends,
        all,
        s',
        λ x y.
            same x y
            ∙ ap (or_else (present ls x y)) (same1 x y)
            ∙ or_else_swap (present ls x y) (present es x y) (present edges x y)
            ∙ sym (or_else_assoc (present es x y) (present ls x y) (present edges x y))
            ∙ ap (λ t. or_else t (present edges x y)) (sym (present-append es ls x y)),
      )

  -- A batch leaves the eager forest as it is.
  Eager-rest :
      (edges : List Edge) (a a' : CcSketchAlg)
      → a' ≡ record a { sketches = a'.sketches; delta_sketches = a'.delta_sketches }
      → Eager edges a
      → Eager edges a'
  Eager-rest edges a a' rest e = subst (Eager edges) (sym rest) (record {
    agree = e.agree;
    tracks = λ valid.
        let t = e.tracks valid in
        record {
          items = t.items;
          sized = t.sized;
          forest = t.forest;
          stored = t.stored;
          covers = t.covers;
          spans = t.spans;
        };
  })

  worker_event_lem :
      (thr_id : ℕ) (edges : List Edge) (d : DriverState gutters)
      → Going edges d
      → (d' : DriverState gutters) × (worker_event gutters hashes alg thr_id d ≡ some d')
        × Going edges d'
  unfolding worker_event
  worker_event_lem thr_id edges d s = elim (Bool-cases (ltb thr_id d.num_workers)) [
    | inr no_worker ↦ (d, rw no_worker refl, s)
    | inl worker ↦ elim (Option-cases (gutters.take d.gts)) [
      | inl nothing ↦ (d, rw (worker, nothing) refl, s)
      | inr ((b, g), takes) ↦
          let (a, runs, rest, h) =
            batch_lem gutters hashes alg c edges d thr_id b g (ltb→lt _ _ worker) takes
              (Run-Refines gutters hashes alg c fits unlocked sized edges d s.run) in
          (
            _,
            rw (worker, takes) runs,
            record {
              run = works edges d _ thr_id b g s.run (ltb→lt _ _ worker) takes runs;
              eager = Eager-rest edges d.sketching_alg a rest s.eager;
              vertices = ap (λ (t : CcSketchAlg). t.num_vertices) rest ∙ s.vertices;
            },
          )
    ]
  ]

  run_events_lem :
      (events : List Event) (ts : List StreamThread) (ls edges : List Edge)
      (d : DriverState gutters)
      → AllReads c.num_vertices ts ls
      → Going edges d
      → (d' : DriverState gutters) × (run_events gutters hashes alg events d ts ≡ some d')
        × (all : List Edge) × Going all d'
        × ((x y : ℕ) → present all x y ≡ both_leave ls edges x y)
  unfolding run_events
  run_events_lem [] ts ls edges d reads s = join_lem 0 ts ls edges d reads s
  run_events_lem (of_stream i failures ∷ events) ts ls edges d reads s =
      let moved = stream_at_lem failures i ts i ls edges d reads s in
      let (d', ends, all, s', same) =
        run_events_lem events moved.threads moved.left moved.come moved.state moved.reads
          moved.streaming in
      (d', rw moved.returns ends, all, s', λ x y. same x y ∙ moved.same x y)
  run_events_lem (of_worker thr_id ∷ events) ts ls edges d reads s =
      let (d1, works_on, s1) = worker_event_lem thr_id edges d s in
      let (d', ends, all, s', same) = run_events_lem events ts ls edges d1 reads s1 in
      (d', rw works_on ends, all, s', same)

  -- Let the driver have come from the state `c`, with `edges` streamed before and the eager forest
  -- in step with them. If the breakpoint is set, every stream thread's buffers have one, and every
  -- update before it is an edge between two different vertices of the graph, then
  -- `process_stream_until` returns, whatever the order of the updates of the stream threads and of
  -- the batches of the workers, and whatever attempts to merge fail without a cause. It has then
  -- streamed updates that leave the edges that those of all threads and `edges` leave together,
  -- and the eager forest is in step with them.
  pub process_stream_until_lem :
      (events : List Event) (threads : List (List (List GraphUpdate))) (ls edges : List Edge)
      (d : DriverState gutters)
      → AllReads c.num_vertices (start_threads threads) ls
      → Going edges d
      → (d' : DriverState gutters) × (process_stream_until gutters hashes alg true events d threads
          ≡ some (streamed d'))
        × (all : List Edge) × Going all d'
        × ((x y : ℕ) → present all x y ≡ both_leave ls edges x y)
  unfolding process_stream_until
  process_stream_until_lem events threads ls edges d reads s =
      let (d', ends, all, s', same) =
        run_events_lem events (start_threads threads) ls edges d reads s in
      (d', rw ends refl, all, s', same)
