-- ===== src/Driver/Tests.antt =====
-- Runs of the driver of include/graph_sketch_driver.h with gutters that hold single updates.
use graph_streaming_cc.Prelude.{
  Always, no_result, result, Always-some, subst, ap, ◌∙◌, ℕ, ◌≡◌, refl, arith, true, false, ◌==◌,
  if◌then◌else◌, Option, none, some, List, [], ◌∷◌, ◌++◌, length,
}
use graph_streaming_cc.Util.{Edge, low_of, high_of}
use graph_streaming_cc.Bucket.Tests.{test_hashes}
use graph_streaming_cc.Sketch.Update.{Algorithm, update_all}
use graph_streaming_cc.Cc.{
  CcSketchAlg, QueryCode, new_cc, allocate_worker_memory, pre_insert, record_edge, insert, contains,
  has_cached_query, vertex_sketch,
}
use graph_streaming_cc.Dsu.{merge_mt, find_root, find_loop, order_edge, new_dsu}
use graph_streaming_cc.Cc.Ingest.{Fits, sketch_at}
use graph_streaming_cc.Driver.{
  UpdateType, GraphUpdate, is_breakpoint, GutterBatch, Gutters, Shuffle, nothing, kept, DriverState,
  Event, of_stream, of_worker, start_threads, streamed, insert_ends, stream_update, stream_buffer,
  stream_task, stream_next, stream_step, stream_at, join_threads, run_batch, worker_event,
  run_events, process_stream_until, no_batch, then_batch, PrepQuery, flushed, Run, begins, streams,
  works,
}
use graph_streaming_cc.Driver.Buffers.{joined}
use graph_streaming_cc.Driver.Incident.{incident, Edges, no_edges, an_edge}
use graph_streaming_cc.Driver.Refines.{Run-Refines, batch_lem}
use graph_streaming_cc.Driver.Stream.{Going, process_stream_until_lem}
use graph_streaming_cc.Driver.Threads.{
  Reads, at_break, an_update, AllReads, no_thread, a_thread, going, both_leave,
}
use graph_streaming_cc.Driver.Whole.{
  ready, at_start, ready_Fits, ready_unlocked, ready_sized, start-Streaming, streamed_sketches,
}
use graph_streaming_cc.Graph.{present}

Shuffle-refl : (xs : List ℕ) → Shuffle xs xs
Shuffle-refl [] = nothing
Shuffle-refl (x ∷ xs) = kept x xs xs (Shuffle-refl xs)

-- The destinations of a vertex, of updates as they are inserted, the latest first.
held_for : List (ℕ × ℕ) → ℕ → List ℕ
held_for [] v = []
held_for ((src, dst) ∷ us) v = if src == v then dst ∷ held_for us v else held_for us v

-- The latest update, as a batch.
take_first : List (ℕ × ℕ) → Option (GutterBatch × List (ℕ × ℕ))
take_first [] = none
take_first ((src, dst) ∷ us) = some (record { src_vertex = src; dst_vertices = dst ∷ [] }, us)

-- What a batch of them says.
Taken : List (ℕ × ℕ) → GutterBatch × List (ℕ × ℕ) → Type 0
Taken g (b, g') =
    ((v : ℕ)
      → held_for g v
        ≡ (if b.src_vertex == v then b.dst_vertices ++ held_for g' v else held_for g' v))
    × (¬ (b.dst_vertices ≡ []))

cons≢nil : {x : ℕ} {xs : List ℕ} → ¬ (x ∷ xs ≡ [])
cons≢nil e = cc

take_first-Taken : (g : List (ℕ × ℕ)) → Always (Taken g) (take_first g)
unfolding take_first Taken held_for
take_first-Taken [] = no_result
take_first-Taken ((src, dst) ∷ us) = result _ (λ v. refl, cons≢nil)

taken : (g g' : List (ℕ × ℕ)) (b : GutterBatch) → take_first g ≡ some (b, g') → Taken g (b, g')
taken g g' b e = Always-some (subst (Always (Taken g)) e (take_first-Taken g))

single_insert :
    (g : List (ℕ × ℕ)) (src dst thr v : ℕ)
    → Shuffle (held_for ((src, dst) ∷ g) v) (if src == v then dst ∷ held_for g v else held_for g v)
unfolding held_for
single_insert g src dst thr v = Shuffle-refl _

single_take :
    (g g' : List (ℕ × ℕ)) (b : GutterBatch) (v : ℕ)
    → take_first g ≡ some (b, g')
    → Shuffle
        (held_for g v)
        (if b.src_vertex == v then b.dst_vertices ++ held_for g' v else held_for g' v)
unfolding Taken
single_take g g' b v e = subst (Shuffle (held_for g v)) ((taken g g' b e).0 v) (Shuffle-refl _)

single_batch :
    (g g' : List (ℕ × ℕ)) (b : GutterBatch) → take_first g ≡ some (b, g') → ¬ (b.dst_vertices ≡ [])
unfolding Taken
single_batch g g' b e = (taken g g' b e).1

abbrev single : Gutters
single = record {
  G = List (ℕ × ℕ);
  held = held_for;
  insert = λ g src dst thr. (src, dst) ∷ g;
  take = take_first;
  force_flush = λ g. g;
  insert_law = single_insert;
  take_law = single_take;
  flush_law = λ g v. Shuffle-refl (held_for g v);
  batch_law = single_batch;
}

abbrev edge : Edge
edge = record { src = 0; dst = 1 }

abbrev edge_update : GraphUpdate
edge_update = record { edge = edge; update_type = UpdateType.insert }

abbrev the_end : GraphUpdate
the_end = record { edge = record { src = 0; dst = 0 }; update_type = UpdateType.breakpoint }

-- Three vertices and memory for one worker.
abbrev new_alg : CcSketchAlg
new_alg = ready single test_hashes Algorithm.cube 3 5 2 1 (4 ∷ 9 ∷ 2 ∷ [])

abbrev new_Fits : Fits test_hashes Algorithm.cube new_alg
new_Fits = ready_Fits single test_hashes Algorithm.cube 3 5 2 1 (4 ∷ 9 ∷ 2 ∷ [])

abbrev new_unlocked : new_alg.update_locked ≡ false
new_unlocked = ready_unlocked single test_hashes Algorithm.cube 3 5 2 1 (4 ∷ 9 ∷ 2 ∷ [])

abbrev new_sized : length new_alg.sketches ≡ new_alg.num_vertices
new_sized = ready_sized single test_hashes Algorithm.cube 3 5 2 1 (4 ∷ 9 ∷ 2 ∷ [])

abbrev begun : DriverState single
begun = at_start single test_hashes Algorithm.cube 3 5 2 1 (4 ∷ 9 ∷ 2 ∷ []) []

-- The edge's updates, both ways, and a connection of 0 and 1 that `pre_insert` finds.
abbrev inserted : CcSketchAlg
inserted = record new_alg {
  dsu = record new_alg.dsu { parent = 1 ∷ 1 ∷ 2 ∷ [] };
  spanning_forest = (1 ∷ []) ∷ [] ∷ [] ∷ [];
}

abbrev fed : DriverState single
fed = record begun { sketching_alg = inserted; gts = (1, 0) ∷ (0, 1) ∷ [] }

feeds : stream_update single [] 0 begun edge ≡ some fed
unfolding stream_update insert_ends pre_insert allocate_worker_memory new_cc new_dsu record_edge
    insert contains merge_mt find_root find_loop order_edge low_of high_of
feeds = refl

-- Two stream threads: the second one has only its breakpoint.
abbrev few_threads : List (List (List GraphUpdate))
few_threads = ([] ∷ (edge_update ∷ the_end ∷ edge_update ∷ []) ∷ []) ∷ ((the_end ∷ []) ∷ []) ∷ []

-- The second thread ends first, a worker finds nothing, and the first thread is joined.
abbrev few_events : List Event
few_events = of_stream 1 [] ∷ of_stream 0 [] ∷ of_worker 0 ∷ of_stream 1 [] ∷ []

streamed_until_breakpoint :
    process_stream_until single test_hashes Algorithm.cube true few_events begun few_threads
    ≡ some (streamed fed)
unfolding process_stream_until run_events worker_event take_first join_threads stream_at stream_step
    stream_next stream_task stream_buffer stream_update insert_ends pre_insert
    allocate_worker_memory new_cc record_edge insert contains merge_mt find_root find_loop new_dsu
    low_of high_of order_edge is_breakpoint
streamed_until_breakpoint = refl

-- The edge 0-1 comes and goes, and 2-1 comes in between.
abbrev other : Edge
other = record { src = 2; dst = 1 }

abbrev other_update : GraphUpdate
other_update = record { edge = other; update_type = UpdateType.insert }

abbrev buffers : List (List GraphUpdate)
buffers =
    (edge_update ∷ [])
    ∷ []
    ∷ (other_update
        ∷ record { edge = edge; update_type = UpdateType.delete }
        ∷ the_end
        ∷ edge_update
        ∷ [])
    ∷ []

not_a_loop : ¬ (edge.src ≡ edge.dst)
not_a_loop e = omega arith

other_not_a_loop : ¬ (other.src ≡ other.dst)
other_not_a_loop e = omega arith

only_break : (us : List GraphUpdate) → Reads 3 (the_end ∷ us) []
unfolding is_breakpoint
only_break us = at_break the_end us refl

one_read :
    (us : List GraphUpdate) (es : List Edge)
    → Reads 3 us es
    → Reads 3 (edge_update ∷ us) (edge ∷ es)
unfolding is_breakpoint
one_read us es more = an_update edge_update us es refl (omega arith) (omega arith) not_a_loop more

other_read :
    (us : List GraphUpdate) (es : List Edge)
    → Reads 3 us es
    → Reads 3 (other_update ∷ us) (other ∷ es)
unfolding is_breakpoint
other_read us es more =
    an_update other_update us es refl (omega arith) (omega arith) other_not_a_loop more

buffers_read : Reads 3 ([] ++ joined buffers) (edge ∷ other ∷ edge ∷ [])
unfolding joined is_breakpoint
buffers_read = one_read _ _ (
    other_read _ _ (
      an_update (record { edge = edge; update_type = UpdateType.delete }) _ [] refl (omega arith)
        (omega arith) not_a_loop (only_break _)))

-- The second thread streams 2-1, too.
abbrev threads : List (List (List GraphUpdate))
threads = buffers ∷ ((other_update ∷ the_end ∷ []) ∷ []) ∷ []

reads : AllReads 3 (start_threads threads) (edge ∷ other ∷ edge ∷ other ∷ [])
unfolding joined
reads =
    a_thread _ _ (edge ∷ other ∷ edge ∷ []) (other ∷ [])
      (going (edge ∷ other ∷ edge ∷ []) refl buffers_read)
      (a_thread _ [] (other ∷ []) [] (going (other ∷ []) refl (other_read _ _ (only_break [])))
        no_thread)

few_read : AllReads 3 (start_threads few_threads) (edge ∷ [])
unfolding joined
few_read =
    a_thread _ _ (edge ∷ []) [] (going (edge ∷ []) refl (one_read _ _ (only_break _)))
      (a_thread _ [] [] [] (going [] refl (only_break [])) no_thread)

nothing_held : (v : ℕ) → held_for [] v ≡ []
unfolding held_for
nothing_held v = refl

process_stream_until_lem_example :
    (d' : DriverState single) × (process_stream_until single test_hashes Algorithm.cube true
        (of_stream 0 [] ∷ of_stream 0 (true ∷ []) ∷ of_worker 0 ∷ of_stream 1 [] ∷ [])
        begun
        threads
      ≡ some (streamed d'))
    × (all : List Edge) × Going single test_hashes Algorithm.cube new_alg new_Fits new_unlocked
        new_sized all d'
    × ((x y : ℕ) → present all x y ≡ both_leave (edge ∷ other ∷ edge ∷ other ∷ []) [] x y)
unfolding allocate_worker_memory new_cc
process_stream_until_lem_example =
    process_stream_until_lem single test_hashes Algorithm.cube new_alg new_Fits new_unlocked
      new_sized (of_stream 0 [] ∷ of_stream 0 (true ∷ []) ∷ of_worker 0 ∷ of_stream 1 [] ∷ [])
      threads (edge ∷ other ∷ edge ∷ other ∷ []) [] begun reads
      (start-Streaming single test_hashes Algorithm.cube 3 5 2 1 (4 ∷ 9 ∷ 2 ∷ []) [] nothing_held)

edge_graph : Edges (edge ∷ [])
edge_graph = an_edge edge [] (omega arith) (omega arith) not_a_loop no_edges

feeding : Run single test_hashes Algorithm.cube new_alg (edge ∷ []) fed
unfolding allocate_worker_memory new_cc
feeding =
    streams [] begun fed [] 0 edge (begins [] 1 0 nothing_held refl) (omega arith) (omega arith)
      not_a_loop feeds

uncached : has_cached_query fed.sketching_alg QueryCode.kspanningforests ≡ false
unfolding has_cached_query
uncached = refl

-- The batches of the worker in `flush_workers`, one after the other.
abbrev one_batch : GutterBatch
one_batch = record { src_vertex = 1; dst_vertices = 0 ∷ [] }

abbrev another_batch : GutterBatch
another_batch = record { src_vertex = 0; dst_vertices = 1 ∷ [] }

one_takes : take_first fed.gts ≡ some (one_batch, (0, 1) ∷ [])
unfolding take_first
one_takes = refl

another_takes : take_first ((0, 1) ∷ []) ≡ some (another_batch, [])
unfolding take_first
another_takes = refl

one_done :
    (d : DriverState single) × (run_batch single test_hashes Algorithm.cube 0 fed one_batch
        ((0, 1) ∷ [])
      ≡ some d)
    × (d.gts ≡ (0, 1) ∷ [])
    × (d.num_workers ≡ 1)
one_done =
    let (a, runs, _, _) =
      batch_lem single test_hashes Algorithm.cube new_alg (edge ∷ []) fed 0 one_batch ((0, 1) ∷ [])
        (omega arith) one_takes
        (Run-Refines single test_hashes Algorithm.cube new_alg new_Fits new_unlocked new_sized
          (edge ∷ []) fed feeding) in
    (_, runs, refl, refl)

one-Run : Run single test_hashes Algorithm.cube new_alg (edge ∷ []) one_done.0
one-Run =
    works (edge ∷ []) fed one_done.0 0 one_batch ((0, 1) ∷ []) feeding (omega arith) one_takes
      one_done.1

both_done :
    (d : DriverState single) × (run_batch single test_hashes Algorithm.cube 0 one_done.0
        another_batch []
      ≡ some d)
    × (d.gts ≡ [])
both_done =
    let (a, runs, _, _) =
      batch_lem single test_hashes Algorithm.cube new_alg (edge ∷ []) one_done.0 0 another_batch []
        (rw one_done.3 (omega arith)) (ap take_first one_done.2 ∙ another_takes)
        (Run-Refines single test_hashes Algorithm.cube new_alg new_Fits new_unlocked new_sized
          (edge ∷ []) one_done.0 one-Run) in
    (_, runs, refl)

prepared : PrepQuery single test_hashes Algorithm.cube QueryCode.kspanningforests fed both_done.0
prepared = flushed both_done.0 uncached (
    then_batch one_done.0 both_done.0 0 another_batch []
      (then_batch fed one_done.0 0 one_batch ((0, 1) ∷ []) no_batch (omega arith) one_takes
        one_done.1)
      (rw one_done.3 (omega arith)) (ap take_first one_done.2 ∙ another_takes) both_done.1)

left_empty : (v : ℕ) → held_for both_done.0.gts v ≡ []
left_empty v = ap (λ g. held_for g v) both_done.2 ∙ nothing_held v

streamed_sketches_example :
    sketch_at test_hashes Algorithm.cube both_done.0.sketching_alg 1
    ≡ update_all test_hashes Algorithm.cube
        (vertex_sketch Algorithm.cube 3 5 2)
        (incident 1 (edge ∷ []))
streamed_sketches_example =
    streamed_sketches single test_hashes Algorithm.cube 3 5 2 1 (4 ∷ 9 ∷ 2 ∷ []) [] few_events
      few_threads (edge ∷ []) (edge ∷ []) QueryCode.kspanningforests fed both_done.0 (omega arith)
      nothing_held few_read edge_graph (λ src dst. refl) streamed_until_breakpoint prepared
      left_empty 1
