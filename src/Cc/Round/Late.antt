-- ===== src/Cc/Round/Late.antt =====
-- Whole rounds of `perform_boruvka_round` (src/cc_sketch_alg.cpp) after the last sample of the
-- sketches.
use graph_streaming_cc.Prelude.{
  ℕ, zero, suc, ◌-◌, ◌≤◌, ◌≡◌, refl, arith, Bool, false, some, none, List, [], ◌∷◌, map, range_from,
  Always, no_result, result, Always-map, Always-bind, Always-if,
}
use graph_streaming_cc.Bucket.{Hashes}
use graph_streaming_cc.Sketch.{Sketch}
use graph_streaming_cc.Sketch.Update.{Algorithm}
use graph_streaming_cc.Cc.{CcSketchAlg, empty_sketch}
use graph_streaming_cc.Cc.Query.Flags.{SameFlags, SameFlags-refl, run_round_zero-flags}
use graph_streaming_cc.Cc.Query.Rounds.{Each, each, no_more}
use graph_streaming_cc.Cc.Partition.{MergeInstr, get_ith_partition}
use graph_streaming_cc.Cc.Round.{
  GlobalMergeData, Thread, Shared, restart_global, begin_thread, reads_inside, start_thread,
  start_threads, run_thread, run_rest, thread_step, step_at, run_threads, of_round_zero,
  perform_boruvka_round,
}
use graph_streaming_cc.Cc.Round.Spent.{
  Quiet, SharedQuiet, Ok, thread_step-Ok, zeroed-Quiet, empty_sketch-Silent,
}

module _ (hashes : Hashes) (alg : Algorithm) (c : CcSketchAlg) (k : ℕ) where
  run_thread-Ok :
      (fuel : ℕ) (instrs : List MergeInstr) (threads : ℕ) (sh : Shared) (t : Thread)
      → Ok hashes alg c k (sh, t)
      → Always (Ok hashes alg c k) (run_thread hashes alg fuel k instrs threads sh t)
  unfolding run_thread
  run_thread-Ok zero instrs threads sh t ok = result (sh, t) ok
  run_thread-Ok (suc fuel) instrs threads sh t ok =
      Always-bind (thread_step hashes alg [] k instrs threads sh t) _
        (thread_step-Ok hashes alg c k [] instrs threads sh t ok)
        (λ p h. run_thread-Ok fuel instrs threads p.0 p.1 h)

  abbrev AllOk : Shared × List Thread → Type 0
  AllOk p =
      SharedQuiet hashes alg c k p.0
      × Each (λ (t : Thread). Quiet hashes alg c k t.local_sketch) p.1

  run_rest-Ok :
      (instrs : List MergeInstr) (threads : ℕ) (sh : Shared) (ts : List Thread)
      → AllOk (sh, ts)
      → Always AllOk (run_rest hashes alg k instrs threads sh ts)
  unfolding run_rest
  run_rest-Ok instrs threads sh [] ok = result (sh, []) ok
  run_rest-Ok instrs threads sh (t ∷ ts) (shared, each _ _ q qs) =
      Always-bind (run_thread hashes alg (suc (t.end - t.next)) k instrs threads sh t) _
        (run_thread-Ok (suc (t.end - t.next)) instrs threads sh t (shared, q))
        (λ p h.
          Always-map _ _ (run_rest-Ok instrs threads p.0 ts (h.0, qs))
            (λ r hs. (hs.0, each p.1 r.1 h.1 hs.1)))

  step_at-Ok :
      (failures : List Bool) (instrs : List MergeInstr) (threads : ℕ) (sh : Shared)
      (ts : List Thread) (i : ℕ)
      → AllOk (sh, ts)
      → Always AllOk (step_at hashes alg failures k instrs threads sh ts i)
  unfolding step_at
  step_at-Ok failures instrs threads sh [] i ok = result (sh, []) ok
  step_at-Ok failures instrs threads sh (t ∷ ts) zero (shared, each _ _ q qs) =
      Always-map _ _ (thread_step-Ok hashes alg c k failures instrs threads sh t (shared, q))
        (λ p h. (h.0, each p.1 ts h.1 qs))
  step_at-Ok failures instrs threads sh (t ∷ ts) (suc i) (shared, each _ _ q qs) =
      Always-map _ _ (step_at-Ok failures instrs threads sh ts i (shared, qs))
        (λ p h. (h.0, each t p.1 q h.1))

  run_threads-Ok :
      (instrs : List MergeInstr) (threads : ℕ) (sh : Shared) (ts : List Thread)
      (schedule : List (ℕ × List Bool))
      → AllOk (sh, ts)
      → Always AllOk (run_threads hashes alg k instrs threads sh ts schedule)
  unfolding run_threads
  run_threads-Ok instrs threads sh ts [] ok = run_rest-Ok instrs threads sh ts ok
  run_threads-Ok instrs threads sh ts ((i, failures) ∷ rest) ok =
      Always-bind (step_at hashes alg failures k instrs threads sh ts i) _
        (step_at-Ok failures instrs threads sh ts i ok)
        (λ p h. run_threads-Ok instrs threads p.0 p.1 rest h)

  start_thread-Quiet :
      (skt : Sketch) (n threads : ℕ) (instrs : List MergeInstr) (i : ℕ)
      → Quiet hashes alg c k skt
      → Always
          (λ (t : Thread). Quiet hashes alg c k t.local_sketch)
          (start_thread skt n instrs threads i)
  unfolding start_thread begin_thread
  start_thread-Quiet skt n threads instrs i q =
      let range = get_ith_partition n i threads in
      Always-if (reads_inside n instrs range) (some (begin_thread skt n instrs range i)) none
        (λ _. result _ q) (λ _. no_result)

  start_threads-Quiet :
      (skt : Sketch) (n threads : ℕ) (instrs : List MergeInstr) (is : List ℕ)
      → Quiet hashes alg c k skt
      → Always
          (Each (λ (t : Thread). Quiet hashes alg c k t.local_sketch))
          (start_threads skt n instrs threads is)
  unfolding start_threads
  start_threads-Quiet skt n threads instrs [] q = result [] no_more
  start_threads-Quiet skt n threads instrs (i ∷ is) q =
      Always-bind (start_thread skt n instrs threads i) _
        (start_thread-Quiet skt n threads instrs i q)
        (λ t h.
          Always-bind (start_threads skt n instrs threads is) _
            (start_threads-Quiet skt n threads instrs is q)
            (λ ts hs. result (t ∷ ts) (each t ts h hs)))

-- What a query keeps of its shared sketches.
abbrev pub Shaped : Hashes → Algorithm → CcSketchAlg → List GlobalMergeData → Type 0
Shaped hashes alg c =
    Each (λ (m : GlobalMergeData). m.sketch.shape ≡ (empty_sketch hashes alg c).shape)

restarted :
    (hashes : Hashes) (alg : Algorithm) (c : CcSketchAlg) (k : ℕ) (gs : List GlobalMergeData)
    → Shaped hashes alg c gs
    → Each (λ (m : GlobalMergeData). Quiet hashes alg c k m.sketch) (map restart_global gs)
unfolding restart_global
restarted hashes alg c k [] no_more = no_more
restarted hashes alg c k (m ∷ ms) (each _ _ h hs) =
    each (restart_global m) (map restart_global ms) (zeroed-Quiet hashes alg c k m.sketch h)
      (restarted hashes alg c k ms hs)

-- What a round leaves.
pub record Late (hashes : Hashes) (alg : Algorithm) (c : CcSketchAlg) (k : ℕ) (sh : Shared)
    : Type 0 where
  pub flags : SameFlags c sh.state
  pub still : 1 ≤ k → c.num_samples ≤ k → sh.modified ≡ false
  pub shaped : Shaped hashes alg c sh.global_merges

pub perform_boruvka_round-Late :
    (hashes : Hashes) (alg : Algorithm) (threads k : ℕ) (instrs : List MergeInstr)
    (global_merges : List GlobalMergeData) (c : CcSketchAlg) (schedule : List (ℕ × List Bool))
    → Shaped hashes alg c global_merges
    → Always
        (Late hashes alg c k)
        (perform_boruvka_round hashes alg threads k instrs global_merges c schedule)
unfolding perform_boruvka_round of_round_zero
perform_boruvka_round-Late hashes alg threads zero instrs global_merges c schedule shaped =
    Always-map (of_round_zero hashes alg global_merges) _
      (run_round_zero-flags hashes alg c schedule)
      (λ r h. record { flags = h; still = λ p q. absurd (omega arith); shaped = shaped })
perform_boruvka_round-Late hashes alg threads (suc k) instrs global_merges c schedule shaped =
    Always-bind _ _
      (start_threads-Quiet hashes alg c (suc k) (empty_sketch hashes alg c) c.num_vertices threads
        instrs (range_from 0 threads) blank_Quiet)
      (λ ts quiet.
        Always-map _ _
          (run_threads-Ok hashes alg c (suc k) instrs threads _ ts schedule (
            record {
              flags = SameFlags-refl c;
              still = λ past. refl;
              quiet = restarted hashes alg c (suc k) global_merges shaped;
            },
            quiet,
          ))
          (λ p h. record {
            flags = h.0.flags;
            still = λ _. h.0.still;
            shaped = shapes p.0.global_merges h.0.quiet;
          }))
  where
    blank_Quiet : Quiet hashes alg c (suc k) (empty_sketch hashes alg c)
    blank_Quiet = record { shaped = refl; silent = λ past. empty_sketch-Silent hashes alg c }

    shapes :
        (gs : List GlobalMergeData)
        → Each (λ (m : GlobalMergeData). Quiet hashes alg c (suc k) m.sketch) gs
        → Shaped hashes alg c gs
    shapes [] no_more = no_more
    shapes (m ∷ ms) (each _ _ q qs) = each m ms q.shaped (shapes ms qs)
