-- ===== src/Cc/Round/Runs.antt =====
-- The steps of the threads of `perform_boruvka_round` (src/cc_sketch_alg.cpp), and whole rounds.
use graph_streaming_cc.Prelude.{
  ℕ, zero, suc, ◌-◌, ◌<◌, ◌≡◌, ◌⊎◌, ⊎_elim, refl, ap, subst, inl, inr, arith, Bool, true, false,
  ◌||◌, ltb, ◌==◌, if◌then◌else◌, List, [], ◌∷◌, get_or, length, lt→ltb, ltb→lt, Returns,
  Returns-some, Returns-map, Returns-bind, Returns-if, Returns-then, Returns-weaken,
}
use graph_streaming_cc.Graph.{EdgeSet}
use graph_streaming_cc.Bucket.{Hashes}
use graph_streaming_cc.Sketch.{Sketch, range_merge}
use graph_streaming_cc.Sketch.Update.{Algorithm}
use graph_streaming_cc.Cc.{empty_sketch}
use graph_streaming_cc.Cc.Query.Rounds.{Each, each, no_more, Each-get_or, Trusts}
use graph_streaming_cc.Cc.Partition.{MergeInstr, instr_at, find_last_partition_of_root}
use graph_streaming_cc.Cc.Round.{
  Thread, Shared, announce, leave, change_root, merge_child, visit, after_loop, thread_step,
  run_thread, run_rest, step_at, run_threads,
}
use graph_streaming_cc.Cc.Round.Kept.{
  Plan, Merging, partition_of_root, ThreadOk, SharedOk, Ok, sample_local-Ok, merge_and_query-Ok,
  end_root-Ok, change_global,
}

module _ (hashes : Hashes) (alg : Algorithm) (g : EdgeSet) (Q : ℕ → Sketch → Type 0)
    (trust : Trusts hashes alg g Q) (merging : Merging Q) (n threads : ℕ) (instrs : List MergeInstr)
    (plan : Plan n threads instrs) where
  abbrev Good : ℕ → ℕ → Shared × Thread → Type 0
  Good = Ok hashes alg g Q trust merging n threads instrs plan

  abbrev pub GoodShared : Shared → Type 0
  GoodShared = SharedOk hashes alg g Q trust merging n threads instrs plan

  -- A thread somewhere in its instructions.
  abbrev pub GoodThread : Thread → Type 0
  GoodThread t = (stop : ℕ) × (at : ℕ) × ThreadOk n threads instrs plan Q stop at t

  merge_child-Good :
      (k stop at child : ℕ) (p : Shared × Thread)
      → child < n
      → Good stop at p
      → Returns (Good stop (suc at)) (merge_child hashes alg k child p)
  unfolding merge_child
  merge_child-Good k stop at child (sh, t) h ok =
      let skt = get_or sh.state.sketches child (empty_sketch hashes alg sh.state) in
      let inside : child < length sh.state.sketches =
        omega (arith, ok.0.sound.sketched, ok.0.vertices) in
      Returns-then (ltb child (length sh.state.sketches)) _ _ (lt→ltb child _ inside) (
        Returns-some
          (sh, record t { local_sketch = range_merge t.local_sketch skt k 1; next = suc t.next })
          (
            ok.0,
            record {
              here = ap suc ok.1.here;
              there = ok.1.there;
              id = ok.1.id;
              ends = ok.1.ends;
              begun = omega (arith, ok.1.begun);
              seen = ok.1.seen;
              trusted = merging.merged n t.local_sketch skt k ok.1.trusted (
                  subst (λ z. Q z skt) ok.0.vertices
                    (Each-get_or sh.state.sketches child (empty_sketch hashes alg sh.state)
                      ok.0.sound.honest inside));
            },
          ))

  change_root-Good :
      (stop at root : ℕ) (p : Shared × Thread)
      → at < n
      → root ≡ (instr_at instrs at).root
      → Good stop at p
      → Good stop at (change_root root p)
  unfolding change_root
  change_root-Good stop at root p lt e ok = (
    ok.0,
    record {
      here = ok.1.here;
      there = ok.1.there;
      id = ok.1.id;
      ends = ok.1.ends;
      begun = ok.1.begun;
      seen = (at, ok.1.begun, lt, e);
      trusted = merging.zeroed n p.1.local_sketch ok.1.trusted;
    },
  )

  visit-Good :
      (failures : List Bool) (k stop at : ℕ) (sh : Shared) (t : Thread)
      → t.next < t.end
      → Good stop at (sh, t)
      → Returns (Good stop (suc at)) (visit hashes alg failures k instrs sh t)
  unfolding visit
  visit-Good failures k stop at sh t lt ok =
      let instr = instr_at instrs t.next in
      let ended =
        end_root-Ok hashes alg g Q trust merging n threads instrs plan failures k stop at sh t ok in
      Returns-then (ltb t.next (length instrs)) _ _
        (lt→ltb t.next _ (omega (arith, plan.vertices, ok.1.ends, ok.1.there)))
        (Returns-bind _ (merge_child hashes alg k instr.child)
          (Returns-if (instr.root == t.cur_root) _ _ (λ _. Returns-some (sh, t) ok)
            (λ _. Returns-map (change_root instr.root) _ ended (λ p.
              change_root-Good stop at instr.root p
                (omega (arith, ok.1.ends, ok.1.here, ok.1.there))
                (ap (λ i. (instr_at instrs i).root) ok.1.here))))
          (λ p. merge_child-Good k stop at instr.child p (plan.children t.next)))

  announce-Good :
      (id stop at : ℕ) (sh : Shared) (t : Thread)
      → Good stop at (sh, t)
      → Good stop at (announce id sh t, t)
  unfolding announce
  announce-Good id stop at sh t ok = (
    branches t.root_from_left sh _ ok.0
        (change_global hashes alg g Q trust merging n threads instrs plan sh id _ (λ m q. q) ok.0),
    ok.1,
  )
    where
      branches :
          (b : Bool) (x y : Shared) → GoodShared x → GoodShared y → GoodShared (if b then x else y)
      branches true x y hx hy = hx
      branches false x y hx hy = hy

  leave-Good : (stop at : ℕ) (p : Shared × Thread) → Good stop at p → Good stop at (leave p)
  unfolding leave
  leave-Good stop at p ok = (
    record {
      sound = ok.0.sound;
      vertices = ok.0.vertices;
      many = ok.0.many;
      trusted = ok.0.trusted;
    },
    record {
      here = ok.1.here;
      there = ok.1.there;
      id = ok.1.id;
      ends = ok.1.ends;
      begun = ok.1.begun;
      seen = ok.1.seen;
      trusted = ok.1.trusted;
    },
  )

  after_loop-Good :
      (failures : List Bool) (k stop at : ℕ) (sh : Shared) (t : Thread)
      → Good stop at (sh, t)
      → Returns (Good stop at) (after_loop hashes alg failures k instrs threads sh t)
  unfolding after_loop
  after_loop-Good failures k stop at sh t ok =
      let id = find_last_partition_of_root instrs t.cur_root t.start threads in
      let (i, past, inside, own) = ok.1.seen in
      Returns-if (t.root_exits_right || t.root_from_left) _ _
        (λ _.
          merge_and_query-Ok hashes alg g Q trust merging n threads instrs plan failures k id stop
            at (announce id sh t) t
            (partition_of_root n threads instrs plan t.cur_root t.start i past inside own)
            (announce-Good id stop at sh t ok))
        (λ _.
          sample_local-Ok hashes alg g Q trust merging n threads instrs plan failures stop at sh t
            ok)

  -- A step ends the thread or takes it past an instruction.
  abbrev Stepped : ℕ → ℕ → Shared × Thread → Type 0
  Stepped stop at p =
      (Good stop at p × (p.1.finished ≡ true)) ⊎ (Good stop (suc at) p × (at < stop))

  thread_step-Stepped :
      (failures : List Bool) (k stop at : ℕ) (sh : Shared) (t : Thread)
      → Good stop at (sh, t)
      → Returns (Stepped stop at) (thread_step hashes alg failures k instrs threads sh t)
  unfolding thread_step leave
  thread_step-Stepped failures k stop at sh t ok =
      Returns-if t.finished _ _ (λ e. Returns-some (sh, t) (inl (ok, e)))
        (λ _.
          Returns-if (ltb t.next t.end) _ _
            (λ e.
              Returns-weaken _ (visit-Good failures k stop at sh t (ltb→lt _ _ e) ok)
                (λ p h. inr (h, omega (arith, ltb→lt _ _ e, ok.1.here, ok.1.there))))
            (λ _.
              Returns-map leave _ (after_loop-Good failures k stop at sh t ok)
                (λ p h. inl (leave-Good stop at p h, refl))))

  -- What holds of a thread that has ended.
  abbrev pub Ended : Thread → Type 0
  Ended t = GoodThread t × (t.finished ≡ true)

  run_thread-finished :
      (fuel k : ℕ) (sh : Shared) (t : Thread)
      → GoodShared sh
      → Ended t
      → Returns (λ p. GoodShared p.0 × Ended p.1) (run_thread hashes alg fuel k instrs threads sh t)
  unfolding run_thread thread_step
  run_thread-finished zero k sh t ok done = Returns-some (sh, t) (ok, done)
  run_thread-finished (suc fuel) k sh t ok done =
      Returns-bind (thread_step hashes alg [] k instrs threads sh t) _
        (Returns-then t.finished _ _ done.1
          (Returns-some {P = λ p. GoodShared p.0 × Ended p.1} (sh, t) (ok, done)))
        (λ p h. run_thread-finished fuel k p.0 p.1 h.0 h.1)

  run_thread-Ended :
      (fuel k stop at : ℕ) (sh : Shared) (t : Thread)
      → stop - at < fuel
      → Good stop at (sh, t)
      → Returns (λ p. GoodShared p.0 × Ended p.1) (run_thread hashes alg fuel k instrs threads sh t)
  unfolding run_thread
  run_thread-Ended zero k stop at sh t h ok = absurd (omega arith)
  run_thread-Ended (suc fuel) k stop at sh t h ok =
      Returns-bind (thread_step hashes alg [] k instrs threads sh t) _
        (thread_step-Stepped [] k stop at sh t ok)
        (λ p.
          ⊎_elim (λ (done, e). run_thread-finished fuel k p.0 p.1 done.0 ((stop, at, done.1), e))
            (λ (more, lt). run_thread-Ended fuel k stop (suc at) p.0 p.1 (omega arith) more))

  run_rest-Ended :
      (k : ℕ) (sh : Shared) (ts : List Thread)
      → GoodShared sh
      → Each GoodThread ts
      → Returns (λ p. GoodShared p.0 × Each Ended p.1) (run_rest hashes alg k instrs threads sh ts)
  unfolding run_rest
  run_rest-Ended k sh [] ok no_more = Returns-some (sh, []) (ok, no_more)
  run_rest-Ended k sh (t ∷ ts) ok (each _ _ (stop, at, h) hs) =
      Returns-bind (run_thread hashes alg (suc (t.end - t.next)) k instrs threads sh t) _
        (run_thread-Ended (suc (t.end - t.next)) k stop at sh t (omega (arith, h.here, h.there))
          (ok, h))
        (λ p done.
          Returns-map (λ (q : Shared × List Thread). (q.0, p.1 ∷ q.1)) _
            (run_rest-Ended k p.0 ts done.0 hs) (λ q r. (r.0, each p.1 q.1 done.1 r.1)))

  step_at-Good :
      (failures : List Bool) (k : ℕ) (sh : Shared) (ts : List Thread) (i : ℕ)
      → GoodShared sh
      → Each GoodThread ts
      → Returns
          (λ p. GoodShared p.0 × Each GoodThread p.1)
          (step_at hashes alg failures k instrs threads sh ts i)
  unfolding step_at
  step_at-Good failures k sh [] i ok no_more = Returns-some (sh, []) (ok, no_more)
  step_at-Good failures k sh (t ∷ ts) zero ok (each _ _ (stop, at, h) hs) =
      Returns-map (λ (p : Shared × Thread). (p.0, p.1 ∷ ts)) _
        (thread_step-Stepped failures k stop at sh t (ok, h))
        (λ p.
          ⊎_elim (λ (done, _). (done.0, each p.1 ts (stop, at, done.1) hs))
            (λ (more, _). (more.0, each p.1 ts (stop, suc at, more.1) hs)))
  step_at-Good failures k sh (t ∷ ts) (suc i) ok (each _ _ h hs) =
      Returns-map (λ (p : Shared × List Thread). (p.0, t ∷ p.1)) _
        (step_at-Good failures k sh ts i ok hs) (λ p r. (r.0, each t p.1 h r.1))

  pub run_threads-Ended :
      (k : ℕ) (sh : Shared) (ts : List Thread) (schedule : List (ℕ × List Bool))
      → GoodShared sh
      → Each GoodThread ts
      → Returns
          (λ p. GoodShared p.0 × Each Ended p.1)
          (run_threads hashes alg k instrs threads sh ts schedule)
  unfolding run_threads
  run_threads-Ended k sh ts [] ok hs = run_rest-Ended k sh ts ok hs
  run_threads-Ended k sh ts ((i, failures) ∷ rest) ok hs =
      Returns-bind (step_at hashes alg failures k instrs threads sh ts i) _
        (step_at-Good failures k sh ts i ok hs) (λ p h. run_threads-Ended k p.0 p.1 rest h.0 h.1)
