-- ===== src/Cc/Round/Kept.antt =====
-- `perform_boruvka_round` (src/cc_sketch_alg.cpp) under any schedule of its threads: every step
-- keeps the disjoint sets, the stored forest and the sketches as a query needs them.
use graph_streaming_cc.Prelude.{
  ℕ, zero, suc, ◌+◌, ◌-◌, ◌^◌, ◌≤◌, ◌<◌, ◌%◌, ◌≡◌, refl, sym, ap, subst, ◌∙◌, inl, inr, arith, Bool,
  ◌||◌, ltb, List, modify, length, length-modify, eq-or-ne, lt→ltb, Returns, Returns-some,
  Returns-map, Returns-if, Returns-then,
}
use graph_streaming_cc.Graph.{EdgeSet}
use graph_streaming_cc.Bucket.{Hashes}
use graph_streaming_cc.Sketch.{Sketch, range_merge, zero_contents}
use graph_streaming_cc.Sketch.Update.{Algorithm}
use graph_streaming_cc.Cc.Query.{Supernode, sample_supernode}
use graph_streaming_cc.Cc.Query.Rounds.{
  Each, Each-get_or, Each-modify, Trusts, Sound, supernode-Gives,
}
use graph_streaming_cc.Cc.Partition.{
  MergeInstr, instr_at, get_ith_partition, get_partition_idx, find_last_partition_of_root,
}
use graph_streaming_cc.Cc.Partition.Search.{LastOf, find_last_partition_of_root_lem}
use graph_streaming_cc.Cc.Round.{
  GlobalMergeData, Thread, Shared, merge_global, left_resolved, global_at, sample_local,
  sample_global, merge_and_query, end_root, noted_local, noted_global,
}

-- The instructions of a round in the order of their roots, and a division of them among `threads`
-- that leaves no thread without one.
pub record Plan (n threads : ℕ) (instrs : List MergeInstr) : Type 0 where
  pub vertices : length instrs ≡ n
  pub counted : n < 2 ^ 32
  pub sorted : (i j : ℕ) → i ≤ j → j < n → (instr_at instrs i).root ≤ (instr_at instrs j).root
  pub children : (i : ℕ) → (instr_at instrs i).child < n
  pub filled :
      (i : ℕ) → i < threads → (get_ith_partition n i threads).0 < (get_ith_partition n i threads).1
  pub inside : (i : ℕ) → i < threads → (get_ith_partition n i threads).1 ≤ n
  pub found : (j : ℕ) → j < n → get_partition_idx n j threads < threads

-- A property of sketches that the merges of a round keep.
pub record Merging (Q : ℕ → Sketch → Type 0) : Type 0 where
  pub zeroed : (n : ℕ) (s : Sketch) → Q n s → Q n (zero_contents s)
  pub merged : (n : ℕ) (s o : Sketch) (k : ℕ) → Q n s → Q n o → Q n (range_merge s o k 1)

module _ (n threads : ℕ) (instrs : List MergeInstr) (plan : Plan n threads instrs) where
  abbrev root_at : ℕ → ℕ
  root_at i = (instr_at instrs i).root

  -- The last instruction of a root.
  last_from : (m i : ℕ) → i + suc m ≡ n → (last : ℕ) × (i ≤ last) × LastOf instrs (root_at i) last
  last_from zero i e = (
    i,
    omega arith,
    record {
      inside = omega (arith, plan.vertices);
      own = refl;
      up_to = λ j h. plan.sorted j i h (omega arith);
      after = λ j h h'. absurd (omega (arith, plan.vertices));
      counted = omega (arith, plan.vertices, plan.counted);
      vertices = λ j. omega (arith, plan.children j, plan.counted);
    },
  )
  last_from (suc m) i e = elim (eq-or-ne (root_at (suc i)) (root_at i)) [
    | inl same ↦
        let (last, past, l) = last_from m (suc i) (omega arith) in
        (last, omega arith, subst (λ r. LastOf instrs r last) same l)
    | inr ne ↦ (
      i,
      omega arith,
      record {
        inside = omega (arith, plan.vertices);
        own = refl;
        up_to = λ j h. plan.sorted j i h (omega arith);
        after = λ j h h'. omega (
          arith,
          ne,
          plan.sorted i (suc i) (omega arith) (omega arith),
          plan.sorted (suc i) j (omega arith) (omega (arith, plan.vertices)),
        );
        counted = omega (arith, plan.vertices, plan.counted);
        vertices = λ j. omega (arith, plan.children j, plan.counted);
      },
    )
  ]

  pub partition_of_root :
      (root hint i : ℕ)
      → hint ≤ i
      → i < n
      → root ≡ root_at i
      → find_last_partition_of_root instrs root hint threads < threads
  partition_of_root root hint i h lt e =
      let (last, past, l) = last_from (n - suc i) i (omega arith) in
      let found : find_last_partition_of_root instrs (root_at i) hint threads < threads =
        subst (λ z. z < threads)
          (sym
            (find_last_partition_of_root_lem instrs (root_at i) last l hint threads (omega arith)))
          (word_lt (get_partition_idx (length instrs) last threads) (
            subst (λ z. get_partition_idx z last threads < threads) (sym plan.vertices)
              (plan.found last (omega (arith, l.inside, plan.vertices))))) in
      subst (λ r. find_last_partition_of_root instrs r hint threads < threads) (sym e) found
    where
      word_lt : (x : ℕ) → x < threads → x % 2 ^ 32 < threads
      word_lt x h = omega arith

  -- A thread in front of the instruction `at`, whose own end before `stop`.
  pub record ThreadOk (Q : ℕ → Sketch → Type 0) (stop at : ℕ) (t : Thread) : Type 0 where
    pub here : t.next ≡ at
    pub there : t.end ≡ stop
    pub id : t.thr_id < threads
    pub ends : stop ≤ n
    pub begun : t.start ≤ at
    pub seen : (i : ℕ) × (t.start ≤ i) × (i < n) × (t.cur_root ≡ root_at i)
    pub trusted : Q n t.local_sketch

module _ (hashes : Hashes) (alg : Algorithm) (g : EdgeSet) (Q : ℕ → Sketch → Type 0)
    (trust : Trusts hashes alg g Q) (merging : Merging Q) (n threads : ℕ) (instrs : List MergeInstr)
    (plan : Plan n threads instrs) where
  pub record SharedOk (sh : Shared) : Type 0 where
    pub sound : Sound hashes alg g Q trust sh.state
    pub vertices : sh.state.num_vertices ≡ n
    pub many : length sh.global_merges ≡ threads
    pub trusted : Each (λ (m : GlobalMergeData). Q n m.sketch) sh.global_merges

  abbrev pub Ok : ℕ → ℕ → Shared × Thread → Type 0
  Ok stop at p = SharedOk p.0 × ThreadOk n threads instrs plan Q stop at p.1

  -- The state after a sample.
  abbrev Sampled : Supernode → Type 0
  Sampled s = Sound hashes alg g Q trust s.state × (s.state.num_vertices ≡ n) × Q n s.skt

  supernode-Sampled :
      (failures : List Bool) (sh : Shared) (skt : Sketch)
      → SharedOk sh
      → Q n skt
      → Returns Sampled (sample_supernode hashes alg failures sh.state skt)
  supernode-Sampled failures sh skt ok q =
      let q' = subst (λ z. Q z skt) (sym ok.vertices) q in
      let one = supernode-Gives hashes alg g Q trust failures sh.state skt ok.sound q' in
      record {
        out = one.out;
        returns = one.returns;
        holds = (
          record {
            in_step = one.in_step;
            inside = one.inside;
            sketched = ap length one.same_sketches ∙ ok.sound.sketched ∙ sym one.same_vertices;
            honest =
                subst (λ z. Each (Q z) one.out.state.sketches) (sym one.same_vertices)
                  (subst (Each (Q sh.state.num_vertices)) (sym one.same_sketches) ok.sound.honest);
          },
          one.same_vertices ∙ ok.vertices,
          subst (λ z. Q z one.out.skt) ok.vertices one.honest,
        );
      }

  with_sketch :
      (stop at : ℕ) (t : Thread) (s : Sketch) (x : Bool)
      → ThreadOk n threads instrs plan Q stop at t
      → Q n s
      → ThreadOk n threads instrs plan Q stop at (record t { local_sketch = s; local_except = x })
  with_sketch stop at t s x ok q = record {
    here = ok.here;
    there = ok.there;
    id = ok.id;
    ends = ok.ends;
    begun = ok.begun;
    seen = ok.seen;
    trusted = q;
  }

  pub sample_local-Ok :
      (failures : List Bool) (stop at : ℕ) (sh : Shared) (t : Thread)
      → Ok stop at (sh, t)
      → Returns (Ok stop at) (sample_local hashes alg failures sh t)
  unfolding sample_local noted_local
  sample_local-Ok failures stop at sh t ok =
      Returns-map (noted_local sh t) (sample_supernode hashes alg failures sh.state t.local_sketch)
        (supernode-Sampled failures sh t.local_sketch ok.0 ok.1.trusted)
        (λ s h. (
          record { sound = h.0; vertices = h.1; many = ok.0.many; trusted = ok.0.trusted },
          with_sketch stop at t s.skt (t.local_except || s.except) ok.1 h.2,
        ))

  global_at-trusted :
      (sh : Shared) (id : ℕ) → SharedOk sh → id < threads → Q n (global_at hashes alg sh id).sketch
  unfolding global_at
  global_at-trusted sh id ok h =
      Each-get_or sh.global_merges id _ ok.trusted (omega (arith, ok.many))

  sample_global-Ok :
      (failures : List Bool) (id : ℕ) (stop at : ℕ) (sh : Shared) (t : Thread)
      → id < threads
      → Ok stop at (sh, t)
      → Returns (Ok stop at) (sample_global hashes alg failures id sh t)
  unfolding sample_global noted_global
  sample_global-Ok failures id stop at sh t lt ok =
      let skt = (global_at hashes alg sh id).sketch in
      Returns-map (noted_global id sh t) (sample_supernode hashes alg failures sh.state skt)
        (supernode-Sampled failures sh skt ok.0 (global_at-trusted sh id ok.0 lt))
        (λ s h. (
          record {
            sound = h.0;
            vertices = h.1;
            many = length-modify sh.global_merges id (λ m. record m { sketch = s.skt }) ∙ ok.0.many;
            trusted =
                Each-modify sh.global_merges id (λ m. record m { sketch = s.skt }) (λ m _. h.2)
                  ok.0.trusted;
          },
          with_sketch stop at t t.local_sketch (t.local_except || s.except) ok.1 ok.1.trusted,
        ))

  -- A change of one shared sketch.
  pub change_global :
      (sh : Shared) (id : ℕ) (f : GlobalMergeData → GlobalMergeData)
      → ((m : GlobalMergeData) → Q n m.sketch → Q n (f m).sketch)
      → SharedOk sh
      → SharedOk (record sh { global_merges = modify sh.global_merges id f })
  change_global sh id f keeps ok = record {
    sound = ok.sound;
    vertices = ok.vertices;
    many = length-modify sh.global_merges id f ∙ ok.many;
    trusted = Each-modify sh.global_merges id f keeps ok.trusted;
  }

  pub merge_and_query-Ok :
      (failures : List Bool) (k id : ℕ) (stop at : ℕ) (sh : Shared) (t : Thread)
      → id < threads
      → Ok stop at (sh, t)
      → Returns (Ok stop at) (merge_and_query hashes alg failures k id sh t)
  unfolding merge_and_query merge_global
  merge_and_query-Ok failures k id stop at sh t lt ok =
      let (merged, ready) = merge_global k t.local_sketch (global_at hashes alg sh id) in
      let changed =
        change_global sh id (λ _. merged)
          (λ _ _.
            merging.merged n (global_at hashes alg sh id).sketch t.local_sketch k
              (global_at-trusted sh id ok.0 lt) ok.1.trusted)
          ok.0 in
      let sh' : Shared = record sh { global_merges = modify sh.global_merges id (λ _. merged) } in
      Returns-then (ltb id (length sh.global_merges)) _ _
        (lt→ltb id (length sh.global_merges) (omega (arith, ok.0.many)))
        (Returns-if ready _ _ (λ _. sample_global-Ok failures id stop at sh' t lt (changed, ok.1))
          (λ _. Returns-some (sh', t) (changed, ok.1)))

  pub end_root-Ok :
      (failures : List Bool) (k : ℕ) (stop at : ℕ) (sh : Shared) (t : Thread)
      → Ok stop at (sh, t)
      → Returns (Ok stop at) (end_root hashes alg failures k sh t)
  unfolding end_root left_resolved
  end_root-Ok failures k stop at sh t ok =
      Returns-if t.root_from_left _ _
        (λ _.
          Returns-map left_resolved _
            (merge_and_query-Ok failures k t.thr_id stop at sh t ok.1.id ok)
            (λ p h. (
              h.0,
              record {
                here = h.1.here;
                there = h.1.there;
                id = h.1.id;
                ends = h.1.ends;
                begun = h.1.begun;
                seen = h.1.seen;
                trusted = h.1.trusted;
              },
            )))
        (λ _. sample_local-Ok failures stop at sh t ok)
