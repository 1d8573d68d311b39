-- ===== src/Cc/Round/Spent.antt =====
-- The rounds of src/cc_sketch_alg.cpp after the last sample of the sketches: `perform_boruvka_round`
-- then modifies nothing. A round also keeps the members of the state that it does not own.
use graph_streaming_cc.Prelude.{
  ℕ, ◌-◌, ◌≤◌, ◌<◌, ◌≡◌, sym, ap, ap₂, subst, ◌∙◌, inl, inr, arith, Bool, true, false, ◌||◌, ltb,
  ◌==◌, if◌then◌else◌, List, modify, length, length-modify, ltb→lt, Always, no_result, result,
  Always-map, Always-bind, Always-if, Always-weaken,
}
use graph_streaming_cc.Bucket.{Hashes}
use graph_streaming_cc.Sketch.{
  calc_vector_length, Shape, Sketch, bucket_at, range_merge, zero_contents,
}
use graph_streaming_cc.Sketch.Sample.{is_empty}
use graph_streaming_cc.Sketch.Update.{Algorithm}
use graph_streaming_cc.Sketch.Fresh.{
  shape-zero_contents, num_samples-new_sketch, num_buckets-new_sketch, bucket_at-new_sketch,
}
use graph_streaming_cc.Sketch.Merge.{zero_contents_last}
use graph_streaming_cc.Sketch.Merge.Range.{shape-range_merge, range_merge_spent}
use graph_streaming_cc.Cc.{CcSketchAlg, empty_sketch, vertex_sketch, default_cols_per_sample}
use graph_streaming_cc.Cc.Query.{sample_supernode}
use graph_streaming_cc.Cc.Query.Flags.{
  SameFlags, SameFlags-trans, Silent, sample_supernode-Sampling,
}
use graph_streaming_cc.Cc.Query.Rounds.{Each, Each-get_or, Each-modify}
use graph_streaming_cc.Cc.Partition.{MergeInstr, instr_at, find_last_partition_of_root}
use graph_streaming_cc.Cc.Round.{
  GlobalMergeData, Thread, Shared, merge_global, noted_local, noted_global, announce, leave,
  change_root, left_resolved, global_at, sample_local, sample_global, merge_and_query, end_root,
  merge_child, visit, after_loop, thread_step,
}

pub num_samples-empty_sketch :
    (hashes : Hashes) (alg : Algorithm) (c : CcSketchAlg)
    → (empty_sketch hashes alg c).num_samples ≡ c.num_samples
unfolding vertex_sketch
num_samples-empty_sketch hashes alg c =
    num_samples-new_sketch (calc_vector_length c.num_vertices) c.seed c.num_samples
      (default_cols_per_sample alg)

pub num_buckets-empty_sketch :
    (hashes : Hashes) (alg : Algorithm) (c : CcSketchAlg)
    → 0 < (empty_sketch hashes alg c).num_buckets
unfolding vertex_sketch
num_buckets-empty_sketch hashes alg c =
    num_buckets-new_sketch (calc_vector_length c.num_vertices) c.seed c.num_samples
      (default_cols_per_sample alg)

pub empty_sketch-Silent :
    (hashes : Hashes) (alg : Algorithm) (c : CcSketchAlg) → Silent (empty_sketch hashes alg c)
unfolding Silent vertex_sketch
empty_sketch-Silent hashes alg c = inr (
    ap is_empty (
      bucket_at-new_sketch (calc_vector_length c.num_vertices) c.seed c.num_samples
        (default_cols_per_sample alg) ((empty_sketch hashes alg c).num_buckets - 1)))

module _ (hashes : Hashes) (alg : Algorithm) (c : CcSketchAlg) (k : ℕ) where
  abbrev pub blank : Sketch
  blank = empty_sketch hashes alg c

  -- A sketch of the query's shape, silent in a round after the last sample.
  pub record Quiet (s : Sketch) : Type 0 where
    pub shaped : s.shape ≡ blank.shape
    pub silent : c.num_samples ≤ k → Silent s

  pub record SharedQuiet (sh : Shared) : Type 0 where
    pub flags : SameFlags c sh.state
    pub still : c.num_samples ≤ k → sh.modified ≡ false
    pub quiet : Each (λ (m : GlobalMergeData). Quiet m.sketch) sh.global_merges

  abbrev pub Ok : Shared × Thread → Type 0
  Ok p = SharedQuiet p.0 × Quiet p.1.local_sketch

  sample-Quiet :
      (failures : List Bool) (sh : Shared) (skt : Sketch)
      → SharedQuiet sh
      → Quiet skt
      → Always
          (λ s.
            SameFlags c s.state
            × (c.num_samples ≤ k → (sh.modified || s.modified) ≡ false)
            × Quiet s.skt)
          (sample_supernode hashes alg failures sh.state skt)
  sample-Quiet failures sh skt ok q =
      Always-weaken _ (sample_supernode-Sampling hashes alg failures sh.state skt) (λ s h. (
        SameFlags-trans ok.flags h.flags,
        (λ past. ap₂ ◌||◌ (ok.still past) (h.unmodified (q.silent past))),
        record { shaped = h.shaped ∙ q.shaped; silent = λ past. h.silent (q.silent past) },
      ))

  sample_local-Ok :
      (failures : List Bool) (sh : Shared) (t : Thread)
      → Ok (sh, t)
      → Always Ok (sample_local hashes alg failures sh t)
  unfolding sample_local noted_local
  sample_local-Ok failures sh t ok =
      Always-map (noted_local sh t) _ (sample-Quiet failures sh t.local_sketch ok.0 ok.1)
        (λ s h. (record { flags = h.0; still = h.1; quiet = ok.0.quiet }, h.2))

  global_at-Quiet :
      (sh : Shared) (id : ℕ)
      → SharedQuiet sh
      → id < length sh.global_merges
      → Quiet (global_at hashes alg sh id).sketch
  unfolding global_at
  global_at-Quiet sh id ok h = Each-get_or sh.global_merges id _ ok.quiet h

  change_global :
      (sh : Shared) (id : ℕ) (f : GlobalMergeData → GlobalMergeData)
      → ((m : GlobalMergeData) → Quiet m.sketch → Quiet (f m).sketch)
      → SharedQuiet sh
      → SharedQuiet (record sh { global_merges = modify sh.global_merges id f })
  change_global sh id f keeps ok = record {
    flags = ok.flags;
    still = ok.still;
    quiet = Each-modify sh.global_merges id f keeps ok.quiet;
  }

  sample_global-Ok :
      (failures : List Bool) (id : ℕ) (sh : Shared) (t : Thread)
      → id < length sh.global_merges
      → Ok (sh, t)
      → Always Ok (sample_global hashes alg failures id sh t)
  unfolding sample_global noted_global
  sample_global-Ok failures id sh t lt ok =
      Always-map (noted_global id sh t) _
        (sample-Quiet failures sh (global_at hashes alg sh id).sketch ok.0
          (global_at-Quiet sh id ok.0 lt))
        (λ s h. (
          record {
            flags = h.0;
            still = h.1;
            quiet =
                Each-modify sh.global_merges id (λ m. record m { sketch = s.skt }) (λ m _. h.2)
                  ok.0.quiet;
          },
          ok.1,
        ))

  merged-Quiet : (s o : Sketch) → Quiet s → Quiet (range_merge s o k 1)
  unfolding Silent
  merged-Quiet s o q = record {
    shaped = shape-range_merge s o k 1 ∙ q.shaped;
    silent = λ past. inl (range_merge_spent s o k 1 (omega (arith, past, samples)));
  }
    where
      samples : s.num_samples ≡ c.num_samples
      samples = ap (λ (z : Shape). z.num_samples) q.shaped ∙ num_samples-empty_sketch hashes alg c

  pub zeroed-Quiet : (s : Sketch) → s.shape ≡ blank.shape → Quiet (zero_contents s)
  unfolding Silent
  zeroed-Quiet s shaped = record {
    shaped = shape-zero_contents s ∙ shaped;
    silent = λ past. inr (
        subst (λ (z : Shape). is_empty (bucket_at (zero_contents s) (z.num_buckets - 1)) ≡ true)
          (sym (shape-zero_contents s))
          (ap is_empty (
            zero_contents_last s (
              subst (λ (z : Shape). 0 < z.num_buckets) (sym shaped)
                (num_buckets-empty_sketch hashes alg c)))));
  }

  merge_and_query-Ok :
      (failures : List Bool) (id : ℕ) (sh : Shared) (t : Thread)
      → Ok (sh, t)
      → Always Ok (merge_and_query hashes alg failures k id sh t)
  unfolding merge_and_query merge_global
  merge_and_query-Ok failures id sh t ok =
      let (merged, ready) = merge_global k t.local_sketch (global_at hashes alg sh id) in
      let sh' : Shared = record sh { global_merges = modify sh.global_merges id (λ _. merged) } in
      Always-if (ltb id (length sh.global_merges)) _ _
        (λ e.
          let inside = ltb→lt _ _ e in
          let changed =
            change_global sh id (λ _. merged)
              (λ _ _.
                merged-Quiet (global_at hashes alg sh id).sketch t.local_sketch
                  (global_at-Quiet sh id ok.0 inside))
              ok.0 in
          Always-if ready _ _
            (λ _.
              sample_global-Ok failures id sh' t
                (omega (arith, inside, length-modify sh.global_merges id (λ _. merged)))
                (changed, ok.1))
            (λ _. result (sh', t) (changed, ok.1)))
        (λ _. no_result)

  end_root-Ok :
      (failures : List Bool) (sh : Shared) (t : Thread)
      → Ok (sh, t)
      → Always Ok (end_root hashes alg failures k sh t)
  unfolding end_root left_resolved
  end_root-Ok failures sh t ok =
      Always-if t.root_from_left _ _
        (λ _. Always-map left_resolved _ (merge_and_query-Ok failures t.thr_id sh t ok) (λ p h. h))
        (λ _. sample_local-Ok failures sh t ok)

  merge_child-Ok :
      (child : ℕ) (p : Shared × Thread) → Ok p → Always Ok (merge_child hashes alg k child p)
  unfolding merge_child
  merge_child-Ok child (sh, t) ok =
      Always-if (ltb child (length sh.state.sketches)) _ _
        (λ _. result _ (ok.0, merged-Quiet t.local_sketch _ ok.1)) (λ _. no_result)

  visit-Ok :
      (failures : List Bool) (instrs : List MergeInstr) (sh : Shared) (t : Thread)
      → Ok (sh, t)
      → Always Ok (visit hashes alg failures k instrs sh t)
  unfolding visit change_root
  visit-Ok failures instrs sh t ok =
      let instr = instr_at instrs t.next in
      Always-if (ltb t.next (length instrs)) _ _
        (λ _.
          Always-bind _ (merge_child hashes alg k instr.child)
            (Always-if (instr.root == t.cur_root) _ _ (λ _. result (sh, t) ok)
              (λ _.
                Always-map (change_root instr.root) _ (end_root-Ok failures sh t ok)
                  (λ p h. (h.0, zeroed-Quiet p.1.local_sketch h.1.shaped))))
            (λ p h. merge_child-Ok instr.child p h))
        (λ _. no_result)

  announce-Quiet :
      (id : ℕ) (sh : Shared) (t : Thread) → SharedQuiet sh → SharedQuiet (announce id sh t)
  unfolding announce
  announce-Quiet id sh t ok = either t.root_from_left sh _ ok (change_global sh id _ (λ m q. q) ok)
    where
      either :
          (b : Bool) (x y : Shared)
          → SharedQuiet x
          → SharedQuiet y
          → SharedQuiet (if b then x else y)
      either true x y hx hy = hx
      either false x y hx hy = hy

  pub thread_step-Ok :
      (failures : List Bool) (instrs : List MergeInstr) (threads : ℕ) (sh : Shared) (t : Thread)
      → Ok (sh, t)
      → Always Ok (thread_step hashes alg failures k instrs threads sh t)
  unfolding thread_step after_loop leave
  thread_step-Ok failures instrs threads sh t ok =
      let id = find_last_partition_of_root instrs t.cur_root t.start threads in
      Always-if t.finished _ _ (λ _. result (sh, t) ok)
        (λ _.
          Always-if (ltb t.next t.end) _ _ (λ _. visit-Ok failures instrs sh t ok)
            (λ _.
              Always-map leave _
                (Always-if (t.root_exits_right || t.root_from_left) _ _
                  (λ _.
                    merge_and_query-Ok failures id (announce id sh t) t
                      (announce-Quiet id sh t ok.0, ok.1))
                  (λ _. sample_local-Ok failures sh t ok))
                (λ p h. (record { flags = h.0.flags; still = h.0.still; quiet = h.0.quiet }, h.1))))
