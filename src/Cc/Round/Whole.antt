-- ===== src/Cc/Round/Whole.antt =====
-- `CCSketchAlg::perform_boruvka_round` (src/cc_sketch_alg.cpp) from its start to its end.
use graph_streaming_cc.Prelude.{
  ℕ, zero, suc, ◌+◌, ◌≤◌, ◌<◌, ◌≡◌, refl, sym, ap, subst, ◌∙◌, arith, Bool, true, List, [], ◌∷◌,
  map, length, range_from, Returns, Returns-some, Returns-map, Returns-bind, Returns-then,
}
use graph_streaming_cc.Graph.{EdgeSet}
use graph_streaming_cc.Bucket.{Hashes}
use graph_streaming_cc.Sketch.{Sketch}
use graph_streaming_cc.Sketch.Update.{Algorithm}
use graph_streaming_cc.Cc.{CcSketchAlg, empty_sketch}
use graph_streaming_cc.Cc.Query.{RoundState}
use graph_streaming_cc.Cc.Query.Rounds.{
  Each, each, no_more, Each-map, Trusts, Sound, run_round_zero-Sound,
}
use graph_streaming_cc.Cc.Partition.{MergeInstr, get_ith_partition}
use graph_streaming_cc.Cc.Round.{
  GlobalMergeData, Thread, restart_global, begin_thread, reads_inside, start_thread, start_threads,
  perform_boruvka_round, of_round_zero,
}
use graph_streaming_cc.Cc.Round.Kept.{Plan, Merging, SharedOk}
use graph_streaming_cc.Cc.Round.Runs.{GoodThread, run_threads-Ended}

length-map : {A B : Type 0} (f : A → B) (xs : List A) → length (map f xs) ≡ length xs
length-map f [] = refl
length-map f (x ∷ xs) = ap suc (length-map f xs)

Each-range :
    {P : ℕ → Type 0} (lo m hi : ℕ)
    → lo + m ≡ hi
    → ((i : ℕ) → i < hi → P i)
    → Each P (range_from lo m)
Each-range lo zero hi e h = no_more
Each-range lo (suc m) hi e h =
    each lo (range_from (suc lo) m) (h lo (omega arith)) (Each-range (suc lo) m hi (omega arith) h)

reads_inside_lem :
    (instrs : List MergeInstr) (start end n : ℕ)
    → start < end
    → end ≤ n
    → length instrs ≡ n
    → reads_inside n instrs (start, end) ≡ true
unfolding reads_inside
reads_inside_lem instrs start end n h h' e = ground arith

module _ (hashes : Hashes) (alg : Algorithm) (g : EdgeSet) (Q : ℕ → Sketch → Type 0)
    (trust : Trusts hashes alg g Q) (merging : Merging Q) (n threads : ℕ) (instrs : List MergeInstr)
    (plan : Plan n threads instrs) where
  abbrev Begun : Thread → Type 0
  Begun = GoodThread hashes alg g Q trust merging n threads instrs plan

  start_thread-Begun :
      (blank : Sketch) (i : ℕ)
      → Q n blank
      → i < threads
      → Returns Begun (start_thread blank n instrs threads i)
  unfolding start_thread begin_thread
  start_thread-Begun blank i q lt =
      let range = get_ith_partition n i threads in
      Returns-then _ _ _
        (reads_inside_lem instrs range.0 range.1 n (plan.filled i lt) (plan.inside i lt)
          plan.vertices)
        (Returns-some _ (
          range.1,
          range.0,
          record {
            here = refl;
            there = refl;
            id = lt;
            ends = plan.inside i lt;
            begun = omega arith;
            seen = (range.0, omega arith, omega (arith, plan.filled i lt, plan.inside i lt), refl);
            trusted = q;
          },
        ))

  start_threads-Begun :
      (blank : Sketch) (is : List ℕ)
      → Q n blank
      → Each (λ i. i < threads) is
      → Returns (Each Begun) (start_threads blank n instrs threads is)
  unfolding start_threads
  start_threads-Begun blank [] q no_more = Returns-some [] no_more
  start_threads-Begun blank (i ∷ is) q (each _ _ lt lts) =
      Returns-bind (start_thread blank n instrs threads i) _ (start_thread-Begun blank i q lt)
        (λ t h.
          Returns-bind (start_threads blank n instrs threads is) _
            (start_threads-Begun blank is q lts) (λ ts hs. Returns-some (t ∷ ts) (each t ts h hs)))

  later_round :
      (k : ℕ) (c : CcSketchAlg) (global_merges : List GlobalMergeData)
      (schedule : List (ℕ × List Bool))
      → Sound hashes alg g Q trust c
      → c.num_vertices ≡ n
      → Q n (empty_sketch hashes alg c)
      → length global_merges ≡ threads
      → Each (λ (m : GlobalMergeData). Q n m.sketch) global_merges
      → Returns
          (SharedOk hashes alg g Q trust merging n threads instrs plan)
          (perform_boruvka_round hashes alg threads (suc k) instrs global_merges c schedule)
  unfolding perform_boruvka_round restart_global
  later_round k c global_merges schedule sound vertices q many trusted =
      Returns-bind _ _
        (subst
          (λ z.
            Returns (Each Begun)
              (start_threads (empty_sketch hashes alg c) z instrs threads (range_from 0 threads)))
          (sym vertices)
          (start_threads-Begun (empty_sketch hashes alg c) (range_from 0 threads) q
            (Each-range 0 threads threads (omega arith) (λ i lt. lt))))
        (λ ts begun.
          Returns-map _ _
            (run_threads-Ended hashes alg g Q trust merging n threads instrs plan (suc k) _ ts
              schedule
              (record {
                sound = sound;
                vertices = vertices;
                many = length-map restart_global global_merges ∙ many;
                trusted =
                    Each-map global_merges restart_global (λ m h. merging.zeroed n m.sketch h)
                      trusted;
              })
              begun)
            (λ p h. h.0))

  -- On a plan whose instructions come in the order of their roots and give every thread some of
  -- them, inside the array and found by get_partition_idx as their thread's, on sketches whose good samples are edges of `g`, and on iterations that visit vertices: a round
  -- returns under any schedule of its threads. The sets of `dsu` are then what the stored edges
  -- connect, the stored edges are edges of `g`, and every sketch, also the shared ones, is as
  -- before one whose good samples are edges of `g`.
  pub perform_boruvka_round_lem :
      (k : ℕ) (c : CcSketchAlg) (global_merges : List GlobalMergeData)
      (schedule : List (ℕ × List Bool))
      → Sound hashes alg g Q trust c
      → c.num_vertices ≡ n
      → Q n (empty_sketch hashes alg c)
      → length global_merges ≡ threads
      → Each (λ (m : GlobalMergeData). Q n m.sketch) global_merges
      → Each (λ (p : ℕ × List Bool). p.0 < n) schedule
      → Returns
          (SharedOk hashes alg g Q trust merging n threads instrs plan)
          (perform_boruvka_round hashes alg threads k instrs global_merges c schedule)
  unfolding perform_boruvka_round of_round_zero
  perform_boruvka_round_lem zero c global_merges schedule sound vertices q many trusted visits =
      let gives =
        run_round_zero-Sound hashes alg g Q trust c schedule sound
          (subst (λ z. Each (λ (p : ℕ × List Bool). p.0 < z) schedule) (sym vertices) visits) in
      Returns-map
        {P = λ (r : RoundState hashes alg).
          Sound hashes alg g Q trust r.state × (r.state.num_vertices ≡ c.num_vertices)}
        (of_round_zero hashes alg global_merges) _
        (record {
          out = gives.final;
          returns = gives.returns;
          holds = (gives.sound, gives.same_vertices);
        })
        (λ r h. record { sound = h.0; vertices = h.1 ∙ vertices; many = many; trusted = trusted })
  perform_boruvka_round_lem (suc k) c global_merges schedule sound vertices q many trusted visits =
      later_round k c global_merges schedule sound vertices q many trusted
