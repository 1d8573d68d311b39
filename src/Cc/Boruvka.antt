-- ===== src/Cc/Boruvka.antt =====
-- The queries of src/cc_sketch_alg.cpp: `boruvka_emulation`, `connected_components`,
-- `calc_spanning_forest` and `point_query`, with the state that an exception leaves. What depends on
-- the machine is a record of choices for each round.
pub mod Ends
pub mod Cached
pub mod Locked
pub mod Tests
use graph_streaming_cc.Prelude.{
  ◌>>=◌, ℕ, zero, suc, Bool, true, false, ◌==◌, Option, none, some, List, map, replicate,
  range_from,
}
use graph_streaming_cc.Bucket.{Hashes}
use graph_streaming_cc.Sketch.Update.{Algorithm}
use graph_streaming_cc.Dsu.{Dsu, find_root}
use graph_streaming_cc.Cc.{CcSketchAlg, empty_sketch}
use graph_streaming_cc.Cc.Query.{start_boruvka, reset_samples}
use graph_streaming_cc.Cc.Partition.{MergeInstr}
use graph_streaming_cc.Cc.Round.{GlobalMergeData, Shared, new_global, perform_boruvka_round}
use graph_streaming_cc.Cc.Instructions.{LocalCc, create_merge_instructions}
use graph_streaming_cc.Components.{
  ConnectedComponents, new_components, SpanningForest, new_spanning_forest,
}

-- The number of threads, and of each round the order of their steps and of their claims. `iterate`
-- is the order in which a hash map lists its entries.
pub record Choices : Type 0 where
  pub threads : ℕ
  pub schedule : ℕ → List (ℕ × List Bool)
  pub claims : ℕ → List ℕ
  pub iterate : List LocalCc → List LocalCc

-- A call that returns, or throws the `OutOfSamplesException` of a sketch, with the state it leaves;
-- or has a step without a result, which accesses an array out of bounds or whose `find_root` comes
-- to no end; or the fuel for its rounds is not enough.
pub data Query {ℓ} (A : Type ℓ) : Type ℓ where
  returned : CcSketchAlg → A → Query A
  thrown : CcSketchAlg → Query A
  no_result : Query A
  no_fuel : Query A

pub then_query {ℓ κ} : {A : Type ℓ} {B : Type κ} → (CcSketchAlg → A → Query B) → Query A → Query B
then_query f (returned c a) = f c a
then_query f (thrown c) = thrown c
then_query f no_result = no_result
then_query f no_fuel = no_fuel

pub if_result {ℓ κ} : {A : Type ℓ} {B : Type κ} → (A → Query B) → Option A → Query B
if_result f none = no_result
if_result f (some a) = f a

-- `sketches[i]->reset_sample_state()` of every vertex, also after an exception.
pub reset_after {ℓ} : {A : Type ℓ} → Query A → Query A
reset_after (returned c a) = returned (reset_samples c) a
reset_after (thrown c) = thrown (reset_samples c)
reset_after no_result = no_result
reset_after no_fuel = no_fuel

-- The end of `boruvka_emulation`.
pub end_boruvka : ℕ → CcSketchAlg → CcSketchAlg
end_boruvka round_num c = record c {
  last_query_rounds = round_num;
  dsu_valid = true;
  shared_dsu_valid = true;
  update_locked = false;
}

-- `merge_instr[i] = {i, i}`
pub first_instructions : ℕ → List MergeInstr
first_instructions num_vertices =
    map (λ i. record { root = i; child = i }) (range_from 0 num_vertices)

-- The roots of both vertices, one after the other.
pub same_root : Dsu → (a b : ℕ) → Option (Dsu × Bool)
same_root d a b = do (d', ra) ← find_root d a; (d'', rb) ← find_root d' b; some (d'', ra == rb)

module _ (hashes : Hashes) (alg : Algorithm) (choices : Choices) where
  -- `if (!modified) break;`, or the instructions of the next round, which goes on.
  pub by_modified :
      (CcSketchAlg → List MergeInstr → List GlobalMergeData → Query (Unit {0}))
      → ℕ
      → List MergeInstr
      → Shared
      → Bool
      → Query (Unit {0})
  unfolding end_boruvka if_result
  by_modified go_on round_num merge_instr sh false = returned (end_boruvka round_num sh.state) tt
  by_modified go_on round_num merge_instr sh true =
      if_result
        (λ (p : Dsu × List MergeInstr). go_on (record sh.state { dsu = p.0 }) p.1 sh.global_merges)
        (create_merge_instructions choices.iterate choices.threads (choices.claims round_num)
          sh.state.num_vertices sh.state.dsu merge_instr)

  -- The exception of a round is thrown again.
  pub by_except :
      (CcSketchAlg → List MergeInstr → List GlobalMergeData → Query (Unit {0}))
      → ℕ
      → List MergeInstr
      → Shared
      → Bool
      → Query (Unit {0})
  unfolding by_modified
  by_except go_on round_num merge_instr sh true = thrown sh.state
  by_except go_on round_num merge_instr sh false =
      by_modified go_on round_num merge_instr sh sh.modified

  pub boruvka_loop :
      (fuel round_num : ℕ) → CcSketchAlg → List MergeInstr → List GlobalMergeData → Query (Unit {0})
  unfolding by_except if_result
  boruvka_loop zero round_num c merge_instr global_merges = no_fuel
  boruvka_loop (suc fuel) round_num c merge_instr global_merges =
      if_result
        (λ (sh : Shared).
          by_except (boruvka_loop fuel (suc round_num)) round_num merge_instr sh sh.except)
        (perform_boruvka_round hashes alg choices.threads round_num merge_instr global_merges c
          (choices.schedule round_num))

  -- `boruvka_emulation`, with fuel for two rounds more than a sketch has samples.
  pub boruvka_emulation : CcSketchAlg → Query (Unit {0})
  unfolding boruvka_loop first_instructions
  boruvka_emulation c =
      boruvka_loop (suc (suc c.num_samples)) 0 (start_boruvka c) (first_instructions c.num_vertices)
        (replicate choices.threads (new_global (empty_sketch hashes alg c)))

  -- The cached answer, or a new one.
  pub make_valid : Bool → CcSketchAlg → Query (Unit {0})
  unfolding boruvka_emulation reset_after
  make_valid true c = returned c tt
  make_valid false c = reset_after (boruvka_emulation c)

  -- `connected_components`; the list is the order of the loop that reads the answer off `dsu`.
  pub connected_components : List ℕ → CcSketchAlg → Query ConnectedComponents
  unfolding make_valid then_query if_result
  connected_components order c =
      then_query
        (λ c' _.
          if_result (λ (p : Dsu × ConnectedComponents). returned (record c' { dsu = p.0 }) p.1)
            (new_components c'.num_vertices c'.dsu order))
        (make_valid c.shared_dsu_valid c)

  pub calc_spanning_forest : List ℕ → CcSketchAlg → Query SpanningForest
  unfolding connected_components then_query
  calc_spanning_forest order c =
      then_query (λ c' _. returned c' (new_spanning_forest c'.num_vertices c'.spanning_forest))
        (connected_components order c)

  pub point_query : (a b : ℕ) → CcSketchAlg → Query Bool
  unfolding make_valid then_query if_result same_root
  point_query a b c =
      then_query
        (λ c' _.
          if_result (λ (p : Dsu × Bool). returned (record c' { dsu = p.0 }) p.1)
            (same_root c'.dsu a b))
        (make_valid c.dsu_valid c)
