-- ===== src/Cc/Instructions/Tests.antt =====
-- `create_merge_instructions` of src/cc_sketch_alg.cpp on small graphs.
use graph_streaming_cc.Prelude.{ℕ, ◌≡◌, refl, none, some, [], ◌∷◌}
use graph_streaming_cc.Dsu.{Dsu, find_root, find_loop}
use graph_streaming_cc.Cc.Partition.{
  MergeInstr, get_ith_partition, div_double, ceil_mul, round_div, scale_from, excess_from,
}
use graph_streaming_cc.Cc.Instructions.{
  create_merge_instructions, collect_all, collect_ccs, add_child, range_of, all_claims,
  claims_in_order, claim_at, claim, claim_next, left_over, finish_prefix, prefix_range,
  rest_of_range, range_sums, next_range_sum, add_range_sum, write_claims, write_vertices, claims_of,
}

abbrev instr : ℕ → ℕ → MergeInstr
instr root child = record { root = root; child = child }

abbrev joined : Dsu
joined = record { n = 4; parent = 2 ∷ 1 ∷ 2 ∷ 2 ∷ []; priority = 1 ∷ 2 ∷ 9 ∷ 4 ∷ [] }

-- Two threads; the second claims first.
grouped :
    create_merge_instructions
      (λ ccs. ccs)
      2
      (1 ∷ 0 ∷ 0 ∷ [])
      4
      joined
      (instr 0 0 ∷ instr 1 1 ∷ instr 2 2 ∷ instr 3 3 ∷ [])
    ≡ some (joined, instr 1 1 ∷ instr 2 2 ∷ instr 2 3 ∷ instr 2 0 ∷ [])
unfolding create_merge_instructions collect_all collect_ccs add_child range_of all_claims
    claims_in_order claim_at claim claim_next left_over finish_prefix prefix_range rest_of_range
    range_sums next_range_sum add_range_sum write_claims write_vertices claims_of get_ith_partition
    div_double ceil_mul round_div scale_from excess_from find_root find_loop
grouped = refl

-- Three vertices that nothing joins, and eight threads, of which five have an empty range: the sums
-- of the ranges count some vertices twice, and a write goes past the end.
abbrev apart : Dsu
apart = record { n = 3; parent = 0 ∷ 1 ∷ 2 ∷ []; priority = 1 ∷ 2 ∷ 9 ∷ [] }

past_the_end :
    create_merge_instructions (λ ccs. ccs) 8 [] 3 apart (instr 0 0 ∷ instr 1 1 ∷ instr 2 2 ∷ [])
    ≡ none
unfolding create_merge_instructions collect_all collect_ccs add_child range_of all_claims
    claims_in_order claim_at claim claim_next left_over finish_prefix prefix_range rest_of_range
    range_sums next_range_sum add_range_sum write_claims write_vertices claims_of get_ith_partition
    div_double ceil_mul round_div scale_from excess_from find_root find_loop
past_the_end = refl
