-- ===== src/Cc/Partition/Tests.antt =====
-- The division among threads in src/cc_sketch_alg.cpp on small numbers.
use graph_streaming_cc.Prelude.{◌^◌, ◌≡◌, ◌^◌, refl, List, [], ◌∷◌}
use graph_streaming_cc.Cc.Partition.{
  MergeInstr, get_ith_partition, get_partition_idx, div_double, ceil_mul, round_div, scale_from,
  excess_from,
}

-- Where the last of seven threads ends on 29 vertices: one past the last vertex.
last_range : get_ith_partition 29 6 7 ≡ (25, 30)
unfolding get_ith_partition div_double ceil_mul round_div scale_from excess_from
last_range = refl

-- The index that begins range 7 of 14 is mapped to range 6.
begins_seventh : get_ith_partition 18 7 14 ≡ (9, 11)
unfolding get_ith_partition div_double ceil_mul round_div scale_from excess_from
begins_seventh = refl

maps_to_sixth : get_partition_idx 18 9 14 ≡ 6
unfolding get_partition_idx div_double round_div scale_from
maps_to_sixth = refl

abbrev instructions : List MergeInstr
instructions =
    record { root = 1; child = 0 }
    ∷ record { root = 1; child = 1 }
    ∷ record { root = 2; child = 2 }
    ∷ []

-- Two threads on four vertices.
pub halves : (get_ith_partition 4 0 2 ≡ (0, 2)) × (get_ith_partition 4 1 2 ≡ (2, 4))
unfolding get_ith_partition div_double ceil_mul round_div scale_from excess_from
halves = (refl, refl)

pub half_of :
    (get_partition_idx 4 0 2 ≡ 0)
    × (get_partition_idx 4 1 2 ≡ 0)
    × (get_partition_idx 4 2 2 ≡ 1)
    × (get_partition_idx 4 3 2 ≡ 1)
unfolding get_partition_idx div_double round_div scale_from
half_of = (refl, refl, refl, refl)
