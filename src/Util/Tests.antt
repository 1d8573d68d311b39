-- ===== src/Util/Tests.antt =====
-- Runs of the functions of src/util.cpp on concrete vertices.
use graph_streaming_cc.Prelude.{ℕ, ◌+◌, ◌*◌, ◌%◌, ◌/◌, ◌-◌, ◌^◌, ◌≡◌, refl, arith}
use graph_streaming_cc.Util.{
  low_of, high_of, concat_pairing_fn, inv_concat_pairing_fn,
  nondirectional_non_self_edge_pairing_fn, inv_nondir_non_self_edge_pairing_fn,
}
use graph_streaming_cc.Util.Concat.{inv_concat-concat}
use graph_streaming_cc.Util.Triangle.{nondirectional-wraps, inv_nondir-nondirectional}

inv_concat-concat_example :
    inv_concat_pairing_fn (concat_pairing_fn 9 4) ≡ record { src = low_of 9 4; dst = high_of 9 4 }
inv_concat-concat_example = inv_concat-concat 9 4 (omega arith) (omega arith)

swapped_index : concat_pairing_fn 9 4 ≡ concat_pairing_fn 4 9
unfolding concat_pairing_fn
swapped_index = refl

abbrev nine : ℕ
nine = 9

abbrev four : ℕ
four = 4

-- A pair whose documented index does not fit 32 bits.
nondirectional-wraps_example :
    nondirectional_non_self_edge_pairing_fn 5 100000
    ≡ (low_of 5 100000 + high_of 5 100000 * (high_of 5 100000 - 1) / 2) % 2 ^ 32
nondirectional-wraps_example = nondirectional-wraps 5 100000 (omega arith) (omega arith)

inv_nondir-nondirectional_example :
    inv_nondir_non_self_edge_pairing_fn (nondirectional_non_self_edge_pairing_fn 3 7)
    ≡ record { src = 3; dst = 7 }
inv_nondir-nondirectional_example = inv_nondir-nondirectional 3 7 (omega arith) (omega arith)
