-- ===== src/Util.antt =====
-- src/util.cpp: the functions that pack an edge into an index and unpack it. `node_id_t` is a
-- 32-bit word and `edge_id_t` a 64-bit word.
pub mod Tests
pub mod Concat
pub mod Triangle
use graph_streaming_cc.Prelude.{
  ℕ, zero, suc, ◌+◌, ◌-◌, ◌*◌, ◌/◌, ◌%◌, ◌^◌, bit_and, bit_or, ltb, leb, ◌==◌, if◌then◌else◌,
}

abbrev pub u32 : ℕ → ℕ
u32 n = n % 2 ^ 32

abbrev pub u64 : ℕ → ℕ
u64 n = n % 2 ^ 64

-- The `Edge` of the stream library: two vertices.
pub record Edge : Type 0 where
  pub src : ℕ
  pub dst : ℕ

-- `if (i > j) std::swap(i, j)`, as the two values that it leaves.
unfoldable pub low_of : ℕ → ℕ → ℕ
low_of i j = if ltb j i then j else i

unfoldable pub high_of : ℕ → ℕ → ℕ
high_of i j = if ltb j i then i else j

pub concat_pairing_fn : ℕ → ℕ → ℕ
unfolding low_of high_of
concat_pairing_fn i j = bit_or (u64 (low_of i j * 2 ^ 32)) (high_of i j)

unfoldable pub inv_concat_pairing_fn : ℕ → Edge
inv_concat_pairing_fn idx = record { src = u32 (idx / 2 ^ 32); dst = u32 (bit_and idx 0xFFFFFFFF) }

-- After the swap. `jm` is a 64-bit word; `j` stays a 32-bit word, so `j *= jm` and `i + j` wrap.
pub triangle_index : ℕ → ℕ → ℕ
triangle_index i j =
    let jm = u64 (j + 2 ^ 64 - 1) in
    if j % 2 == 0 then u32 (i + u32 (u64 (j / 2 * jm))) else u32 (i + u32 (u64 (j * (jm / 2))))

pub nondirectional_non_self_edge_pairing_fn : ℕ → ℕ → ℕ
unfolding low_of high_of triangle_index
nondirectional_non_self_edge_pairing_fn i j = triangle_index (low_of i j) (high_of i j)

-- The whole part of the square root. `sqrt` in `double` has it exactly below 2 ^ 52, which covers
-- the index of every pair of 32-bit vertices whose index fits 32 bits.
pub isqrt : ℕ → ℕ
isqrt zero = 0
isqrt (suc n) = let r = isqrt n in if leb ((r + 1) * (r + 1)) (suc n) then r + 1 else r

pub inv_nondir_non_self_edge_pairing_fn : ℕ → Edge
unfolding isqrt
inv_nondir_non_self_edge_pairing_fn idx =
    let j = (isqrt (u64 (8 * idx + 1)) + 1) / 2 in
    let base = if j % 2 == 0 then u64 (j / 2 * (j - 1)) else u64 (j * ((j - 1) / 2)) in
    record { src = u32 (u64 (idx + 2 ^ 64 - base)); dst = u32 j }
