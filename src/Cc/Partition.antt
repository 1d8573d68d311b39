-- ===== src/Cc/Partition.antt =====
-- The division of the merge instructions among the threads of a round, in src/cc_sketch_alg.cpp:
-- `MergeInstr`, `get_ith_partition`, `get_partition_idx` and `find_last_partition_of_root`.
pub mod Search
pub mod Tests
use graph_streaming_cc.Prelude.{
  ℕ, zero, suc, ◌+◌, ◌-◌, ◌*◌, ◌/◌, ◌%◌, ◌^◌, Bool, true, false, ◌&&◌, ◌||◌, ltb, leb, ◌==◌,
  if◌then◌else◌, not, List, get_or, length,
}

pub record MergeInstr : Type 0 where
  pub root : ℕ
  pub child : ℕ

-- `operator<`
unfoldable pub instr_less : MergeInstr → MergeInstr → Bool
instr_less a b = if a.root == b.root then ltb a.child b.child else ltb a.root b.root

-- A `double` that is not negative: `mantissa / 2 ^ scale`, with a mantissa of at most 53 bits.
pub record Double : Type 0 where
  pub mantissa : ℕ
  pub scale : ℕ

-- The quotient, rounded to the nearest, halves to even.
unfoldable pub round_div : ℕ → ℕ → ℕ
round_div a b =
    let q = a / b in
    let r = a % b in if ltb b (2 * r) || (2 * r == b && q % 2 == 1) then q + 1 else q

-- The scale at which a quotient has 53 bits.
unfoldable pub scale_from : ℕ → ℕ → ℕ → ℕ → ℕ
scale_from zero scale a b = scale
scale_from (suc fuel) scale a b =
    let more = scale_from fuel (suc scale) a b in
    if ltb (a * 2 ^ suc scale / b) (2 ^ 53) then more else scale

-- `(double) a / b`, of positive numbers whose quotient is below 2 ^ 53.
unfoldable pub div_double : ℕ → ℕ → Double
unfolding round_div scale_from
div_double a b =
    let scale = scale_from 128 0 a b in
    record { mantissa = round_div (a * 2 ^ scale) b; scale = scale }

-- The bits of a product beyond the 53 that are kept.
unfoldable pub excess_from : ℕ → ℕ → ℕ → ℕ
excess_from zero bits n = bits
excess_from (suc fuel) bits n =
    let more = excess_from fuel (suc bits) n in if ltb (n / 2 ^ bits) (2 ^ 53) then bits else more

-- `ceil(d * i)`
unfoldable pub ceil_mul : Double → ℕ → ℕ
unfolding round_div excess_from
ceil_mul d i =
    let bits = excess_from 64 0 (d.mantissa * i) in
    (round_div (d.mantissa * i) (2 ^ bits) * 2 ^ bits + 2 ^ d.scale - 1) / 2 ^ d.scale

unfoldable pub get_ith_partition : ℕ → ℕ → ℕ → ℕ × ℕ
unfolding div_double ceil_mul
get_ith_partition length i divisions =
    let div_factor = div_double length divisions in
    (ceil_mul div_factor i % 2 ^ 32, ceil_mul div_factor (i + 1) % 2 ^ 32)

-- `idx / div_factor`, of a number that the quotient of two others divides.
pub get_partition_idx : ℕ → ℕ → ℕ → ℕ
unfolding div_double
get_partition_idx length idx divisions =
    let div_factor = div_double length divisions in
    let quotient = div_double (idx * 2 ^ div_factor.scale) div_factor.mantissa in
    if idx == 0 then 0 else quotient.mantissa / 2 ^ quotient.scale

abbrev pub instr_at : List MergeInstr → ℕ → MergeInstr
instr_at merge_instr i = get_or merge_instr i (record { root = 0; child = 0 })

-- The loop of `find_last_partition_of_root`.
pub search_loop : ℕ → List MergeInstr → MergeInstr → ℕ → ℕ → ℕ
unfolding instr_less
search_loop zero merge_instr target min max = min
search_loop (suc fuel) merge_instr target min max =
    let mid = min + (max - min) / 2 in
    let right = search_loop fuel merge_instr target (mid + 1) max in
    let left = search_loop fuel merge_instr target min mid in
    if ltb min max
    then (if instr_less (instr_at merge_instr mid) target then right else left)
    else min

-- The index that it finds, a 32-bit word, with as much fuel as there are instructions.
pub last_of_root : List MergeInstr → ℕ → ℕ → ℕ
unfolding search_loop
last_of_root merge_instr root min_hint =
    let target : MergeInstr = record { root = root; child = 2 ^ 32 - 1 } in
    let min =
      search_loop (length merge_instr) merge_instr target min_hint (length merge_instr - 1) in
    if (instr_at merge_instr min).root == root then min else (min + 2 ^ 32 - 1) % 2 ^ 32

-- The thread, a `size_t`, is returned as a 32-bit word.
pub find_last_partition_of_root : List MergeInstr → (root min_hint num_threads : ℕ) → ℕ
unfolding last_of_root get_partition_idx
find_last_partition_of_root merge_instr root min_hint num_threads =
    get_partition_idx (length merge_instr) (last_of_root merge_instr root min_hint) num_threads
    % 2 ^ 32
