-- ===== src/Util/Concat.antt =====
-- The concatenating pair of functions: inverse to one another on ordered edges.
use graph_streaming_cc.Prelude.{
  bit_or, ℕ, ◌+◌, ◌*◌, ◌/◌, ◌%◌, ◌^◌, ◌≤◌, ◌<◌, ◌≡◌, ◌⊎◌, arith, bit_or-shift, bit_and-low_mask,
}
use graph_streaming_cc.Util.{u64, low_of, high_of, concat_pairing_fn, inv_concat_pairing_fn}

pub concat-as_sum :
    (i j : ℕ) → i < 2 ^ 32 → j < 2 ^ 32 → concat_pairing_fn i j ≡ low_of i j * 2 ^ 32 + high_of i j
unfolding concat_pairing_fn
concat-as_sum i j p q = ground (arith, bit_or-shift 32 i j, bit_or-shift 32 j i)

pub inv_concat-as_fields :
    (idx : ℕ)
    → idx < 2 ^ 64
    → inv_concat_pairing_fn idx ≡ record { src = idx / 2 ^ 32; dst = idx % 2 ^ 32 }
unfolding inv_concat_pairing_fn
inv_concat-as_fields idx p = ground (arith, bit_and-low_mask 32 idx)

-- Unpacking the index of two 32-bit vertices gives them back, the smaller one first.
pub inv_concat-concat :
    (i j : ℕ)
    → i < 2 ^ 32
    → j < 2 ^ 32
    → inv_concat_pairing_fn (concat_pairing_fn i j) ≡ record { src = low_of i j; dst = high_of i j }
unfolding low_of high_of
inv_concat-concat i j p q =
    let fits : low_of i j * 2 ^ 32 + high_of i j < 2 ^ 64 = ground arith in
    rw (concat-as_sum i j p q, inv_concat-as_fields (low_of i j * 2 ^ 32 + high_of i j) fits)
      (ground arith)

-- Packing the edge that a 64-bit index unpacks to gives the index back, if the edge's ends are in
-- order.
pub concat-inv_concat :
    (idx : ℕ)
    → idx < 2 ^ 64
    → (inv_concat_pairing_fn idx).src ≤ (inv_concat_pairing_fn idx).dst
    → concat_pairing_fn (inv_concat_pairing_fn idx).src (inv_concat_pairing_fn idx).dst ≡ idx
unfolding low_of high_of
concat-inv_concat idx p ordered =
    let parts = inv_concat-as_fields idx p in
    ground (arith, parts, concat-as_sum (idx / 2 ^ 32) (idx % 2 ^ 32))

-- Two edges of 32-bit vertices with the same index have the same ends.
concat-injective :
    (i j k l : ℕ)
    → i < 2 ^ 32
    → j < 2 ^ 32
    → k < 2 ^ 32
    → l < 2 ^ 32
    → concat_pairing_fn i j ≡ concat_pairing_fn k l
    → ((i ≡ k) × (j ≡ l)) ⊎ ((i ≡ l) × (j ≡ k))
unfolding low_of high_of
concat-injective i j k l p q r s same = ground (arith, concat-as_sum i j p q, concat-as_sum k l r s)

low_of-swap : (i j : ℕ) → low_of i j ≡ low_of j i
unfolding low_of
low_of-swap i j = ground arith

high_of-swap : (i j : ℕ) → high_of i j ≡ high_of j i
unfolding high_of
high_of-swap i j = ground arith

-- The index does not depend on the order of the ends.
pub concat_comm : (i j : ℕ) → concat_pairing_fn i j ≡ concat_pairing_fn j i
unfolding concat_pairing_fn
concat_comm i j = λ k. bit_or (u64 (low_of-swap i j k * 2 ^ 32)) (high_of-swap i j k)
