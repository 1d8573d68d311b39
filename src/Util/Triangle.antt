-- ===== src/Util/Triangle.antt =====
-- The triangular pair of functions, whose products wrap at 32 bits.
use native.Mathlib.Nat.{mul-le-mul}
use graph_streaming_cc.Prelude.{
  ℕ, zero, suc, ◌+◌, ◌-◌, ◌*◌, ◌/◌, ◌%◌, ◌^◌, ◌≤◌, ◌<◌, ◌≡◌, refl, ◌⊎◌, inl, inr, ⊎_elim, arith, ap,
  ◌∙◌,
}
use graph_streaming_cc.Util.{
  u64, low_of, high_of, triangle_index, nondirectional_non_self_edge_pairing_fn, isqrt,
  inv_nondir_non_self_edge_pairing_fn,
}

-- A product of two neighbours is even: one of them is.
even_product : (j : ℕ) → j % 2 ≡ 0 → j * (j - 1) ≡ 2 * (j / 2 * (j - 1))
even_product j e =
    let twice : j ≡ 2 * (j / 2) = omega arith in ap (λ (t : ℕ). t * (j - 1)) twice ∙ omega arith

odd_product : (j : ℕ) → j % 2 ≡ 1 → j * (j - 1) ≡ 2 * (j * ((j - 1) / 2))
odd_product j e =
    let twice : j - 1 ≡ 2 * ((j - 1) / 2) = omega arith in ap (λ (t : ℕ). j * t) twice ∙ omega arith

-- So its half is taken on the even factor.
even_half : (j : ℕ) → j % 2 ≡ 0 → j / 2 * (j - 1) ≡ j * (j - 1) / 2
even_half j e = omega (arith, even_product j e)

odd_half : (j : ℕ) → j % 2 ≡ 1 → j * ((j - 1) / 2) ≡ j * (j - 1) / 2
odd_half j e = omega (arith, odd_product j e)

products_fit : (a b : ℕ) → a < 2 ^ 32 → b < 2 ^ 32 → a * b < 2 ^ 64
products_fit a b p q =
    let bound : a * b ≤ (2 ^ 32 - 1) * (2 ^ 32 - 1) =
      mul-le-mul {n₂ = 2 ^ 32 - 1} {m₂ = 2 ^ 32 - 1} (omega arith) (omega arith) in
    omega arith

parity : (j : ℕ) → (j % 2 ≡ 0) ⊎ (j % 2 ≡ 1)
parity j = omega arith

triangle_index_lem :
    (i j : ℕ) → i ≤ j → j < 2 ^ 32 → triangle_index i j ≡ (i + j * (j - 1) / 2) % 2 ^ 32
unfolding triangle_index
triangle_index_lem zero zero h lt = refl
triangle_index_lem (suc i) zero h lt = absurd (omega arith)
triangle_index_lem i (suc j) h lt =
    let jm : u64 (suc j + 2 ^ 64 - 1) ≡ suc j - 1 = omega arith in
    let small : suc j / 2 * (suc j - 1) < 2 ^ 64 =
      products_fit (suc j / 2) (suc j - 1) (omega arith) (omega arith) in
    let large : suc j * ((suc j - 1) / 2) < 2 ^ 64 =
      products_fit (suc j) ((suc j - 1) / 2) (omega arith) (omega arith) in
    rw jm (elim (parity (suc j)) [
      | inl e ↦ rw e (omega (arith, small, even_half (suc j) e))
      | inr e ↦ rw e (omega (arith, large, odd_half (suc j) e))
    ])

-- For 32-bit vertices the result is the index that the header documents, i + j * (j - 1) / 2 with
-- i the smaller vertex, cut off to 32 bits.
pub nondirectional-wraps :
    (i j : ℕ)
    → i < 2 ^ 32
    → j < 2 ^ 32
    → nondirectional_non_self_edge_pairing_fn i j
      ≡ (low_of i j + high_of i j * (high_of i j - 1) / 2) % 2 ^ 32
unfolding nondirectional_non_self_edge_pairing_fn low_of high_of
nondirectional-wraps i j p q = ground (arith, triangle_index_lem i j, triangle_index_lem j i)

-- The root is the largest number whose square does not exceed `n`.
isqrt_lem : (n : ℕ) → (isqrt n * isqrt n ≤ n) × (n < (isqrt n + 1) * (isqrt n + 1))
unfolding isqrt
isqrt_lem zero = omega arith
isqrt_lem (suc n) = ground (arith, isqrt_lem n)

square_mono : (a b : ℕ) → a ≤ b → a * a ≤ b * b
square_mono a b h = mul-le-mul h h

root_between : (a b n : ℕ) → a * a ≤ n → n < b * b → (a ≤ isqrt n) × (isqrt n < b)
root_between a b n p q = (
  ⊎_elim (λ h. h)
      (λ (h : isqrt n + 1 ≤ a). absurd (omega (arith, isqrt_lem n, square_mono (isqrt n + 1) a h)))
      (omega arith),
  ⊎_elim (λ h. h)
      (λ (h : b ≤ isqrt n). absurd (omega (arith, isqrt_lem n, square_mono b (isqrt n) h)))
      (omega arith),
)

-- 8 * (i + k * (k + 1) / 2) + 1 lies between the squares of 2k + 1 and 2k + 3.
root_of_index : (i k t : ℕ) → i ≤ k → 2 * t ≡ suc k * k → (isqrt (8 * (i + t) + 1) + 1) / 2 ≡ suc k
root_of_index i k t h e =
    let bounds =
      root_between (2 * k + 1) (2 * k + 3) (8 * (i + t) + 1) (omega arith) (omega arith) in
    omega (arith, bounds)

triangle_twice : (k : ℕ) → 2 * (suc k * (suc k - 1) / 2) ≡ suc k * k
triangle_twice k =
    let down : suc k * (suc k - 1) ≡ suc k * k = ap (λ (t : ℕ). suc k * t) (omega arith) in
    ⊎_elim (λ e. omega (arith, down, even_product (suc k) e))
      (λ e. omega (arith, down, odd_product (suc k) e)) (parity (suc k))

-- Unpacking, once the larger end is known.
unpack_lem :
    (idx k : ℕ)
    → idx < 2 ^ 32
    → suc k < 2 ^ 32
    → (isqrt (8 * idx + 1) + 1) / 2 ≡ suc k
    → suc k * (suc k - 1) / 2 ≤ idx
    → inv_nondir_non_self_edge_pairing_fn idx
      ≡ record { src = idx - suc k * (suc k - 1) / 2; dst = suc k }
unfolding inv_nondir_non_self_edge_pairing_fn
unpack_lem idx k small k_small root below =
    let no_wrap : u64 (8 * idx + 1) ≡ 8 * idx + 1 = omega arith in
    rw (no_wrap, root)
      (elim (parity (suc k)) [
        | inl e ↦ rw e (ground (arith, even_half (suc k) e))
        | inr e ↦ rw e (ground (arith, odd_half (suc k) e))
      ])

large_index : (j : ℕ) → 2 ^ 17 ≤ j → 2 ^ 32 ≤ j * (j - 1) / 2
large_index j h =
    let product : 2 ^ 17 * (2 ^ 17 - 1) ≤ j * (j - 1) =
      mul-le-mul {m₁ = 2 ^ 17 - 1} h (omega arith) in
    omega arith

-- Where the documented index fits 32 bits, unpacking it gives the two ends back, in order.
pub inv_nondir-nondirectional :
    (i j : ℕ)
    → i < j
    → i + j * (j - 1) / 2 < 2 ^ 32
    → inv_nondir_non_self_edge_pairing_fn (nondirectional_non_self_edge_pairing_fn i j)
      ≡ record { src = i; dst = j }
unfolding low_of high_of
inv_nondir-nondirectional i zero h fits = absurd (omega arith)
inv_nondir-nondirectional i (suc k) h fits =
    let small : suc k < 2 ^ 17 =
      ⊎_elim (λ (l : suc k < 2 ^ 17). l)
        (λ (l : 2 ^ 17 ≤ suc k). absurd (omega (arith, large_index (suc k) l))) (omega arith) in
    let index : nondirectional_non_self_edge_pairing_fn i (suc k) ≡ i + suc k * (suc k - 1) / 2 =
      ground (arith, nondirectional-wraps i (suc k)) in
    let root = root_of_index i k (suc k * (suc k - 1) / 2) (omega arith) (triangle_twice k) in
    rw index (
      unpack_lem (i + suc k * (suc k - 1) / 2) k fits (omega arith) root (omega arith)
      ∙ ground arith)
