-- ===== src/Prelude/Xor.antt =====
-- `^`, `|` and `&` on machine words, at every width. Under `^` the words are a commutative group
-- in which each word is its own inverse, and words below 2 ^ k stay below it.
use Prim.Native.Nat.{ℕ, zero, suc, ◌+◌, ◌*◌, ◌/◌, ◌%◌, ◌^◌, ◌≤◌, ◌<◌}
use Prim.Native.Nat.{bit_xor, digits, bit_xor-bitwise, differ}
use mathlib.Core.Path.{◌≡◌, refl, sym, ap, ◌∙◌}
use native.Mathlib.Nat.{pow-suc}
use native.Mathlib.Omega.{arith}

-- Any two amounts of fuel that reach the word `word` give the same digits.
module _ (rest : ℕ → ℕ) (step : ℕ → ℕ → ℕ) where
  pub same_digits :
      (word other fuel spare : ℕ)
      → word ≤ fuel
      → word ≤ spare
      → digits rest step fuel word other ≡ digits rest step spare word other
  same_digits (suc word) other (suc fuel) (suc spare) reached kept =
      let halved =
        same_digits (suc word / 2) (other / 2) fuel spare (omega (arith, reached))
          (omega (arith, kept)) in
      ap (λ (t : ℕ). t * 2 + step (suc word % 2) (other % 2)) halved
  same_digits (suc word) other fuel zero reached kept = absurd (omega arith)
  same_digits (suc word) other zero (suc spare) reached kept = absurd (omega arith)
  same_digits zero other zero zero reached kept = refl
  same_digits zero other (suc fuel) zero reached kept = refl
  same_digits zero other zero (suc spare) reached kept = refl
  same_digits zero other (suc fuel) (suc spare) reached kept = refl

differ_lem : (a b : ℕ) → a < 2 → b < 2 → differ a b ≡ (a + b) % 2
differ_lem zero b p q = omega arith
differ_lem (suc zero) zero p q = refl
differ_lem (suc zero) (suc zero) p q = refl
differ_lem (suc zero) (suc (suc b)) p q = absurd (omega arith)
differ_lem (suc (suc a)) b p q = absurd (omega arith)

pub zero-bit_xor : (b : ℕ) → bit_xor 0 b ≡ b
zero-bit_xor b = bit_xor-bitwise 0 b

bit_xor_step : (a b : ℕ) → bit_xor a b ≡ bit_xor (a / 2) (b / 2) * 2 + (a % 2 + b % 2) % 2
bit_xor_step zero b = omega (arith, zero-bit_xor b, zero-bit_xor (b / 2))
bit_xor_step (suc a) b = omega (
  arith,
  bit_xor-bitwise (suc a) b,
  bit_xor-bitwise (suc a / 2) (b / 2),
  same_digits (λ y. y) differ (suc a / 2) (b / 2) a (suc a / 2) (omega arith) (omega arith),
  differ_lem (suc a % 2) (b % 2) (omega arith) (omega arith),
)

-- Both halves of a word decide it.
halves : (x y : ℕ) → x / 2 ≡ y / 2 → x % 2 ≡ y % 2 → x ≡ y
halves x y p q = omega arith

bit_xor-half : (a b : ℕ) → bit_xor a b / 2 ≡ bit_xor (a / 2) (b / 2)
bit_xor-half a b = omega (arith, bit_xor_step a b)

bit_xor-mod : (a b : ℕ) → bit_xor a b % 2 ≡ (a % 2 + b % 2) % 2
bit_xor-mod a b = omega (arith, bit_xor_step a b)

comm_below : (n a b : ℕ) → a ≤ n → b ≤ n → bit_xor a b ≡ bit_xor b a
comm_below zero zero zero p q = refl
comm_below zero zero (suc b) p q = absurd (omega arith)
comm_below zero (suc a) b p q = absurd (omega arith)
comm_below (suc n) a b p q = omega (
  arith,
  bit_xor_step a b,
  bit_xor_step b a,
  comm_below n (a / 2) (b / 2) (omega arith) (omega arith),
)

pub bit_xor_comm : (a b : ℕ) → bit_xor a b ≡ bit_xor b a
bit_xor_comm a b = comm_below (a + b) a b (omega arith) (omega arith)

pub bit_xor-zero : (a : ℕ) → bit_xor a 0 ≡ a
bit_xor-zero a = bit_xor_comm a 0 ∙ zero-bit_xor a

self_below : (n a : ℕ) → a ≤ n → bit_xor a a ≡ 0
self_below zero zero p = refl
self_below zero (suc a) p = absurd (omega arith)
self_below (suc n) a p = omega (arith, bit_xor_step a a, self_below n (a / 2) (omega arith))

pub bit_xor_self : (a : ℕ) → bit_xor a a ≡ 0
bit_xor_self a = self_below a a (omega arith)

bit_xor_assoc_mod : (a b c : ℕ) → bit_xor (bit_xor a b) c % 2 ≡ bit_xor a (bit_xor b c) % 2
bit_xor_assoc_mod a b c = omega (
  arith,
  bit_xor-mod (bit_xor a b) c,
  bit_xor-mod a b,
  bit_xor-mod a (bit_xor b c),
  bit_xor-mod b c,
)

assoc_below :
    (n a b c : ℕ) → a ≤ n → b ≤ n → c ≤ n → bit_xor (bit_xor a b) c ≡ bit_xor a (bit_xor b c)
assoc_below zero zero zero zero p q r = refl
assoc_below zero zero zero (suc c) p q r = absurd (omega arith)
assoc_below zero zero (suc b) c p q r = absurd (omega arith)
assoc_below zero (suc a) b c p q r = absurd (omega arith)
assoc_below (suc n) a b c p q r =
    halves (bit_xor (bit_xor a b) c) (bit_xor a (bit_xor b c))
      (rw
        (
          bit_xor-half (bit_xor a b) c,
          bit_xor-half a b,
          bit_xor-half a (bit_xor b c),
          bit_xor-half b c,
        )
        (assoc_below n (a / 2) (b / 2) (c / 2) (omega arith) (omega arith) (omega arith)))
      (bit_xor_assoc_mod a b c)

pub bit_xor_assoc : (a b c : ℕ) → bit_xor (bit_xor a b) c ≡ bit_xor a (bit_xor b c)
bit_xor_assoc a b c = assoc_below (a + b + c) a b c (omega arith) (omega arith) (omega arith)

-- The exclusive or of two k-bit words has k bits.
pub bit_xor-lt : (k a b : ℕ) → a < 2 ^ k → b < 2 ^ k → bit_xor a b < 2 ^ k
bit_xor-lt zero zero zero p q = omega arith
bit_xor-lt zero zero (suc b) p q = absurd (omega arith)
bit_xor-lt zero (suc a) b p q = absurd (omega arith)
bit_xor-lt (suc k) a b p q = omega (
  arith,
  pow-suc 2 k,
  bit_xor_step a b,
  bit_xor-lt k (a / 2) (b / 2) (omega (arith, pow-suc 2 k)) (omega (arith, pow-suc 2 k)),
)

pub bit_xor_cancel : (a b : ℕ) → bit_xor (bit_xor a b) b ≡ a
bit_xor_cancel a b = bit_xor_assoc a b b ∙ ap (bit_xor a) (bit_xor_self b) ∙ bit_xor-zero a

-- Words that differ have an exclusive or that is not 0.
pub eq_of_bit_xor-zero : (a b : ℕ) → bit_xor a b ≡ 0 → a ≡ b
eq_of_bit_xor-zero a b h = sym (bit_xor_cancel a b) ∙ ap (λ (t : ℕ). bit_xor t b) h ∙ zero-bit_xor b
