-- ===== src/Dsu/Order.antt =====
-- The order by priority, ties broken by the smaller id: a strict total order on the items.
use Prim.Native.Nat.{suc-le-suc}
use graph_streaming_cc.Prelude.{
  ℕ, zero, suc, ◌≤◌, ◌<◌, ◌≡◌, ◌≢◌, ◌⊎◌, inl, inr, arith, Bool, true, false, if◌then◌else◌,
  eq-or-ne, List,
}
use graph_streaming_cc.Dsu.{outranks, order_edge}

module _ (prio : List ℕ) where
  -- `order_edge` puts the item that outranks the other first.
  pub order_edge_lem :
      (a b : ℕ) → a ≢ b → order_edge prio a b ≡ (if outranks prio a b then (a, b) else (b, a))
  unfolding order_edge
  order_edge_lem a b ne = ground arith

  pub outranks_total : (a b : ℕ) → a ≢ b → (outranks prio a b ≡ true) ⊎ (outranks prio b a ≡ true)
  outranks_total a b ne = ground arith

  pub outranks_trans :
      (a b c : ℕ) → outranks prio a b ≡ true → outranks prio b c ≡ true → outranks prio a c ≡ true
  outranks_trans a b c p q = ground arith

  pub outranks_irrefl : (a : ℕ) → outranks prio a a ≡ false
  outranks_irrefl a = ground arith

-- How many numbers below k pass a test.
pub count_below : (ℕ → Bool) → ℕ → ℕ
count_below f zero = 0
count_below f (suc k) = if f k then suc (count_below f k) else count_below f k

pub count_below-le : (f : ℕ → Bool) (k : ℕ) → count_below f k ≤ k
unfolding count_below
count_below-le f zero = omega arith
count_below-le f (suc k) = ground (arith, count_below-le f k)

pub count_below_mono :
    (f g : ℕ → Bool) (k : ℕ)
    → ((i : ℕ) → f i ≡ true → g i ≡ true)
    → count_below f k ≤ count_below g k
unfolding count_below
count_below_mono f g zero h = omega arith
count_below_mono f g (suc k) h = ground (arith, h k, count_below_mono f g k h)

-- A number that passes the second test alone makes the count larger.
pub count_below_strict :
    (f g : ℕ → Bool) (k w : ℕ)
    → ((i : ℕ) → f i ≡ true → g i ≡ true)
    → w < k
    → f w ≡ false
    → g w ≡ true
    → count_below f k < count_below g k
unfolding count_below
count_below_strict f g zero w h lt fw gw = absurd (omega arith)
count_below_strict f g (suc k) w h lt fw gw = elim (eq-or-ne w k) [
  | inl e ↦ rw (← e, fw, gw) (suc-le-suc (count_below_mono f g w h))
  | inr ne ↦ ground (arith, h k, count_below_strict f g k w h (omega arith) fw gw)
]
