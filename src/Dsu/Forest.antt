-- ===== src/Dsu/Forest.antt =====
-- The forest that the parent pointers form, and the root that each item has in it.
use graph_streaming_cc.Prelude.{
  ℕ, zero, suc, ◌<◌, ◌≡◌, refl, sym, ap, ◌∙◌, ◌⊎◌, inl, inr, arith, true, List, length, subst,
}
use graph_streaming_cc.Dsu.{at, outranks}
use graph_streaming_cc.Dsu.Order.{
  outranks_trans, outranks_irrefl, count_below, count_below-le, count_below_strict,
}

-- Every parent is an item, and a parent that is another item outranks its child.
pub record IsForest (prio : List ℕ) (n : ℕ) (p : List ℕ) : Type 0 where
  pub size : length p ≡ n
  pub closed : (u : ℕ) → u < n → at p u < n
  pub rises : (u : ℕ) → u < n → (at p u ≡ u) ⊎ (outranks prio (at p u) u ≡ true)

-- `r` is the root that the pointers lead to from an item.
pub data Root (p : List ℕ) (r : ℕ) : ℕ → Type 0 where
  here : {u : ℕ} → u ≡ r → at p r ≡ r → Root p r u
  up : {u : ℕ} → Root p r (at p u) → Root p r u

pub Root-IsRoot : {p : List ℕ} {r u : ℕ} → Root p r u → at p r ≡ r
Root-IsRoot (here e self) = self
Root-IsRoot (up rest) = Root-IsRoot rest

pub Root-of_self : {p : List ℕ} {r u : ℕ} → at p u ≡ u → Root p r u → u ≡ r
Root-of_self self (here e _) = e
Root-of_self {p} self (up rest) = sym self ∙ Root-of_self (ap (at p) self) rest

pub Root-unique : {p : List ℕ} {r s u : ℕ} → Root p r u → Root p s u → r ≡ s
Root-unique (here e self) q = Root-of_self self (subst (Root _ _) e q)
Root-unique {p} (up rest) (here e self) =
    let parent_is = ap (at p) e ∙ self in
    sym (Root-of_self (ap (at p) parent_is ∙ self ∙ sym parent_is) rest) ∙ parent_is
Root-unique (up rest) (up other) = Root-unique rest other

-- How many items outrank an item: no more than it can climb.
pub height : List ℕ → ℕ → ℕ → ℕ
height prio n u = count_below (λ v. outranks prio v u) n

module _ {prio : List ℕ} {n : ℕ} {p : List ℕ} (forest : IsForest prio n p) where
  pub height-lt : (u : ℕ) → u < n → height prio n u < n
  unfolding height
  height-lt u h = omega (
    arith,
    count_below_strict (λ v. outranks prio v u) (λ v. true) n u (λ i e. refl) h
        (outranks_irrefl prio u) refl,
    count_below-le (λ v. true) n,
  )

  pub height-outranks :
      (a u : ℕ) → a < n → outranks prio a u ≡ true → height prio n a < height prio n u
  unfolding height
  height-outranks a u h above =
      count_below_strict (λ v. outranks prio v a) (λ v. outranks prio v u) n a
        (λ i e. outranks_trans prio i a u e above) h (outranks_irrefl prio a) above

  Root-climb : (fuel u : ℕ) → height prio n u < fuel → u < n → (r : ℕ) × (r < n) × Root p r u
  Root-climb zero u h lt = absurd (omega arith)
  Root-climb (suc fuel) u h lt = elim (forest.rises u lt) [
    | inl self ↦ (u, lt, here refl self)
    | inr above ↦
        let closer = height-outranks (at p u) u (forest.closed u lt) above in
        let (r, small, rest) = Root-climb fuel (at p u) (omega arith) (forest.closed u lt) in
        (r, small, up rest)
  ]

  -- Every item has a root.
  pub Root-of : (u : ℕ) → u < n → (r : ℕ) × (r < n) × Root p r u
  Root-of u h = Root-climb n u (height-lt u h) h
