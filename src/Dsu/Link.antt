-- ===== src/Dsu/Link.antt =====
-- Linking one root below another, the step that joins two sets.
use graph_streaming_cc.Prelude.{
  ℕ, ◌<◌, ◌≡◌, ◌≢◌, refl, sym, ap, ◌∙◌, ◌⊎◌, inl, inr, arith, true, ◌==◌, eq-or-ne, List, set,
  length-set, subst, if◌then◌else◌,
}
use graph_streaming_cc.Dsu.{at, outranks}
use graph_streaming_cc.Dsu.Forest.{IsForest, Root, here, up, Root-IsRoot, Root-of_self}
use graph_streaming_cc.Dsu.Find.{at-set_self, at-set_ne}

-- The root of an item once `b` hangs below `a`, from its root before.
unfoldable pub redirect : ℕ → ℕ → ℕ → ℕ
redirect a b r = if r == b then a else r

pub redirect_child : (a b r : ℕ) → r ≡ b → redirect a b r ≡ a
unfolding redirect
redirect_child a b r e = ground arith

pub redirect_other : (a b r : ℕ) → r ≢ b → redirect a b r ≡ r
unfolding redirect
redirect_other a b r ne = ground arith

module _ {prio : List ℕ} {n : ℕ} {p : List ℕ} (forest : IsForest prio n p) {a b : ℕ}
    (a_item : a < n) (b_item : b < n) (a_root : at p a ≡ a) (b_root : at p b ≡ b)
    (above : outranks prio a b ≡ true) (ne : a ≢ b) where
  pub linked : at (set p b a) b ≡ a
  linked = at-set_self p b a (omega (arith, forest.size))

  pub a_stays : at (set p b a) a ≡ a
  a_stays = at-set_ne p b a a (λ e. ne (sym e)) ∙ a_root

  pub link-IsForest : IsForest prio n (set p b a)
  link-IsForest = record {
    size = length-set p b a ∙ forest.size;
    closed = λ v h. elim (eq-or-ne b v) [
      | inl e ↦ subst (λ w. at (set p b a) w < n) e (rw linked a_item)
      | inr other ↦ rw (at-set_ne p b a v other) (forest.closed v h)
    ];
    rises = λ v h. elim (eq-or-ne b v) [
      | inl e ↦
          subst (λ w. (at (set p b a) w ≡ w) ⊎ (outranks prio (at (set p b a) w) w ≡ true)) e
            (rw linked (inr above))
      | inr other ↦ rw (at-set_ne p b a v other) (forest.rises v h)
    ];
  }

  Root-child : Root (set p b a) a b
  Root-child = up (rw linked (here refl a_stays))

  Root-redirected : (r v : ℕ) → v ≡ r → at p r ≡ r → Root (set p b a) (redirect a b r) v
  Root-redirected r v e self = elim (eq-or-ne r b) [
    | inl is_b ↦
        rw (redirect_child a b r is_b) (subst (Root (set p b a) a) (sym (e ∙ is_b)) Root-child)
    | inr other ↦
        rw (redirect_other a b r other) (here e (at-set_ne p b a r (λ x. other (sym x)) ∙ self))
  ]

  -- Every root is redirected: that of `b` becomes `a`, the others stay.
  pub Root-link : (r v : ℕ) → Root p r v → Root (set p b a) (redirect a b r) v
  Root-link r v (here e self) = Root-redirected r v e self
  Root-link r v (up rest) = elim (eq-or-ne b v) [
    | inl e ↦
        let self : at p v ≡ v = ap (at p) (sym e) ∙ b_root ∙ e in
        Root-redirected r v (sym self ∙ Root-of_self (ap (at p) self) rest) (Root-IsRoot rest)
    | inr other ↦ up (rw (at-set_ne p b a v other) (Root-link r (at p v) rest))
  ]
