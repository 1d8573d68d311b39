-- ===== src/Dsu/Merge.antt =====
-- `merge` joins exactly the two sets of its arguments.
pub mod Calls
pub mod Weak
use graph_streaming_cc.Prelude.{
  ℕ, ◌≤◌, ◌<◌, ◌≡◌, ◌≢◌, refl, sym, ap, ◌∙◌, ◌⊎◌, inl, inr, ⊎_elim, ◌↔◌, arith, Bool, true, false,
  ◌==◌, if◌then◌else◌, List, set, subst, Option, some, Bool-cases, ==→eq, ==-false→ne,
}
use graph_streaming_cc.Dsu.{
  Dsu, DsuMergeRet, at, outranks, order_edge, find_root, link, merge, not_merged,
}
use graph_streaming_cc.Dsu.Order.{order_edge_lem, outranks_total}
use graph_streaming_cc.Dsu.Forest.{Root, here, up, Root-IsRoot, Root-unique, Root-of}
use graph_streaming_cc.Dsu.Link.{
  linked, a_stays, redirect, redirect_child, redirect_other, link-IsForest, Root-link,
}
use graph_streaming_cc.Dsu.Sets.{
  IsDsu, HasRoot, SameSet, SameSet_sym, SameSet_trans, KeepsRoots, KeepsRoots-trans,
  KeepsRoots-SameSet, backward, find_root_lem,
}

-- Two items are in one set once those of `u` and `v` are joined.
abbrev pub Joined : Dsu → ℕ → ℕ → ℕ → ℕ → Type 0
Joined d u v x y = SameSet d x y ⊎ (SameSet d x u × SameSet d y v) ⊎ (SameSet d x v × SameSet d y u)

-- What a merge promises of its result.
pub record Merged (d : Dsu) (u v : ℕ) (e : Dsu) (ret : DsuMergeRet) : Type 0 where
  pub items : e.n ≡ d.n
  pub order : e.priority ≡ d.priority
  pub forest : IsDsu e
  pub joins : (x y : ℕ) → x < d.n → y < d.n → SameSet e x y ↔ Joined d u v x y
  pub reports : (ret.merged ≡ true) ↔ ¬ SameSet d u v
  pub child_lem :
      ret.merged ≡ true → (at e.parent ret.child ≡ ret.root) × (at e.parent ret.root ≡ ret.root)

redirect_cases :
    (a b r s : ℕ)
    → redirect a b r ≡ redirect a b s
    → (r ≡ s) ⊎ ((r ≡ a) × (s ≡ b)) ⊎ ((r ≡ b) × (s ≡ a))
unfolding redirect
redirect_cases a b r s h = ground arith

redirect_joins :
    (a b r s : ℕ) → (r ≡ a) × (s ≡ b) ⊎ (r ≡ b) × (s ≡ a) → redirect a b r ≡ redirect a b s
unfolding redirect
redirect_joins a b r s h = ground arith

module _ (d : Dsu) (forest : IsDsu d) (a b : ℕ) (a_item : a < d.n) (b_item : b < d.n)
    (a_root : at d.parent a ≡ a) (b_root : at d.parent b ≡ b)
    (above : outranks d.priority a b ≡ true) (ne : a ≢ b) where
  abbrev after : Dsu
  after = record d { parent = set d.parent b a }

  abbrev Sides : ℕ → ℕ → Type 0
  Sides x y = HasRoot d a x × HasRoot d b y ⊎ HasRoot d b x × HasRoot d a y

  root_after : (r x : ℕ) → HasRoot d r x → HasRoot after (redirect a b r) x
  root_after r x root = Root-link forest a_item b_item a_root b_root above ne r x root

  link_splits : (x y : ℕ) → x < d.n → y < d.n → SameSet after x y → SameSet d x y ⊎ Sides x y
  link_splits x y hx hy (t, p, q) =
      let (r, _, root_x) = Root-of forest x hx in
      let (s, _, root_y) = Root-of forest y hy in
      let same = Root-unique (root_after r x root_x) p ∙ Root-unique q (root_after s y root_y) in
      elim (redirect_cases a b r s same) [
        | inl e ↦ inl (r, root_x, subst (λ t. HasRoot d t y) (sym e) root_y)
        | inr sides ↦ inr (elim sides [
          | inl (e, f) ↦
              inl (subst (λ t. HasRoot d t x) e root_x, subst (λ t. HasRoot d t y) f root_y)
          | inr (e, f) ↦
              inr (subst (λ t. HasRoot d t x) e root_x, subst (λ t. HasRoot d t y) f root_y)
        ])
      ]

  link_joins : (x y : ℕ) → SameSet d x y ⊎ Sides x y → SameSet after x y
  link_joins x y (inl (r, p, q)) = (redirect a b r, root_after r x p, root_after r y q)
  link_joins x y (inr (inl (p, q))) = (
    redirect a b a,
    root_after a x p,
    subst (λ t. HasRoot after t y) (redirect_joins a b b a (inr (refl, refl))) (root_after b y q),
  )
  link_joins x y (inr (inr (p, q))) = (
    redirect a b b,
    root_after b x p,
    subst (λ t. HasRoot after t y) (redirect_joins a b a b (inl (refl, refl))) (root_after a y q),
  )

  module _ (u v : ℕ) (ends : HasRoot d a u × HasRoot d b v ⊎ HasRoot d b u × HasRoot d a v) where
    sides_joined :
        (x y : ℕ) → Sides x y → (SameSet d x u × SameSet d y v) ⊎ (SameSet d x v × SameSet d y u)
    sides_joined x y (inl (p, q)) = elim ends [
      | inl (k, l) ↦ inl ((a, p, k), (b, q, l))
      | inr (k, l) ↦ inr ((a, p, l), (b, q, k))
    ]
    sides_joined x y (inr (p, q)) = elim ends [
      | inl (k, l) ↦ inr ((b, p, l), (a, q, k))
      | inr (k, l) ↦ inl ((b, p, k), (a, q, l))
    ]

    -- The root of an item in the set of one whose root is known.
    root_like : (r x z : ℕ) → HasRoot d r z → SameSet d x z → HasRoot d r x
    root_like r x z root (s, p, q) = subst (λ t. HasRoot d t x) (Root-unique q root) p

    joined-Sides :
        (x y : ℕ) → (SameSet d x u × SameSet d y v) ⊎ (SameSet d x v × SameSet d y u) → Sides x y
    joined-Sides x y (inl (p, q)) = elim ends [
      | inl (k, l) ↦ inl (root_like a x u k p, root_like b y v l q)
      | inr (k, l) ↦ inr (root_like b x u k p, root_like a y v l q)
    ]
    joined-Sides x y (inr (p, q)) = elim ends [
      | inl (k, l) ↦ inr (root_like b x v l p, root_like a y u k q)
      | inr (k, l) ↦ inl (root_like a x v l p, root_like b y u k q)
    ]

    apart : ¬ SameSet d u v
    apart (r, p, q) = elim ends [
      | inl (k, l) ↦ ne (Root-unique k p ∙ Root-unique q l)
      | inr (k, l) ↦ ne (Root-unique l q ∙ Root-unique p k)
    ]

    pub link_Merged : Merged d u v after (record { merged = true; root = a; child = b })
    link_Merged = record {
      items = refl;
      order = refl;
      forest = link-IsForest forest a_item b_item a_root b_root above ne;
      joins = λ x y hx hy. (
        λ same. ⊎_elim inl (λ sides. inr (sides_joined x y sides)) (link_splits x y hx hy same),
        λ joined. link_joins x y (⊎_elim inl (λ j. inr (joined-Sides x y j)) joined),
      );
      reports = (λ _. apart, λ _. refl);
      child_lem = λ _. (
        linked forest a_item b_item a_root b_root above ne,
        a_stays forest a_item b_item a_root b_root above ne,
      );
    }
