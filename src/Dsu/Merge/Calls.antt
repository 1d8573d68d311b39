-- ===== src/Dsu/Merge/Calls.antt =====
-- The calls `DisjointSetUnion::merge` and `DisjointSetUnion_MT::merge`.
use graph_streaming_cc.Prelude.{
  ℕ, ◌<◌, ◌≡◌, ◌≢◌, refl, sym, ◌∙◌, ◌⊎◌, inl, inr, ⊎_elim, arith, true, ◌==◌, subst, some,
  Bool-cases, ==→eq, ==-false→ne,
}
use graph_streaming_cc.Dsu.{
  Dsu, DsuMergeRet, outranks, order_edge, find_root, link, merge, not_merged,
}
use graph_streaming_cc.Dsu.Order.{order_edge_lem, outranks_total}
use graph_streaming_cc.Dsu.Forest.{Root-IsRoot}
use graph_streaming_cc.Dsu.Sets.{
  IsDsu, HasRoot, SameSet, SameSet_sym, SameSet_trans, KeepsRoots, KeepsRoots-trans,
  KeepsRoots-SameSet, find_root_lem,
}
use graph_streaming_cc.Dsu.Merge.{Joined, Merged, link_Merged}

-- Two items of one set are left as they are.
not_merged-Merged : (d : Dsu) (u v : ℕ) → IsDsu d → SameSet d u v → Merged d u v d not_merged
not_merged-Merged d u v forest same = record {
  items = refl;
  order = refl;
  forest = forest;
  joins = λ x y hx hy. (
    inl,
    λ joined. elim joined [
      | inl already ↦ already
      | inr sides ↦ elim sides [
        | inl (p, q) ↦ SameSet_trans d x v y (SameSet_trans d x u v p same) (SameSet_sym d y v q)
        | inr (p, q) ↦
            SameSet_trans d x u y (SameSet_trans d x v u p (SameSet_sym d u v same))
              (SameSet_sym d y u q)
      ]
    ],
  );
  reports = (λ h. cc, λ n. absurd (n same));
  child_lem = λ h. cc;
}

-- What was promised of a state with the same roots.
pub Merged-keeps :
    (d d' : Dsu) (u v : ℕ) (e : Dsu) (ret : DsuMergeRet)
    → IsDsu d
    → u < d.n
    → v < d.n
    → KeepsRoots d d'
    → Merged d' u v e ret
    → Merged d u v e ret
Merged-keeps d d' u v e ret forest hu hv k m =
    let same =
      λ (x y : ℕ) (hx : x < d.n) (hy : y < d.n). KeepsRoots-SameSet d d' forest k x y hx hy in
    record {
      items = m.items ∙ k.items;
      order = m.order ∙ k.order;
      forest = m.forest;
      joins = λ x y hx hy. (
        λ s. elim ((m.joins x y (rw k.items hx) (rw k.items hy)).0 s) [
          | inl already ↦ inl ((same x y hx hy).0 already)
          | inr sides ↦ inr (elim sides [
            | inl (p, q) ↦ inl ((same x u hx hu).0 p, (same y v hy hv).0 q)
            | inr (p, q) ↦ inr ((same x v hx hv).0 p, (same y u hy hu).0 q)
          ])
        ],
        λ j. (m.joins x y (rw k.items hx) (rw k.items hy)).1 (elim j [
          | inl already ↦ inl ((same x y hx hy).1 already)
          | inr sides ↦ inr (elim sides [
            | inl (p, q) ↦ inl ((same x u hx hu).1 p, (same y v hy hv).1 q)
            | inr (p, q) ↦ inr ((same x v hx hv).1 p, (same y u hy hu).1 q)
          ])
        ]),
      );
      reports = (
        λ h s. m.reports.0 h ((same u v hu hv).1 s),
        λ n. m.reports.1 (λ s. n ((same u v hu hv).0 s)),
      );
      child_lem = m.child_lem;
    }

-- The two roots, in the order in which they are linked.
pub record Ordered (d : Dsu) (a b : ℕ) (pair : ℕ × ℕ) : Type 0 where
  pub above : outranks d.priority pair.0 pair.1 ≡ true
  pub either : (pair.0 ≡ a) × (pair.1 ≡ b) ⊎ (pair.0 ≡ b) × (pair.1 ≡ a)

order_edge-Ordered : (d : Dsu) (a b : ℕ) → a ≢ b → Ordered d a b (order_edge d.priority a b)
order_edge-Ordered d a b ne =
    rw (order_edge_lem d.priority a b ne) (elim (Bool-cases (outranks d.priority a b)) [
      | inl e ↦ rw e (record { above = e; either = inl (refl, refl) })
      | inr e ↦ rw e (record {
        above = ⊎_elim (λ h. cc) (λ h. h) (outranks_total d.priority a b ne);
        either = inr (refl, refl);
      })
    ])

-- The two calls of `find_root` with which a merge begins.
pub record Searched (d : Dsu) (u v : ℕ) : Type 0 where
  pub middle : Dsu
  pub state : Dsu
  pub a : ℕ
  pub b : ℕ
  pub first : find_root d u ≡ some (middle, a)
  pub second : find_root middle v ≡ some (state, b)
  pub keeps : KeepsRoots d state
  pub root_u : HasRoot state a u
  pub root_v : HasRoot state b v
  pub a_item : a < state.n
  pub b_item : b < state.n

pub search_both : (d : Dsu) (u v : ℕ) → IsDsu d → u < d.n → v < d.n → Searched d u v
search_both d u v forest hu hv =
    let (m, a, found_u, k, root_u, a_item) = find_root_lem d u forest hu in
    let hv' : v < m.n = rw k.items hv in
    let (s, b, found_v, l, root_v, b_item) = find_root_lem m v k.forest hv' in
    record {
      middle = m;
      state = s;
      a = a;
      b = b;
      first = found_u;
      second = found_v;
      keeps = KeepsRoots-trans d m s k l;
      root_u = l.forward a u (rw k.items hu) (k.forward a u hu root_u);
      root_v = l.forward b v hv' root_v;
      a_item = omega (arith, k.items, l.items);
      b_item = omega (arith, l.items);
    }

-- Linking the two roots that were found, in either order.
linked_Merged :
    (s : Dsu) (u v a b : ℕ) (pair : ℕ × ℕ)
    → IsDsu s
    → HasRoot s a u
    → HasRoot s b v
    → a < s.n
    → b < s.n
    → a ≢ b
    → Ordered s a b pair
    → Merged s u v (link s pair).0 (link s pair).1
unfolding link
linked_Merged s u v a b (x, y) forest root_u root_v ha hb ne o = elim o.either [
  | inl (p, q) ↦
      link_Merged s forest x y (rw p ha) (rw q hb) (rw p (Root-IsRoot root_u))
        (rw q (Root-IsRoot root_v)) o.above (λ e. ne (sym p ∙ e ∙ q)) u v
        (inl (rw p root_u, rw q root_v))
  | inr (p, q) ↦
      link_Merged s forest x y (rw p hb) (rw q ha) (rw p (Root-IsRoot root_v))
        (rw q (Root-IsRoot root_u)) o.above (λ e. ne (sym q ∙ sym e ∙ p)) u v
        (inr (rw q root_u, rw p root_v))
]

module _ (d : Dsu) (u v : ℕ) (forest : IsDsu d) (hu : u < d.n) (hv : v < d.n) where
  abbrev pub searched : Searched d u v
  searched = search_both d u v forest hu hv

  open searched use {state, a, b, keeps, root_u, root_v, a_item, b_item}

  pub Ordered-pair : a ≢ b → Ordered state a b (order_edge d.priority a b)
  Ordered-pair ne =
      subst (λ prio. Ordered state a b (order_edge prio a b)) keeps.order
        (order_edge-Ordered state a b ne)

  pub found_same : a ≡ b → Merged d u v state not_merged
  found_same e =
      Merged-keeps d state u v state not_merged forest hu hv keeps
        (not_merged-Merged state u v keeps.forest (a, root_u, rw e root_v))

  pub found_other :
      a ≢ b
      → Merged d u v
          (link state (order_edge d.priority a b)).0
          (link state (order_edge d.priority a b)).1
  found_other ne =
      Merged-keeps d state u v (link state (order_edge d.priority a b)).0
        (link state (order_edge d.priority a b)).1 forest hu hv keeps
        (linked_Merged state u v a b (order_edge d.priority a b) keeps.forest root_u root_v a_item
          b_item ne (Ordered-pair ne))

  -- On a valid forest `DisjointSetUnion::merge` ends on every two items, joins their sets and no
  -- others, leaves a valid forest, and says whether they were two sets.
  pub merge_lem :
      (e : Dsu) × (ret : DsuMergeRet) × (merge d u v ≡ some (e, ret)) × Merged d u v e ret
  merge_lem = elim (Bool-cases (a == b)) [
    | inl same ↦ (
      state,
      not_merged,
      unfold merge in rw (searched.first, searched.second, same),
      found_same (==→eq a b same),
    )
    | inr other ↦
        let pair = order_edge d.priority a b in
        (
          (link state pair).0,
          (link state pair).1,
          unfold merge in rw (searched.first, searched.second, other),
          found_other (==-false→ne a b other),
        )
  ]

-- Naming the two sets by other members.
pub Joined-ends :
    (s : Dsu) (x y u v z w : ℕ)
    → (SameSet s x u × SameSet s y v) ⊎ (SameSet s x v × SameSet s y u)
    → Joined s x y z w
    → Joined s u v z w
Joined-ends s x y u v z w ends (inl already) = inl already
Joined-ends s x y u v z w ends (inr (inl (p, q))) = inr (elim ends [
  | inl (k, l) ↦ inl (SameSet_trans s z x u p k, SameSet_trans s w y v q l)
  | inr (k, l) ↦ inr (SameSet_trans s z x v p k, SameSet_trans s w y u q l)
])
Joined-ends s x y u v z w ends (inr (inr (p, q))) = inr (elim ends [
  | inl (k, l) ↦ inr (SameSet_trans s z y v p l, SameSet_trans s w x u q k)
  | inr (k, l) ↦ inl (SameSet_trans s z y u p l, SameSet_trans s w x v q k)
])
