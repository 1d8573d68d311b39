-- ===== src/Dsu/Merge/Weak.antt =====
-- `DisjointSetUnion_MT::merge` in one thread: attempts that fail without a cause do no harm.
use graph_streaming_cc.Prelude.{
  ℕ, ◌<◌, ◌≡◌, refl, ◌⊎◌, inl, inr, ⊎_elim, Bool, ◌==◌, List, [], ◌∷◌, some, Bool-cases, ==→eq,
  ==-false→ne,
}
use graph_streaming_cc.Dsu.{Dsu, DsuMergeRet, order_edge, link, merge, merge_mt, not_merged}
use graph_streaming_cc.Dsu.Forest.{here, Root-IsRoot}
use graph_streaming_cc.Dsu.Sets.{IsDsu, HasRoot, SameSet, SameSet_sym, SameSet_trans}
use graph_streaming_cc.Dsu.Merge.{Merged}
use graph_streaming_cc.Dsu.Merge.Calls.{
  Merged-keeps, Ordered, Searched, searched, Ordered-pair, found_same, found_other, Joined-ends,
  merge_lem,
}

Merged-ends :
    (s : Dsu) (x y u v : ℕ) (e : Dsu) (ret : DsuMergeRet)
    → (SameSet s x u × SameSet s y v) ⊎ (SameSet s x v × SameSet s y u)
    → Merged s x y e ret
    → Merged s u v e ret
Merged-ends s x y u v e ret ends m = record {
  items = m.items;
  order = m.order;
  forest = m.forest;
  joins = λ z w hz hw. (
    λ same. Joined-ends s x y u v z w ends ((m.joins z w hz hw).0 same),
    λ j. (m.joins z w hz hw).1 (Joined-ends s u v x y z w flipped j),
  );
  reports = (λ h same. m.reports.0 h (onto same), λ n. m.reports.1 (λ same. n (back same)));
  child_lem = m.child_lem;
}
  where
    flipped : (SameSet s u x × SameSet s v y) ⊎ (SameSet s u y × SameSet s v x)
    flipped = elim ends [
      | inl (k, l) ↦ inl (SameSet_sym s x u k, SameSet_sym s y v l)
      | inr (k, l) ↦ inr (SameSet_sym s y u l, SameSet_sym s x v k)
    ]

    onto : SameSet s u v → SameSet s x y
    onto same = elim ends [
      | inl (k, l) ↦ SameSet_trans s x u y k (SameSet_trans s u v y same (SameSet_sym s y v l))
      | inr (k, l) ↦
          SameSet_trans s x v y k
            (SameSet_trans s v u y (SameSet_sym s u v same) (SameSet_sym s y u l))
    ]

    back : SameSet s x y → SameSet s u v
    back same = elim ends [
      | inl (k, l) ↦ SameSet_trans s u x v (SameSet_sym s x u k) (SameSet_trans s x y v same l)
      | inr (k, l) ↦
          SameSet_trans s u y v (SameSet_sym s y u l)
            (SameSet_trans s y x v (SameSet_sym s x y same) k)
    ]

own : (s : Dsu) (r : ℕ) {x : ℕ} → HasRoot s r x → HasRoot s r r
own s r root = here refl (Root-IsRoot root)

-- On a valid forest `DisjointSetUnion_MT::merge` ends on every two items, whichever attempts fail
-- without a cause: it joins their sets and no others, leaves a valid forest, and says whether they
-- were two sets.
pub merge_mt_lem :
    (failures : List Bool) (d : Dsu) (u v : ℕ)
    → IsDsu d
    → u < d.n
    → v < d.n
    → (e : Dsu) × (ret : DsuMergeRet) × (merge_mt failures d u v ≡ some (e, ret))
      × Merged d u v e ret
unfolding merge merge_mt
merge_mt_lem [] d u v forest hu hv = merge_lem d u v forest hu hv
merge_mt_lem (failed ∷ later) d u v forest hu hv = elim (Bool-cases (a == b)) [
  | inl same ↦ (
    state,
    not_merged,
    rw (f.first, f.second, same),
    found_same d u v forest hu hv (==→eq a b same),
  )
  | inr other ↦
      let ne = ==-false→ne a b other in
      elim (Bool-cases failed) [
        | inl fails ↦
            let o = Ordered-pair d u v forest hu hv ne in
            let (e, ret, runs, m) =
              merge_mt_lem later state pair.0 pair.1 f.keeps.forest (first_item o)
                (second_item o) in
            (
              e,
              ret,
              rw (f.first, f.second, other, fails, runs),
              Merged-keeps d state u v e ret forest hu hv f.keeps
                  (Merged-ends state pair.0 pair.1 u v e ret (roots o) m),
            )
        | inr works ↦ (
          (link state pair).0,
          (link state pair).1,
          rw (f.first, f.second, other, works),
          found_other d u v forest hu hv ne,
        )
      ]
]
  where
    f : Searched d u v
    f = searched d u v forest hu hv

    open f use {state, a, b}

    pair : ℕ × ℕ
    pair = order_edge d.priority a b

    first_item : Ordered state a b pair → pair.0 < state.n
    first_item o = ⊎_elim (λ c. rw c.0 f.a_item) (λ c. rw c.0 f.b_item) o.either

    second_item : Ordered state a b pair → pair.1 < state.n
    second_item o = ⊎_elim (λ c. rw c.1 f.b_item) (λ c. rw c.1 f.a_item) o.either

    roots :
        Ordered state a b pair
        → (SameSet state pair.0 u × SameSet state pair.1 v)
          ⊎ (SameSet state pair.0 v × SameSet state pair.1 u)
    roots o =
        ⊎_elim
          (λ c. inl (
            (a, rw c.0 (own state a f.root_u), f.root_u),
            (b, rw c.1 (own state b f.root_v), f.root_v),
          ))
          (λ c. inr (
            (b, rw c.0 (own state b f.root_v), f.root_v),
            (a, rw c.1 (own state a f.root_u), f.root_u),
          ))
          o.either
