-- ===== src/Cc/Stored.antt =====
-- The edges that `spanning_forest` of `CCSketchAlg` (include/cc_sketch_alg.h) stores.
use graph_streaming_cc.Prelude.{
  ℕ, ◌<◌, ◌≡◌, ◌≢◌, refl, sym, ap, ◌∙◌, ◌⊎◌, inl, inr, true, ◌==◌, if◌then◌else◌, List, [], ◌∷◌,
  get_or, modify, get_or-modify_self, get_or-modify_ne, length, length-modify, Bool-cases, eq-or-ne,
  eq→==, ==→eq,
}
use graph_streaming_cc.Graph.{EdgeSet}
use graph_streaming_cc.Cc.{CcSketchAlg, contains, insert, forest_at}

-- The edges of the stored forest.
abbrev pub in_forest : CcSketchAlg → EdgeSet
in_forest c s d = contains (forest_at c s) d

pub contains-insert_self : (xs : List ℕ) (x : ℕ) → contains (insert xs x) x ≡ true
unfolding contains insert
contains-insert_self xs x = elim (Bool-cases (contains xs x)) [
  | inl e ↦ rw (e, e)
  | inr e ↦ rw (e, eq→== x x refl)
]

pub contains-insert_old :
    (xs : List ℕ) (x d : ℕ) → contains xs d ≡ true → contains (insert xs x) d ≡ true
unfolding contains insert
contains-insert_old xs x d h = elim (Bool-cases (contains xs x)) [
  | inl e ↦ rw (e, h)
  | inr e ↦ elim (Bool-cases (x == d)) [ inl f ↦ rw (e, f) | inr f ↦ rw (e, f, h) ]
]

pub contains-insert :
    (xs : List ℕ) (x d : ℕ) → contains (insert xs x) d ≡ true → (d ≡ x) ⊎ (contains xs d ≡ true)
unfolding contains insert
contains-insert xs x d h = elim (Bool-cases (x == d)) [
  | inl f ↦ inl (sym (==→eq x d f))
  | inr f ↦ elim (Bool-cases (contains xs x)) [
    | inl e ↦ inr (sym (ap (λ t. contains (if t then xs else x ∷ xs) d) e) ∙ h)
    | inr e ↦ inr (
        sym (ap (λ t. if t then true else contains xs d) f)
        ∙ sym (ap (λ t. contains (if t then xs else x ∷ xs) d) e)
        ∙ h)
  ]
]

-- The store with one edge more.
abbrev pub with_edge : CcSketchAlg → ℕ → ℕ → List (List ℕ)
with_edge c u v = modify c.spanning_forest u (λ s. insert s v)

pub length-with_edge :
    (c : CcSketchAlg) (u v : ℕ) → length (with_edge c u v) ≡ length c.spanning_forest
length-with_edge c u v = length-modify c.spanning_forest u (λ s. insert s v)

module _ (c : CcSketchAlg) (u v : ℕ) (item : u < length c.spanning_forest) where
  at_low : get_or (with_edge c u v) u [] ≡ insert (forest_at c u) v
  at_low = get_or-modify_self c.spanning_forest u (λ s. insert s v) [] item

  at_other : (a : ℕ) → u ≢ a → get_or (with_edge c u v) a [] ≡ forest_at c a
  at_other a ne = get_or-modify_ne c.spanning_forest u a (λ s. insert s v) [] ne

  pub with_edge_old :
      (a b : ℕ) → in_forest c a b ≡ true → contains (get_or (with_edge c u v) a []) b ≡ true
  with_edge_old a b h = elim (eq-or-ne u a) [
    | inl e ↦
        ap (λ z. contains (get_or (with_edge c u v) z []) b) (sym e)
        ∙ ap (λ z. contains z b) at_low
        ∙ contains-insert_old (forest_at c u) v b (ap (λ z. contains (forest_at c z) b) e ∙ h)
    | inr ne ↦ ap (λ z. contains z b) (at_other a ne) ∙ h
  ]

  pub with_edge_self : contains (get_or (with_edge c u v) u []) v ≡ true
  with_edge_self = ap (λ z. contains z v) at_low ∙ contains-insert_self (forest_at c u) v

  pub with_edge_cases :
      (a b : ℕ)
      → contains (get_or (with_edge c u v) a []) b ≡ true
      → ((a ≡ u) × (b ≡ v)) ⊎ (in_forest c a b ≡ true)
  with_edge_cases a b h = elim (eq-or-ne u a) [
    | inl e ↦
        elim (contains-insert (forest_at c u) v b (
          sym (ap (λ z. contains z b) at_low)
          ∙ ap (λ z. contains (get_or (with_edge c u v) z []) b) e
          ∙ h)) [
            | inl f ↦ inl (sym e, f)
            | inr old ↦ inr (ap (λ z. contains (forest_at c z) b) (sym e) ∙ old)
          ]
    | inr ne ↦ inr (sym (ap (λ z. contains z b) (at_other a ne)) ∙ h)
  ]
