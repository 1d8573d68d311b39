-- ===== src/Components/Edges.antt =====
-- The edges of a `SpanningForest` (src/return_types.cpp) are those that the algorithm has stored.
use graph_streaming_cc.Prelude.{
  ℕ, zero, suc, ◌+◌, ◌≤◌, ◌<◌, ◌≡◌, ◌≢◌, refl, sym, ap, ap₂, subst, ◌∙◌, inl, inr, arith, Bool,
  true, false, ◌||◌, ◌&&◌, ◌==◌, List, [], ◌∷◌, ◌++◌, get_or, range_from, eq-or-ne, eq→==,
  ne→==-false, Bool-cases,
}
use graph_streaming_cc.Util.{Edge}
use graph_streaming_cc.Cc.{contains}
use graph_streaming_cc.Components.{edges_at, edges_from, new_spanning_forest}

-- Whether the list has an edge with these ends.
pub has_edge : ℕ → ℕ → List Edge → Bool
has_edge s d [] = false
has_edge s d (e ∷ es) = (e.src == s && e.dst == d) || has_edge s d es

has_edge-append :
    (s d : ℕ) (xs ys : List Edge) → has_edge s d (xs ++ ys) ≡ (has_edge s d xs || has_edge s d ys)
unfolding has_edge
has_edge-append s d [] ys = refl
has_edge-append s d (e ∷ xs) ys =
    ap (λ t. (e.src == s && e.dst == d) || t) (has_edge-append s d xs ys)
    ∙ or_assoc (e.src == s && e.dst == d) (has_edge s d xs) (has_edge s d ys)
  where
    or_assoc : (a b c : Bool) → (a || (b || c)) ≡ ((a || b) || c)
    or_assoc true b c = refl
    or_assoc false b c = refl

edges_at_self : (s d : ℕ) (dsts : List ℕ) → has_edge s d (edges_at s dsts) ≡ contains dsts d
unfolding has_edge edges_at contains
edges_at_self s d [] = refl
edges_at_self s d (x ∷ xs) = elim (Bool-cases (x == d)) [
  | inl e ↦ rw (eq→== s s refl, e) refl
  | inr e ↦ rw (eq→== s s refl, e) (edges_at_self s d xs)
]

edges_at_other : (s s' d : ℕ) (dsts : List ℕ) → s' ≢ s → has_edge s d (edges_at s' dsts) ≡ false
unfolding has_edge edges_at
edges_at_other s s' d [] ne = refl
edges_at_other s s' d (x ∷ xs) ne = rw (ne→==-false s' s ne) (edges_at_other s s' d xs ne)

module _ (stored : List (List ℕ)) (s d : ℕ) where
  edges_from_above :
      (lo n : ℕ) → s < lo → has_edge s d (edges_from stored (range_from lo n)) ≡ false
  unfolding edges_from has_edge
  edges_from_above lo zero h = refl
  edges_from_above lo (suc n) h =
      has_edge-append s d (edges_at lo (get_or stored lo []))
        (edges_from stored (range_from (suc lo) n))
      ∙ ap₂ (λ a b. a || b) (edges_at_other s lo d (get_or stored lo []) (omega arith))
          (edges_from_above (suc lo) n (omega arith))

  or_false : (a : Bool) → (a || false) ≡ a
  or_false true = refl
  or_false false = refl

  edges_from_inside :
      (lo n : ℕ)
      → lo ≤ s
      → s < lo + n
      → has_edge s d (edges_from stored (range_from lo n)) ≡ contains (get_or stored s []) d
  unfolding edges_from
  edges_from_inside lo zero h h' = absurd (omega arith)
  edges_from_inside lo (suc n) h h' =
      has_edge-append s d (edges_at lo (get_or stored lo []))
        (edges_from stored (range_from (suc lo) n))
      ∙ elim (eq-or-ne lo s) [
        | inl e ↦
            ap₂ (λ a b. a || b)
              (subst
                (λ z.
                  has_edge s d (edges_at z (get_or stored z [])) ≡ contains (get_or stored s []) d)
                (sym e) (edges_at_self s d (get_or stored s [])))
              (edges_from_above (suc lo) n (omega arith))
            ∙ or_false (contains (get_or stored s []) d)
        | inr ne ↦
            ap₂ (λ a b. a || b) (edges_at_other s lo d (get_or stored lo []) ne)
              (edges_from_inside (suc lo) n (omega arith) (omega arith))
      ]

-- The forest of a query has the edge from a vertex of the graph to another exactly if the other is
-- stored at that vertex.
pub new_spanning_forest_lem :
    (stored : List (List ℕ)) (n s d : ℕ)
    → s < n
    → has_edge s d (new_spanning_forest n stored).edges ≡ contains (get_or stored s []) d
unfolding new_spanning_forest
new_spanning_forest_lem stored n s d h =
    edges_from_inside stored s d 0 n (omega arith) (omega arith)
