-- ===== src/Graph.antt =====
-- The graph of a stream of edge updates, which the algorithm is about: an update inserts the
-- edge or deletes it, and the ends of an edge are stored low and high, as src/cc_sketch_alg.cpp
-- does with `std::min` and `std::max`.
use graph_streaming_cc.Prelude.{
  ℕ, ◌≤◌, ◌<◌, ◌≡◌, refl, sym, ap, ◌∙◌, ◌⊎◌, inl, inr, arith, Bool, true, false, not, ◌==◌,
  if◌then◌else◌, List, [], ◌∷◌, eq-or-ne, eq→==, ne→==-false,
}
use graph_streaming_cc.Util.{Edge, low_of, high_of}

-- A set of edges, each as its low and its high end.
abbrev pub EdgeSet : Type 0
EdgeSet = ℕ → ℕ → Bool

unfoldable pub toggle : ℕ → ℕ → EdgeSet → EdgeSet
toggle u v g s d = if u == s then (if v == d then not (g s d) else g s d) else g s d

-- The edges after the updates, the latest of which stands first.
unfoldable pub present : List Edge → EdgeSet
unfolding toggle
present [] s d = false
present (e ∷ es) s d = toggle (low_of e.src e.dst) (high_of e.src e.dst) (present es) s d

-- A walk between two vertices.
pub data Linked (g : EdgeSet) : ℕ → ℕ → Type 0 where
  stop : (x : ℕ) → Linked g x x
  go : (x y z : ℕ) → g (low_of x y) (high_of x y) ≡ true → Linked g y z → Linked g x z

pub toggle-hit : (u v : ℕ) (g : EdgeSet) → toggle u v g u v ≡ not (g u v)
unfolding toggle
toggle-hit u v g = rw (eq→== u u refl, eq→== v v refl)

pub hit-or-miss :
    (u v s d : ℕ) (g : EdgeSet)
    → ((s ≡ u) × (d ≡ v)) ⊎ ((¬ ((s ≡ u) × (d ≡ v))) × (toggle u v g s d ≡ g s d))
unfolding toggle
hit-or-miss u v s d g = elim (eq-or-ne u s) [
  | inl e ↦ elim (eq-or-ne v d) [
    | inl f ↦ inl (sym e, sym f)
    | inr f ↦ inr (λ h. f (sym h.1), rw (eq→== u s e, ne→==-false v d f))
  ]
  | inr e ↦ inr (λ h. e (sym h.0), rw (ne→==-false u s e))
]

pub low_of_comm : (x y : ℕ) → low_of x y ≡ low_of y x
unfolding low_of
low_of_comm x y = ground arith

pub high_of_comm : (x y : ℕ) → high_of x y ≡ high_of y x
unfolding high_of
high_of_comm x y = ground arith

pub low_of_le : (x y : ℕ) → x ≤ y → low_of x y ≡ x
unfolding low_of
low_of_le x y h = ground arith

pub high_of_le : (x y : ℕ) → x ≤ y → high_of x y ≡ y
unfolding high_of
high_of_le x y h = ground arith

pub low_le_high : (x y : ℕ) → low_of x y ≤ high_of x y
unfolding low_of high_of
low_le_high x y = ground arith

pub low_of_lt : (x y n : ℕ) → x < n → y < n → low_of x y < n
unfolding low_of
low_of_lt x y n hx hy = ground arith

pub high_of_lt : (x y n : ℕ) → x < n → y < n → high_of x y < n
unfolding high_of
high_of_lt x y n hx hy = ground arith

pub either_order :
    (x y : ℕ) → ((low_of x y ≡ x) × (high_of x y ≡ y)) ⊎ ((low_of x y ≡ y) × (high_of x y ≡ x))
unfolding low_of high_of
either_order x y = ground arith

module _ {g : EdgeSet} where
  pub Linked_trans : {x y z : ℕ} → Linked g x y → Linked g y z → Linked g x z
  Linked_trans (stop x) q = q
  Linked_trans (go x w y edge p) q = go x w _ edge (Linked_trans p q)

  pub Linked_sym : {x y : ℕ} → Linked g x y → Linked g y x
  Linked_sym (stop x) = stop x
  Linked_sym (go x y z edge p) = Linked_trans (Linked_sym p) (
      go y x x
        (ap (λ t. g t (high_of y x)) (low_of_comm y x)
          ∙ ap (g (low_of x y)) (high_of_comm y x)
          ∙ edge)
        (stop x))

  pub one_edge : (u v : ℕ) → u ≤ v → g u v ≡ true → Linked g u v
  one_edge u v h e =
      go u v v (ap (λ t. g t (high_of u v)) (low_of_le u v h) ∙ ap (g u) (high_of_le u v h) ∙ e)
        (stop v)

pub Linked_mono :
    {g h : EdgeSet} {x y : ℕ}
    → ((s d : ℕ) → g s d ≡ true → h s d ≡ true)
    → Linked g x y
    → Linked h x y
Linked_mono f (stop x) = stop x
Linked_mono f (go x y z edge p) = go x y z (f _ _ edge) (Linked_mono f p)

pub present-cons :
    (e : Edge) (es : List Edge) (s d : ℕ)
    → present (e ∷ es) s d ≡ toggle (low_of e.src e.dst) (high_of e.src e.dst) (present es) s d
unfolding present
present-cons e es s d = refl

pub present-nil : (s d : ℕ) → present [] s d ≡ false
unfolding present
present-nil s d = refl
