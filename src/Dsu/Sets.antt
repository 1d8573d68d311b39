-- ===== src/Dsu/Sets.antt =====
-- The sets of a `DisjointSetUnion` object, and its calls that leave them as they are.
use graph_streaming_cc.Prelude.{
  ℕ, suc, ◌<◌, ◌≡◌, refl, sym, ◌∙◌, inl, inr, ◌⊎◌, ⊎_elim, eq-or-ne, ◌↔◌, arith, List, subst, some,
  range_from, get_or-range_from, length-range_from,
}
use graph_streaming_cc.Dsu.{Dsu, at, find_root, new_dsu, reset}
use graph_streaming_cc.Dsu.Forest.{IsForest, Root, Root-of_self, Root-unique, height-lt, Root-of}
use graph_streaming_cc.Dsu.Find.{find_loop-Found, Root-lt}

abbrev pub IsDsu : Dsu → Type 0
IsDsu d = IsForest d.priority d.n d.parent

-- `r` is the root of an item.
abbrev pub HasRoot : Dsu → ℕ → ℕ → Type 0
HasRoot d r u = Root d.parent r u

-- Two items with one root.
abbrev pub SameSet : Dsu → ℕ → ℕ → Type 0
SameSet d u v = (r : ℕ) × HasRoot d r u × HasRoot d r v

-- `e` is `d` with other pointers and the same roots.
pub record KeepsRoots (d e : Dsu) : Type 0 where
  pub items : e.n ≡ d.n
  pub order : e.priority ≡ d.priority
  pub forest : IsDsu e
  pub forward : (r u : ℕ) → u < d.n → HasRoot d r u → HasRoot e r u

pub backward :
    (d e : Dsu) → IsDsu d → KeepsRoots d e → (r u : ℕ) → u < d.n → HasRoot e r u → HasRoot d r u
backward d e forest keeps r u h root =
    let (r', _, root') = Root-of forest u h in
    subst (λ t. HasRoot d t u) (Root-unique (keeps.forward r' u h root') root) root'

pub KeepsRoots-trans : (d e f : Dsu) → KeepsRoots d e → KeepsRoots e f → KeepsRoots d f
KeepsRoots-trans d e f k l = record {
  items = l.items ∙ k.items;
  order = l.order ∙ k.order;
  forest = l.forest;
  forward = λ r u h root. l.forward r u (rw k.items h) (k.forward r u h root);
}

pub SameSet_sym : (d : Dsu) (u v : ℕ) → SameSet d u v → SameSet d v u
SameSet_sym d u v (r, p, q) = (r, q, p)

pub SameSet_trans : (d : Dsu) (u v w : ℕ) → SameSet d u v → SameSet d v w → SameSet d u w
SameSet_trans d u v w (r, p, q) (s, p', q') =
    (r, p, subst (λ t. HasRoot d t w) (Root-unique p' q) q')

pub KeepsRoots-SameSet :
    (d e : Dsu)
    → IsDsu d
    → KeepsRoots d e
    → (u v : ℕ) → u < d.n
    → v < d.n
    → SameSet e u v ↔ SameSet d u v
KeepsRoots-SameSet d e forest k u v hu hv = (
  λ (r, p, q). (r, backward d e forest k r u hu p, backward d e forest k r v hv q),
  λ (r, p, q). (r, k.forward r u hu p, k.forward r v hv q),
)

-- On a valid forest `find_root` ends on every item: it returns the root, and no item's root changes.
pub find_root_lem :
    (d : Dsu) (u : ℕ)
    → IsDsu d
    → u < d.n
    → (e : Dsu) × (r : ℕ) × (find_root d u ≡ some (e, r))
      × KeepsRoots d e
      × HasRoot d r u
      × (r < d.n)
unfolding find_root
find_root_lem d u forest h =
    let found =
      find_loop-Found (suc d.n) d.parent u forest h (omega (arith, height-lt forest u h)) in
    (
      record d { parent = found.out },
      found.root,
      rw found.returns,
      record { items = refl; order = refl; forest = found.forest; forward = found.keeps },
      found.leads,
      Root-lt forest h found.leads,
    )

identity-at : (n u : ℕ) → u < n → at (range_from 0 n) u ≡ u
identity-at n u h = omega (arith, get_or-range_from 0 n u u h)

identity-IsForest : (prio : List ℕ) (n : ℕ) → IsForest prio n (range_from 0 n)
identity-IsForest prio n = record {
  size = length-range_from 0 n;
  closed = λ u h. rw (identity-at n u h) h;
  rises = λ u h. inl (identity-at n u h);
}

-- After the constructor and after `reset` every item is alone.
pub new_dsu_lem : (prio : List ℕ) (n : ℕ) → IsDsu (new_dsu prio n)
unfolding new_dsu
new_dsu_lem prio n = identity-IsForest prio n

pub reset_lem : (d : Dsu) → IsDsu (reset d)
unfolding reset
reset_lem d = identity-IsForest d.priority d.n

pub reset_alone : (d : Dsu) (u v : ℕ) → u < d.n → v < d.n → SameSet (reset d) u v → u ≡ v
unfolding reset
reset_alone d u v hu hv (r, p, q) =
    Root-of_self (identity-at d.n u hu) p ∙ sym (Root-of_self (identity-at d.n v hv) q)

pub new_dsu_alone :
    (prio : List ℕ) (n u v : ℕ) → u < n → v < n → SameSet (new_dsu prio n) u v → u ≡ v
unfolding new_dsu
new_dsu_alone prio n u v hu hv (r, p, q) =
    Root-of_self (identity-at n u hu) p ∙ sym (Root-of_self (identity-at n v hv) q)

pub n-new_dsu : (prio : List ℕ) (n : ℕ) → (new_dsu prio n).n ≡ n
unfolding new_dsu
n-new_dsu prio n = refl

pub n-reset : (d : Dsu) → (reset d).n ≡ d.n
unfolding reset
n-reset d = refl

-- Whether two items are in one set can be decided.
SameSet-dec : (d : Dsu) (u v : ℕ) → IsDsu d → u < d.n → v < d.n → SameSet d u v ⊎ (¬ SameSet d u v)
SameSet-dec d u v forest hu hv =
    let (r, _, p) = Root-of forest u hu in
    let (s, _, q) = Root-of forest v hv in
    elim (eq-or-ne r s) [
      | inl e ↦ inl (r, p, rw e q)
      | inr ne ↦ inr (λ (t, p', q'). ne (Root-unique p p' ∙ Root-unique q' q))
    ]

pub own : (d : Dsu) (u : ℕ) → IsDsu d → u < d.n → SameSet d u u
own d u forest h = let (r, _, p) = Root-of forest u h in (r, p, p)

-- So it is enough that they are not in two sets.
pub SameSet-stable :
    (d : Dsu) (u v : ℕ) → IsDsu d → u < d.n → v < d.n → ¬ (¬ SameSet d u v) → SameSet d u v
SameSet-stable d u v forest hu hv h =
    ⊎_elim (λ s. s) (λ n. absurd (h n)) (SameSet-dec d u v forest hu hv)
