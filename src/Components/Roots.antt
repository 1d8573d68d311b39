-- ===== src/Components/Roots.antt =====
-- What the constructor of `ConnectedComponents` (src/return_types.cpp) reads off a valid `dsu`.
use graph_streaming_cc.Prelude.{
  ℕ, ◌+◌, ◌<◌, ◌≡◌, refl, sym, ap, subst, ◌∙◌, ◌⊎◌, inl, inr, ⊎_elim, ◌↔◌, arith, Bool, true, false,
  ◌==◌, if◌then◌else◌, Option, some, List, [], ◌∷◌, get_or, set, replicate, length, length-set,
  length-replicate, get_or-set_self, get_or-set_ne, eq-or-ne, eq→==, ==→eq, ne→==-false,
}
use mathlib.Core.Option
use graph_streaming_cc.Dsu.{Dsu, at}
use graph_streaming_cc.Dsu.Forest.{Root-of_self, Root-IsRoot, Root-unique, Root-of}
use graph_streaming_cc.Dsu.Sets.{
  IsDsu, HasRoot, SameSet, KeepsRoots, KeepsRoots-trans, backward, find_root_lem,
}
use graph_streaming_cc.Components.{
  ConnectedComponents, record_root, root_loop, new_components, is_connected,
}

pub data Mem (i : ℕ) : List ℕ → Type 0 where
  first : (is : List ℕ) → Mem i (i ∷ is)
  later : (j : ℕ) (is : List ℕ) → Mem i is → Mem i (j ∷ is)

pub data Below (n : ℕ) : List ℕ → Type 0 where
  no_item : Below n []
  below : (i : ℕ) (is : List ℕ) → i < n → Below n is → Below n (i ∷ is)

-- The items of a list that are their own parents.
pub count_roots : Dsu → List ℕ → ℕ
count_roots d [] = 0
count_roots d (i ∷ is) = (if at d.parent i == i then 1 else 0) + count_roots d is

KeepsRoots-refl : (d : Dsu) → IsDsu d → KeepsRoots d d
KeepsRoots-refl d forest = record {
  items = refl;
  order = refl;
  forest = forest;
  forward = λ r u h root. root;
}

-- An item's root is itself exactly if it is its own parent.
root_self : (d : Dsu) (i r : ℕ) → HasRoot d r i → (r == i) ≡ (at d.parent i == i)
root_self d i r root = elim (eq-or-ne (at d.parent i) i) [
  | inl e ↦ eq→== r i (sym (Root-of_self e root)) ∙ sym (eq→== (at d.parent i) i e)
  | inr ne ↦
      ne→==-false r i (λ e. ne (subst (λ z. at d.parent z ≡ z) e (Root-IsRoot root)))
      ∙ sym (ne→==-false (at d.parent i) i ne)
]

-- The answer of the loop over `order`, which began with `out`.
pub record Read (d : Dsu) (out : ConnectedComponents) (order : List ℕ)
    (result : Option (Dsu × ConnectedComponents)) : Type 0 where
  pub state : Dsu
  pub answer : ConnectedComponents
  pub returns : result ≡ some (state, answer)
  pub keeps : KeepsRoots d state
  pub sized : length answer.parent_arr ≡ length out.parent_arr
  pub read : (i : ℕ) → Mem i order → HasRoot d (get_or answer.parent_arr i 0) i
  pub unread : (i : ℕ) → ¬ Mem i order → get_or answer.parent_arr i 0 ≡ get_or out.parent_arr i 0
  pub counted : answer.num_cc ≡ out.num_cc + count_roots d order

Mem-nil : (i : ℕ) → ¬ Mem i []
Mem-nil i m = elim m [ ]

pub Mem-cons : (i j : ℕ) (is : List ℕ) → Mem i (j ∷ is) → (i ≡ j) ⊎ Mem i is
Mem-cons i _ _ (first is) = inl refl
Mem-cons i _ _ (later j is m) = inr m

Mem-dec : (i : ℕ) (is : List ℕ) → Mem i is ⊎ (¬ Mem i is)
Mem-dec i [] = inr (Mem-nil i)
Mem-dec i (j ∷ is) = elim (eq-or-ne j i) [
  | inl e ↦ inl (subst (λ z. Mem z (j ∷ is)) e (first is))
  | inr ne ↦ elim (Mem-dec i is) [
    | inl m ↦ inl (later j is m)
    | inr n ↦ inr (λ m. ⊎_elim (λ e. ne (sym e)) n (Mem-cons i j is m))
  ]
]

-- The roots of a state with other pointers are the same.
count_roots-KeepsRoots :
    (d e : Dsu) (is : List ℕ)
    → IsDsu d
    → KeepsRoots d e
    → Below d.n is
    → count_roots e is ≡ count_roots d is
unfolding count_roots
count_roots-KeepsRoots d e [] forest k no_item = refl
count_roots-KeepsRoots d e (i ∷ is) forest k (below _ _ h hs) =
    let (r, _, root) = Root-of forest i h in
    let same = sym (root_self e i r (k.forward r i h root)) ∙ root_self d i r root in
    ap (λ t. (if t then 1 else 0) + count_roots e is) same
    ∙ ap (λ t. (if at d.parent i == i then 1 else 0) + t)
        (count_roots-KeepsRoots d e is forest k hs)

Below-Mem : {n x : ℕ} {is : List ℕ} → Below n is → Mem x is → x < n
Below-Mem no_item m = elim m [ ]
Below-Mem (below i is h hs) (first _) = h
Below-Mem (below i is h hs) (later _ _ m) = Below-Mem hs m

add_if :
    (t t' : Bool) (a c c' : ℕ)
    → t ≡ t'
    → c ≡ c'
    → (if t then a + 1 else a) + c ≡ a + ((if t' then 1 else 0) + c')
add_if true true a c c' e f = omega (arith, f)
add_if true false a c c' e f = cc
add_if false true a c c' e f = cc
add_if false false a c c' e f = omega (arith, f)

pub root_loop_lem :
    (d : Dsu) (out : ConnectedComponents) (order : List ℕ)
    → IsDsu d
    → Below d.n order
    → Below (length out.parent_arr) order
    → Read d out order (root_loop d out order)
unfolding root_loop record_root count_roots
root_loop_lem d out [] forest no_item no_item = record {
  state = d;
  answer = out;
  returns = refl;
  keeps = KeepsRoots-refl d forest;
  sized = refl;
  read = λ i m. absurd (Mem-nil i m);
  unread = λ i m. refl;
  counted = omega arith;
}
root_loop_lem d out (i ∷ is) forest (below _ _ h hs) (below _ _ len lens) =
    let (e, root, finds, k, leads, _) = find_root_lem d i forest h in
    let out1 = record_root out i root in
    let len1 = length-set out.parent_arr i root in
    let more = root_loop_lem e out1 is k.forest (rw k.items hs) (rw len1 lens) in
    record {
      state = more.state;
      answer = more.answer;
      returns = rw finds more.returns;
      keeps = KeepsRoots-trans d e more.state k more.keeps;
      sized = more.sized ∙ len1;
      read = λ x m. elim (Mem-dec x is) [
        | inl m' ↦
            backward d e forest k (get_or more.answer.parent_arr x 0) x
              (Below-Mem (below i is h hs) m) (more.read x m')
        | inr n ↦
            let same : x ≡ i = ⊎_elim (λ s. s) (λ m'. absurd (n m')) (Mem-cons x i is m) in
            let value : get_or more.answer.parent_arr x 0 ≡ root =
              more.unread x n
              ∙ ap (λ z. get_or (set out.parent_arr i root) z 0) same
              ∙ get_or-set_self out.parent_arr i root 0 len in
            subst (λ z. HasRoot d z x) (sym value) (subst (HasRoot d root) (sym same) leads)
      ];
      unread = λ x m.
          more.unread x (λ m'. m (later i is m'))
          ∙ get_or-set_ne out.parent_arr i x root 0
              (λ same. m (subst (λ z. Mem z (i ∷ is)) same (first is)));
      counted =
          more.counted
          ∙ add_if (root == i) (at d.parent i == i) out.num_cc (count_roots e is) (count_roots d is)
              (root_self d i root leads) (count_roots-KeepsRoots d e is forest k hs);
    }

-- On a valid `dsu` of the graph's vertices the constructor ends, whatever the order of its loop.
-- For the vertices that it visits the answer holds their roots, the state keeps the same sets, and
-- the count is that of the roots among them.
pub new_components_lem :
    (d : Dsu) (order : List ℕ)
    → IsDsu d
    → Below d.n order
    → Read d
        (record { parent_arr = replicate d.n 0; num_vertices = d.n; num_cc = 0 })
        order
        (new_components d.n d order)
unfolding new_components
new_components_lem d order forest inside =
    root_loop_lem d (record { parent_arr = replicate d.n 0; num_vertices = d.n; num_cc = 0 }) order
      forest inside (rw (length-replicate {A = ℕ} d.n 0) inside)

-- On a valid `dsu` whose loop has returned an answer, two visited vertices are connected in the
-- answer exactly if they are in one set.
pub is_connected_lem :
    (d e : Dsu) (c : ConnectedComponents) (order : List ℕ)
    → IsDsu d
    → Below d.n order
    → new_components d.n d order ≡ some (e, c)
    → (a b : ℕ) → Mem a order
    → Mem b order
    → (is_connected c a b ≡ true) ↔ SameSet d a b
unfolding is_connected
is_connected_lem d e c order forest inside runs a b ma mb =
    let r = new_components_lem d order forest inside in
    let same : r.answer ≡ c =
      ap (λ (p : Dsu × ConnectedComponents). p.1) (Option.some_inj.0 (sym r.returns ∙ runs)) in
    let root_a = subst (λ z. HasRoot d (get_or z.parent_arr a 0) a) same (r.read a ma) in
    let root_b = subst (λ z. HasRoot d (get_or z.parent_arr b 0) b) same (r.read b mb) in
    (
      λ h. (get_or c.parent_arr a 0, root_a, subst (λ z. HasRoot d z b) (sym (==→eq _ _ h)) root_b),
      λ (s, p, q). eq→== _ _ (Root-unique root_a p ∙ Root-unique q root_b),
    )
