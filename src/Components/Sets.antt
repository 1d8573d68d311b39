-- ===== src/Components/Sets.antt =====
-- `get_component_sets` of src/return_types.cpp divides the vertices into the sets of one root each.
use graph_streaming_cc.Prelude.{
  ℕ, zero, suc, ◌+◌, ◌≤◌, ◌<◌, ◌≡◌, ◌≢◌, refl, sym, ap, subst, ◌∙◌, inl, inr, arith, Bool, true,
  false, ◌&&◌, ◌||◌, ◌==◌, ltb, leb, if◌then◌else◌, List, [], ◌∷◌, map, get_or, range_from,
  Bool-cases, ltb→lt, lt→ltb, ltb-false→le, ◌⊎◌, eq-or-ne, eq→==, ne→==-false,
}
use graph_streaming_cc.Components.{
  ConnectedComponents, is_connected, insert_ordered, add_to, sets_loop, get_component_sets,
}

-- Whether a set has the vertex.
pub has : List ℕ → ℕ → Bool
has [] x = false
has (y ∷ ys) x = y == x || has ys x

-- Whether one of the sets has both vertices.
pub together : ℕ → ℕ → List (List ℕ) → Bool
unfolding has
together a b [] = false
together a b (s ∷ sets) = (has s a && has s b) || together a b sets

-- How many of the sets have the vertex.
pub sets_of : ℕ → List (List ℕ) → ℕ
unfolding has
sets_of x [] = 0
sets_of x (s ∷ sets) = (if has s x then 1 else 0) + sets_of x sets

has-insert_ordered : (i x : ℕ) (s : List ℕ) → has (insert_ordered i s) x ≡ (i == x || has s x)
unfolding has insert_ordered
has-insert_ordered i x [] = refl
has-insert_ordered i x (y ∷ ys) = ground (arith, has-insert_ordered i x ys)

-- Keys in order from `lo` on, each with the vertices that `m` gives it, and all that `m` gives.
data Groups (m : ℕ → ℕ → Bool) : ℕ → List (ℕ × List ℕ) → Type 0 where
  no_group : (lo : ℕ) → ((k x : ℕ) → lo ≤ k → m k x ≡ false) → Groups m lo []
  group :
      (lo k : ℕ) (s : List ℕ) (rest : List (ℕ × List ℕ))
      → lo ≤ k
      → ((j x : ℕ) → lo ≤ j → j < k → m j x ≡ false)
      → ((x : ℕ) → has s x ≡ m k x)
      → Groups m (suc k) rest
      → Groups m lo ((k, s) ∷ rest)

Groups_ext :
    (m m' : ℕ → ℕ → Bool) (lo : ℕ) (temp : List (ℕ × List ℕ))
    → ((k x : ℕ) → lo ≤ k → m' k x ≡ m k x)
    → Groups m lo temp
    → Groups m' lo temp
Groups_ext m m' lo [] same (no_group _ none) = no_group lo (λ k x h. same k x h ∙ none k x h)
Groups_ext m m' lo _ same (group _ k s rest low gap items more) =
    group lo k s rest low (λ j x h h'. same j x h ∙ gap j x h h')
      (λ x. items x ∙ sym (same k x low))
      (Groups_ext m m' (suc k) rest (λ j x h. same j x (omega arith)) more)

-- With one vertex more.
abbrev with_item : (ℕ → ℕ → Bool) → ℕ → ℕ → ℕ → ℕ → Bool
with_item m root i k x = (k == root && i == x) || m k x

with_item-other : (m : ℕ → ℕ → Bool) (root i k x : ℕ) → k ≢ root → with_item m root i k x ≡ m k x
with_item-other m root i k x ne = rw (ne→==-false k root ne) refl

add_to-Groups :
    (m : ℕ → ℕ → Bool) (lo root i : ℕ) (temp : List (ℕ × List ℕ))
    → lo ≤ root
    → Groups m lo temp
    → Groups (with_item m root i) lo (add_to root i temp)
unfolding add_to has
add_to-Groups m lo root i [] low (no_group _ none) =
    group lo root (i ∷ []) [] low
      (λ j x h h'. with_item-other m root i j x (omega arith) ∙ none j x h)
      (λ x. rw (eq→== root root refl, none root x low) refl)
      (no_group (suc root)
        (λ k x h. with_item-other m root i k x (omega arith) ∙ none k x (omega arith)))
add_to-Groups m lo root i _ low (group _ k s rest lok gap items more) = elim (eq-or-ne k root) [
  | inl e ↦ rw (eq→== k root e) (
      group lo k (insert_ordered i s) rest lok
        (λ j x h h'. with_item-other m root i j x (omega arith) ∙ gap j x h h')
        (λ x.
          has-insert_ordered i x s
          ∙ ap (λ t. i == x || t) (items x)
          ∙ ap (λ t. (t && i == x) || m k x) (sym (eq→== k root e)))
        (beyond k (omega (arith, e)) more))
  | inr ne ↦ elim (Bool-cases (ltb root k)) [
    | inl before ↦
        let lt : root < k = ltb→lt root k before in
        rw (ne→==-false k root ne, before)
          (group lo root (i ∷ []) ((k, s) ∷ rest) low
            (λ j x h h'. with_item-other m root i j x (omega arith) ∙ gap j x h (omega arith))
            (λ x. rw (eq→== root root refl, gap root x low lt) refl)
            (group (suc root) k s rest (omega arith)
              (λ j x h h'. with_item-other m root i j x (omega arith) ∙ gap j x (omega arith) h')
              (λ x. items x ∙ sym (with_item-other m root i k x ne)) (beyond k (omega arith) more)))
    | inr after ↦
        let ge : k ≤ root = ltb-false→le root k after in
        rw (ne→==-false k root ne, after)
          (group lo k s (add_to root i rest) lok
            (λ j x h h'. with_item-other m root i j x (omega arith) ∙ gap j x h h')
            (λ x. items x ∙ sym (with_item-other m root i k x ne))
            (add_to-Groups m (suc k) root i rest (omega (arith, ne)) more))
  ]
]
  where
    beyond : (k : ℕ) → root ≤ k → Groups m (suc k) rest → Groups (with_item m root i) (suc k) rest
    beyond k h g =
        Groups_ext m (with_item m root i) (suc k) rest
          (λ j x h'. with_item-other m root i j x (omega arith)) g

-- The vertices below `n`, each at its root.
abbrev of_root : List ℕ → ℕ → ℕ → ℕ → Bool
of_root parent_arr n k x = ltb x n && get_or parent_arr x 0 == k

of_root-next :
    (parent_arr : List ℕ) (n k x : ℕ)
    → of_root parent_arr (suc n) k x
      ≡ with_item (of_root parent_arr n) (get_or parent_arr n 0) n k x
of_root-next parent_arr n k x = elim (eq-or-ne n x) [
  | inl e ↦
      at_end (get_or parent_arr x 0) (get_or parent_arr n 0) e (ap (λ z. get_or parent_arr z 0) e)
  | inr ne ↦ elsewhere (get_or parent_arr x 0) (get_or parent_arr n 0) ne
]
  where
    at_end :
        (p q : ℕ)
        → n ≡ x
        → q ≡ p
        → (ltb x (suc n) && p == k) ≡ ((k == q && n == x) || (ltb x n && p == k))
    at_end p q e f = ground arith

    elsewhere :
        (p q : ℕ) → n ≢ x → (ltb x (suc n) && p == k) ≡ ((k == q && n == x) || (ltb x n && p == k))
    elsewhere p q ne = ground arith

sets_loop-Groups :
    (parent_arr : List ℕ) (lo n : ℕ) (temp : List (ℕ × List ℕ))
    → Groups (of_root parent_arr lo) 0 temp
    → Groups (of_root parent_arr (lo + n)) 0 (sets_loop parent_arr temp (range_from lo n))
unfolding sets_loop
sets_loop-Groups parent_arr lo zero temp g =
    Groups_ext (of_root parent_arr lo) (of_root parent_arr (lo + 0)) 0 temp
      (λ k x h. ap (λ t. ltb x t && get_or parent_arr x 0 == k) (omega arith)) g
sets_loop-Groups parent_arr lo (suc n) temp g =
    let more : Groups (of_root parent_arr (suc lo)) 0 (add_to (get_or parent_arr lo 0) lo temp) =
      Groups_ext (with_item (of_root parent_arr lo) (get_or parent_arr lo 0) lo)
        (of_root parent_arr (suc lo)) 0 (add_to (get_or parent_arr lo 0) lo temp)
        (λ k x h. of_root-next parent_arr lo k x)
        (add_to-Groups (of_root parent_arr lo) 0 (get_or parent_arr lo 0) lo temp (omega arith)
          g) in
    subst
      (λ t.
        Groups (of_root parent_arr t) 0
          (sets_loop parent_arr (add_to (get_or parent_arr lo 0) lo temp) (range_from (suc lo) n)))
      (omega arith)
      (sets_loop-Groups parent_arr (suc lo) n (add_to (get_or parent_arr lo 0) lo temp) more)

true≢false : ¬ (true ≡ false)
true≢false e = cc

below_or_from : (n lo : ℕ) → ¬ (lo ≤ n) → n < lo
below_or_from n lo h = elim (Bool-cases (ltb n lo)) [
  | inl lt ↦ ltb→lt n lo lt
  | inr ge ↦ absurd (h (ltb-false→le n lo ge))
]

outside_gap : (r lo k : ℕ) → (lo ≤ r → ¬ (r < k)) → (r < lo) ⊎ (k ≤ r)
outside_gap r lo k h = elim (Bool-cases (ltb r lo)) [
  | inl lt ↦ inl (ltb→lt r lo lt)
  | inr ge ↦ elim (Bool-cases (ltb r k)) [
    | inl lt ↦ absurd (h (ltb-false→le r lo ge) (ltb→lt r k lt))
    | inr from ↦ inr (ltb-false→le r k from)
  ]
]

-- Of a vertex with its own key `ra`, and one with the key `rb`.
module _ (m : ℕ → ℕ → Bool) (a ra : ℕ) (own : (k : ℕ) → m k a ≡ (ra == k)) where
  not_own : ¬ (m ra a ≡ false)
  not_own h = true≢false (sym (eq→== ra ra refl) ∙ sym (own ra) ∙ h)

  sets_of-Groups :
      (lo : ℕ) (temp : List (ℕ × List ℕ))
      → Groups m lo temp
      → sets_of a (map (λ it. it.1) temp) ≡ (if leb lo ra then 1 else 0)
  unfolding sets_of
  sets_of-Groups lo [] (no_group _ none) =
      let lt : ra < lo = below_or_from ra lo (λ h. not_own (none ra a h)) in ground arith
  sets_of-Groups lo _ (group _ k s rest low gap items more) =
      count_next (has s a) (sets_of a (map (λ it. it.1) rest)) (items a ∙ own k)
        (sets_of-Groups (suc k) rest more) (outside_gap ra lo k (λ h h'. not_own (gap ra a h h')))
    where
      count_next :
          (h : Bool) (t : ℕ)
          → h ≡ (ra == k)
          → t ≡ (if leb (suc k) ra then 1 else 0)
          → (ra < lo) ⊎ (k ≤ ra)
          → (if h then 1 else 0) + t ≡ (if leb lo ra then 1 else 0)
      count_next h t e f d = ground arith

  module _ (b rb : ℕ) (other : (k : ℕ) → m k b ≡ (rb == k)) where
    together-Groups :
        (lo : ℕ) (temp : List (ℕ × List ℕ))
        → Groups m lo temp
        → together a b (map (λ it. it.1) temp) ≡ (leb lo ra && ra == rb)
    unfolding together
    together-Groups lo [] (no_group _ none) =
        let lt : ra < lo = below_or_from ra lo (λ h. not_own (none ra a h)) in ground arith
    together-Groups lo _ (group _ k s rest low gap items more) =
        together_next (has s a) (has s b) (together a b (map (λ it. it.1) rest)) (items a ∙ own k)
          (items b ∙ other k) (together-Groups (suc k) rest more)
          (outside_gap ra lo k (λ h h'. not_own (gap ra a h h')))
      where
        together_next :
            (h h' t : Bool)
            → h ≡ (ra == k)
            → h' ≡ (rb == k)
            → t ≡ (leb (suc k) ra && ra == rb)
            → (ra < lo) ⊎ (k ≤ ra)
            → ((h && h') || t) ≡ (leb lo ra && ra == rb)
        together_next h h' t e e' f d = ground arith

from_zero : (n : ℕ) → leb 0 n ≡ true
from_zero n = ground arith

-- Every vertex is in exactly one of the sets, and two vertices are in the same one exactly if they
-- are connected in the answer.
pub get_component_sets_lem :
    (c : ConnectedComponents) (a b : ℕ)
    → a < c.num_vertices
    → b < c.num_vertices
    → (sets_of a (get_component_sets c) ≡ 1)
      × (together a b (get_component_sets c) ≡ is_connected c a b)
unfolding get_component_sets is_connected
get_component_sets_lem c a b ha hb =
    let m : ℕ → ℕ → Bool = of_root c.parent_arr c.num_vertices in
    let groups : Groups m 0 (sets_loop c.parent_arr [] (range_from 0 c.num_vertices)) =
      subst
        (λ t.
          Groups (of_root c.parent_arr t) 0
            (sets_loop c.parent_arr [] (range_from 0 c.num_vertices)))
        (omega arith)
        (sets_loop-Groups c.parent_arr 0 c.num_vertices [] (no_group 0 (λ k x h. ground arith))) in
    let own : (x : ℕ) → x < c.num_vertices → (k : ℕ) → m k x ≡ (get_or c.parent_arr x 0 == k) =
      λ x h k. ap (λ t. t && get_or c.parent_arr x 0 == k) (lt→ltb x c.num_vertices h) in
    (
      sets_of-Groups m a (get_or c.parent_arr a 0) (own a ha) 0 _ groups
          ∙ ap (λ t. if t then 1 else 0) (from_zero (get_or c.parent_arr a 0)),
      together-Groups m a (get_or c.parent_arr a 0) (own a ha) b (get_or c.parent_arr b 0)
            (own b hb) 0 _ groups
          ∙ ap (λ t. t && get_or c.parent_arr a 0 == get_or c.parent_arr b 0)
              (from_zero (get_or c.parent_arr a 0)),
    )
