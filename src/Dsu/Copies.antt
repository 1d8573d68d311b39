-- ===== src/Dsu/Copies.antt =====
-- The copy and move constructors of include/dsu.h.
use graph_streaming_cc.Prelude.{
  ℕ, zero, suc, ◌≡◌, refl, ap, ap₂, subst, ◌∙◌, List, [], ◌∷◌, map, get_or, length, range_from,
}
use graph_streaming_cc.Dsu.{Dsu, copy_dsu, move_dsu}

copied_from :
    (x : ℕ) (xs : List ℕ) (a n : ℕ)
    → map (λ i. get_or (x ∷ xs) i 0) (range_from (suc a) n)
      ≡ map (λ i. get_or xs i 0) (range_from a n)
copied_from x xs a zero = refl
copied_from x xs a (suc n) = ap (λ t. get_or xs a 0 ∷ t) (copied_from x xs (suc a) n)

copied_array : (xs : List ℕ) → map (λ i. get_or xs i 0) (range_from 0 (length xs)) ≡ xs
copied_array [] = refl
copied_array (x ∷ xs) = ap (λ t. x ∷ t) (copied_from x xs 0 (length xs) ∙ copied_array xs)

-- A copy of a state whose arrays have an element for each item is equal to it. A move gives the new
-- object the state and leaves the old one without items.
copy_dsu_lem :
    (d : Dsu)
    → length d.parent ≡ d.n
    → length d.priority ≡ d.n
    → (copy_dsu d ≡ d) × ((move_dsu d).0 ≡ d) × ((move_dsu d).1.n ≡ 0)
unfolding copy_dsu move_dsu
copy_dsu_lem d parents priorities = (
  ap₂ (λ ps qs. record { n = d.n; parent = ps; priority = qs }) (copied d.parent d.n parents)
      (copied d.priority d.n priorities),
  refl,
  refl,
)
  where
    copied : (xs : List ℕ) (n : ℕ) → length xs ≡ n → map (λ i. get_or xs i 0) (range_from 0 n) ≡ xs
    copied xs n e = subst (λ t. map (λ i. get_or xs i 0) (range_from 0 t) ≡ xs) e (copied_array xs)
