-- ===== src/Driver/Shuffles.antt =====
-- The same destinations in another order, for include/graph_sketch_driver.h: they have the same
-- parities and are as many.
use graph_streaming_cc.Prelude.{
  ℕ, suc, ◌≡◌, refl, ap, ◌∙◌, arith, Bool, true, false, not, ◌==◌, if◌then◌else◌, List, [], ◌∷◌,
  ◌++◌, map, length, sym,
}
use graph_streaming_cc.Sketch.Update.Linear.{parity}
use graph_streaming_cc.Driver.{Shuffle, nothing, kept, swapped, both}

pub parity-Shuffle :
    (f : ℕ → ℕ) (x : ℕ) (xs ys : List ℕ) → Shuffle xs ys → parity x (map f xs) ≡ parity x (map f ys)
unfolding parity
parity-Shuffle f x _ _ nothing = refl
parity-Shuffle f x _ _ (kept a xs ys h) =
    ap (λ t. if f a == x then not t else t) (parity-Shuffle f x xs ys h)
parity-Shuffle f x _ _ (swapped a b xs) = twice (f a == x) (f b == x) (parity x (map f xs))
  where
    twice :
        (p q t : Bool)
        → (if p then not (if q then not t else t) else if q then not t else t)
          ≡ (if q then not (if p then not t else t) else if p then not t else t)
    twice true true t = refl
    twice true false t = refl
    twice false true t = refl
    twice false false t = refl
parity-Shuffle f x _ _ (both xs ys zs h k) = parity-Shuffle f x xs ys h ∙ parity-Shuffle f x ys zs k

length-Shuffle : (xs ys : List ℕ) → Shuffle xs ys → length xs ≡ length ys
length-Shuffle _ _ nothing = refl
length-Shuffle _ _ (kept x xs ys h) = ap suc (length-Shuffle xs ys h)
length-Shuffle _ _ (swapped x y xs) = refl
length-Shuffle _ _ (both xs ys zs h k) = length-Shuffle xs ys h ∙ length-Shuffle ys zs k

no_length : (xs : List ℕ) → length xs ≡ 0 → xs ≡ []
no_length [] h = refl
no_length (x ∷ xs) h = absurd (omega arith)

-- Two empty parts.
pub append-nil : (xs ys : List ℕ) → xs ++ ys ≡ [] → (xs ≡ []) × (ys ≡ [])
append-nil [] ys h = (refl, h)
append-nil (x ∷ xs) ys h = absurd (cons≢nil h)
  where
    cons≢nil : {y : ℕ} {zs : List ℕ} → ¬ (y ∷ zs ≡ [])
    cons≢nil e = cc

pub Shuffle-nil : (xs ys : List ℕ) → Shuffle xs ys → ys ≡ [] → xs ≡ []
Shuffle-nil xs ys h e = no_length xs (length-Shuffle xs ys h ∙ ap length e)

pub nil-Shuffle : (xs ys : List ℕ) → Shuffle xs ys → xs ≡ [] → ys ≡ []
nil-Shuffle xs ys h e = no_length ys (sym (length-Shuffle xs ys h) ∙ ap length e)

pub map-append : (f : ℕ → ℕ) (xs ys : List ℕ) → map f (xs ++ ys) ≡ map f xs ++ map f ys
map-append f [] ys = refl
map-append f (x ∷ xs) ys = ap (λ t. f x ∷ t) (map-append f xs ys)

pub append_nil : (xs : List ℕ) → xs ++ [] ≡ xs
append_nil [] = refl
append_nil (x ∷ xs) = ap (λ t. x ∷ t) (append_nil xs)

-- Exclusive or of parities.
abbrev pub or_else : Bool → Bool → Bool
or_else a b = if a then not b else b

pub or_else_assoc : (a b c : Bool) → or_else (or_else a b) c ≡ or_else a (or_else b c)
or_else_assoc true true true = refl
or_else_assoc true true false = refl
or_else_assoc true false c = refl
or_else_assoc false b c = refl

pub or_else-if :
    (a t h p : Bool)
    → or_else a (if t then (if h then not p else p) else p)
      ≡ (if t then (if h then not (or_else a p) else or_else a p) else or_else a p)
or_else-if true true true p = refl
or_else-if true true false p = refl
or_else-if true false h p = refl
or_else-if false t h p = refl
