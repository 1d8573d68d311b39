-- ===== src/Prelude/Calls.antt =====
-- A call that returns, with what holds of its result.
use mathlib.Core.Path.{◌≡◌, refl, ap, subst, sym, ◌∙◌}
use mathlib.Core.Bool.{Bool, true, false}
use mathlib.Core.Option.{Option, none, some}
use mathlib.Core.Option
use graph_streaming_cc.Prelude.Tests.{◌>>=◌, if◌then◌else◌}

pub record Returns {ℓ κ} {A : Type ℓ} (P : A → Type κ) (o : Option A) : Type (ℓ ⊔ κ) where
  pub out : A
  pub returns : o ≡ some out
  pub holds : P out

pub Returns-some {ℓ κ} : {A : Type ℓ} {P : A → Type κ} (a : A) → P a → Returns P (some a)
Returns-some a p = record { out = a; returns = refl; holds = p }

pub Returns-map {ℓ ℓ' κ κ'} :
    {A : Type ℓ} {B : Type ℓ'} {P : A → Type κ} {R : B → Type κ'} (f : A → B) (o : Option A)
    → Returns P o
    → ((a : A) → P a → R (f a))
    → Returns R (Option.map f o)
Returns-map f o r k = record {
  out = f r.out;
  returns = ap (Option.map f) r.returns;
  holds = k r.out r.holds;
}

pub Returns-bind {ℓ ℓ' κ κ'} :
    {A : Type ℓ} {B : Type ℓ'} {P : A → Type κ} {R : B → Type κ'} (o : Option A) (f : A → Option B)
    → Returns P o
    → ((a : A) → P a → Returns R (f a))
    → Returns R (o >>= f)
Returns-bind o f r k =
    let next = k r.out r.holds in
    record {
      out = next.out;
      returns = ap (λ z. z >>= f) r.returns ∙ next.returns;
      holds = next.holds;
    }

pub Returns-if {ℓ κ} :
    {A : Type ℓ} {P : A → Type κ} (b : Bool) (x y : Option A)
    → (b ≡ true → Returns P x)
    → (b ≡ false → Returns P y)
    → Returns P (if b then x else y)
Returns-if true x y hx hy = hx refl
Returns-if false x y hx hy = hy refl

-- A test that succeeds.
pub Returns-then {ℓ κ} :
    {A : Type ℓ} {P : A → Type κ} (b : Bool) (x y : Option A)
    → b ≡ true
    → Returns P x
    → Returns P (if b then x else y)
Returns-then {A} {P} b x y e hx = subst (λ z. Returns P (if z then x else y)) (sym e) hx

pub Returns-weaken {ℓ κ κ'} :
    {A : Type ℓ} {P : A → Type κ} {R : A → Type κ'} (o : Option A)
    → Returns P o
    → ((a : A) → P a → R a)
    → Returns R o
Returns-weaken o r k = record { out = r.out; returns = r.returns; holds = k r.out r.holds }

-- What holds of the result of a call, if it returns.
pub data Always {ℓ κ} {A : Type ℓ} (P : A → Type κ) : Option A → Type (ℓ ⊔ κ) where
  no_result : Always P none
  result : (a : A) → P a → Always P (some a)

pub Always-map {ℓ ℓ' κ κ'} :
    {A : Type ℓ} {B : Type ℓ'} {P : A → Type κ} {R : B → Type κ'} (f : A → B) (o : Option A)
    → Always P o
    → ((a : A) → P a → R (f a))
    → Always R (Option.map f o)
Always-map f none no_result k = no_result
Always-map f (some a) (result _ p) k = result (f a) (k a p)

pub Always-bind {ℓ ℓ' κ κ'} :
    {A : Type ℓ} {B : Type ℓ'} {P : A → Type κ} {R : B → Type κ'} (o : Option A) (f : A → Option B)
    → Always P o
    → ((a : A) → P a → Always R (f a))
    → Always R (o >>= f)
Always-bind none f no_result k = no_result
Always-bind (some a) f (result _ p) k = k a p

pub Always-if {ℓ κ} :
    {A : Type ℓ} {P : A → Type κ} (b : Bool) (x y : Option A)
    → (b ≡ true → Always P x)
    → (b ≡ false → Always P y)
    → Always P (if b then x else y)
Always-if true x y hx hy = hx refl
Always-if false x y hx hy = hy refl

pub Always-weaken {ℓ κ κ'} :
    {A : Type ℓ} {P : A → Type κ} {R : A → Type κ'} (o : Option A)
    → Always P o
    → ((a : A) → P a → R a)
    → Always R o
Always-weaken none no_result k = no_result
Always-weaken (some a) (result _ p) k = result a (k a p)

pub Always-some {ℓ κ} : {A : Type ℓ} {P : A → Type κ} {a : A} → Always P (some a) → P a
Always-some (result a p) = p

pub Always-any {ℓ} : {A : Type ℓ} (o : Option A) → Always (λ (_ : A). Unit {0}) o
Always-any none = no_result
Always-any (some a) = result a tt
