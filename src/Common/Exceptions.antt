-- ===== src/Common/Exceptions.antt =====
-- Calls that may throw: `ok` returns, `err` is the exception that leaves the call.
use mathlib.Core.Path.{◌≡◌, refl}
use mathlib.Core.Logic.{◌⊎◌, inl, inr}
use mathlib.Core.Option.{Option, none, some}
use mathlib.Core.Bool.{Bool, true, false}

pub data Fallible {ℓ κ} (E : Type κ) (A : Type ℓ) : Type (ℓ ⊔ κ) where
  ok : A → Fallible E A
  err : E → Fallible E A

-- A test that throws, and a value that may be missing.
abbrev pub throw_if {ι} : {E : Type ι} → Bool → E → Fallible E (Unit {0})
throw_if false e = ok tt
throw_if true e = err e

abbrev pub or_throw {ℓ ι} : {E : Type ι} {A : Type ℓ} → Option A → E → Fallible E A
or_throw (some a) e = ok a
or_throw none e = err e

-- An exception skips what follows.
infixl 5 ◌>>=◌
abbrev pub ◌>>=◌ {ℓ κ ι} :
    {E : Type ι} {A : Type ℓ} {B : Type κ} → Fallible E A → (A → Fallible E B) → Fallible E B
err e >>= next = err e
ok a >>= next = next a

infixl 5 ◌>>◌
abbrev pub ◌>>◌ {κ ι} :
    {E : Type ι} {B : Type κ} → Fallible E (Unit {0}) → Fallible E B → Fallible E B
first >> rest = first >>= λ _. rest

-- To split on what a call gives and keep the equation.
pub Fallible-cases {ℓ ι} :
    {E : Type ι} {A : Type ℓ} (m : Fallible E A) → ((a : A) × (m ≡ ok a)) ⊎ ((e : E) × (m ≡ err e))
Fallible-cases (ok a) = inl (a, refl)
Fallible-cases (err e) = inr (e, refl)

-- What follows a call that returns can be read off what it returns.
pub ok-injective {ℓ ι} :
    {E : Type ι} {A : Type ℓ} {a b : A} → ◌≡◌ {A = Fallible E A} (ok a) (ok b) → a ≡ b
ok-injective h = cc

pub >>=-eq-ok {ℓ κ ι} :
    {E : Type ι} {A : Type ℓ} {B : Type κ} (call : Fallible E A) (next : A → Fallible E B)
    {result : B}
    → (call >>= next) ≡ ok result
    → (value : A) × (call ≡ ok value) × (next value ≡ ok result)
>>=-eq-ok (err e) next returns = cc
>>=-eq-ok (ok value) next returns = (value, refl, returns)

pub or_throw-eq-ok {ℓ ι} :
    {E : Type ι} {A : Type ℓ} (o : Option A) (e : E) {a : A} → or_throw o e ≡ ok a → o ≡ some a
or_throw-eq-ok none e h = cc
or_throw-eq-ok (some b) e h = cc

pub throw_if-eq-ok {ι} :
    {E : Type ι} (b : Bool) (e : E) {u : Unit {0}} → throw_if b e ≡ ok u → b ≡ false
throw_if-eq-ok true e h = cc
throw_if-eq-ok false e h = refl
