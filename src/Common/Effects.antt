-- ===== src/Common/Effects.antt =====
-- A service call: it answers or throws, and what was written before a throw stays written.
use mathlib.Core.Path.{◌≡◌, refl, ap}
use mathlib.Core.Logic.{◌⊎◌, inl, inr}
use mathlib.Core.Option.{Option, none, some}
use mathlib.Core.Bool.{Bool, true, false}

-- The exceptions of the NestJS services, the failed condition of a DynamoDB call, and `failure` for any
-- other thrown value.
pub data Error : Type 0 where
  not_found forbidden bad_request conditional_check_failed failure : Error

pub data Result (A : Type 0) : Type 0 where
  ok : A → Result A
  err : Error → Result A

pub Result-cases :
    {A : Type 0} (r : Result A) → ((a : A) × (r ≡ ok a)) ⊎ ((e : Error) × (r ≡ err e))
Result-cases (ok a) = inl (a, refl)
Result-cases (err e) = inr (e, refl)

abbrev pub Action : Type 0 → Type 0 → Type 0
Action S A = S → Result A × S

module _ {S A : Type 0} where
  abbrev pub pure : A → Action S A
  pure a s = (ok a, s)

  abbrev pub throw : Error → Action S A
  throw e s = (err e, s)

  abbrev pub gets : (S → A) → Action S A
  gets f s = (ok (f s), s)

  abbrev pub or_throw : Error → Option A → Action S A
  or_throw e none = throw e
  or_throw e (some a) = pure a

infixl 5 ◌>>=◌ ◌>>◌
abbrev pub ◌>>=◌ : {S A B : Type 0} → Action S A → (A → Action S B) → Action S B
◌>>=◌ m f s = let (r, s') = m s in elim r [ ok a ↦ f a s' | err e ↦ throw e s' ]

abbrev pub ◌>>◌ : {S A B : Type 0} → Action S A → Action S B → Action S B
m >> k = m >>= λ _. k

abbrev pub throw_if : {S : Type 0} → Bool → Error → Action S (Unit {0})
throw_if true e s = (err e, s)
throw_if false e s = (ok tt, s)

abbrev pub modify : {S : Type 0} → (S → S) → Action S (Unit {0})
modify f s = (ok tt, f s)

-- `if (test) { … }`
abbrev pub when : {S : Type 0} → Bool → Action S (Unit {0}) → Action S (Unit {0})
when true m = m
when false m = pure tt

-- `try { … } catch (e) { … }`
abbrev pub catch : {S A : Type 0} → Action S A → (Error → Action S A) → Action S A
catch m h s = let (r, s') = m s in elim r [ ok a ↦ (ok a, s') | err e ↦ h e s' ]

-- A call that answers is followed by the next.
pub bind-ok :
    {S A B : Type 0} (m : Action S A) (f : A → Action S B) (s after : S) (a : A)
    → m s ≡ (ok a, after)
    → (m >>= f) s ≡ f a after
bind-ok m f s after a e = ap (λ x. elim x.0 [ ok b ↦ f b x.1 | err d ↦ throw d x.1 ]) e

pub bind-err :
    {S A B : Type 0} (m : Action S A) (f : A → Action S B) (s after : S) (e : Error)
    → m s ≡ (err e, after)
    → (m >>= f) s ≡ (err e, after)
bind-err m f s after e h = ap (λ x. elim x.0 [ ok b ↦ f b x.1 | err d ↦ throw d x.1 ]) h

pub catch-ok :
    {S A : Type 0} (m : Action S A) (h : Error → Action S A) (s after : S) (a : A)
    → m s ≡ (ok a, after)
    → catch m h s ≡ (ok a, after)
catch-ok m h s after a e = ap (λ x. elim x.0 [ ok b ↦ (ok b, x.1) | err d ↦ h d x.1 ]) e

pub catch-err :
    {S A : Type 0} (m : Action S A) (h : Error → Action S A) (s after : S) (e : Error)
    → m s ≡ (err e, after)
    → catch m h s ≡ h e after
catch-err m h s after e q = ap (λ x. elim x.0 [ ok b ↦ (ok b, x.1) | err d ↦ h d x.1 ]) q
