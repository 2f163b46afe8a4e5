-- ===== src/Common/Texts.antt =====
-- Texts: suffixes, case-insensitive comparison, and arrays of account names.
use Prim.Native.Nat.{ℕ, ◌+◌, ◌≤◌}
use Prim.Native.Char.{code}
use Prim.Native.String.{String, count}
use mathlib.Core.Logic.{inl, inr}
use text.Mathlib.TextLemmas.{length-cons}
use mathlib.Core.Path.{◌≡◌, refl, ap}
use mathlib.Core.Bool.{Bool, true, false, not, ◌&&◌, ◌||◌}
use mathlib.Core.List.{List, [], ◌∷◌, ◌++◌}
use native.Mathlib.Omega.{arith}
use text.Mathlib.Text.{◌==◌}
use text.Mathlib.TextEquality.{eq_iff}
use astro_api_gateway.Common.Booleans.{leb, nat_eq, if◌then◌else◌, Bool-cases}
use astro_api_gateway.Common.Lists.{filter, All}

-- `s.endsWith(t)`
unfoldable pub ends_with : String → String → Bool
ends_with String.[] t = String.[] == t
ends_with (String.◌∷◌ c s) t = String.◌∷◌ c s == t || ends_with s t

abbrev lower_code : ℕ → ℕ
lower_code c = if leb 65 c && leb c 90 then c + 32 else c

-- `s.toLowerCase() === t` for a text `t` of ASCII letters: no other letter than an ASCII one has
-- such a letter as its whole lower case, apart from the Kelvin sign (k).
unfoldable pub lower_eq : String → String → Bool
lower_eq String.[] String.[] = true
lower_eq String.[] (String.◌∷◌ d t) = false
lower_eq (String.◌∷◌ c s) String.[] = false
lower_eq (String.◌∷◌ c s) (String.◌∷◌ d t) = nat_eq (lower_code (code c)) (code d) && lower_eq s t

-- `xs.includes(a)`
abbrev pub includes : List String → String → Bool
includes [] a = false
includes (x ∷ xs) a = if x == a then true else includes xs a

-- `xs.filter((item) => item !== a)`
abbrev pub without : String → List String → List String
without a xs = filter (λ x. not (x == a)) xs

-- No text is listed twice.
abbrev pub IsUnique : List String → Type 0
IsUnique [] = Unit
IsUnique (x ∷ xs) = (includes xs x ≡ false) × IsUnique xs

pub includes-append :
    (xs ys : List String) (a : String)
    → includes (xs ++ ys) a ≡ (if includes xs a then true else includes ys a)
includes-append [] ys a = refl
includes-append (x ∷ xs) ys a = ground (arith, includes-append xs ys a)

pub includes-concat :
    (xs : List String) (a b : String)
    → includes (xs ++ a ∷ []) b ≡ (if includes xs b then true else a == b)
includes-concat xs a b = ground (arith, includes-append xs (a ∷ []) b)

pub includes-without :
    (xs : List String) (a b : String)
    → includes (without a xs) b ≡ (if b == a then false else includes xs b)
includes-without [] a b = ground arith
includes-without (x ∷ xs) a b =
    ground (arith, eq_iff x a, eq_iff x b, eq_iff b a, includes-without xs a b)

pub IsUnique-concat :
    (xs : List String) (a : String) → IsUnique xs → includes xs a ≡ false → IsUnique (xs ++ a ∷ [])
IsUnique-concat [] a u h = (refl, tt)
IsUnique-concat (x ∷ xs) a u h =
    ground (arith, IsUnique-concat xs a u.1, includes-concat xs a x, eq_iff x a, eq_iff a x)

pub IsUnique-without : (xs : List String) (a : String) → IsUnique xs → IsUnique (without a xs)
IsUnique-without [] a u = tt
IsUnique-without (x ∷ xs) a u = ground (arith, IsUnique-without xs a u.1, includes-without xs a x)

-- Every text ends with the empty one.
pub ends_with-nil : (s : String) → ends_with s "" ≡ true
unfolding ends_with
ends_with-nil String.[] = refl
ends_with-nil (String.◌∷◌ c s) = ground (arith, ends_with-nil s)

-- A suffix is not longer than the text.
pub ends_with-count : (s t : String) → ends_with s t ≡ true → count t ≤ count s
unfolding ends_with
ends_with-count String.[] t h = omega (arith, ap count ((eq_iff "" t).0 h))
ends_with-count (String.◌∷◌ c s) t h =
    ground (arith, eq_iff (String.◌∷◌ c s) t, ends_with-count s t, length-cons c s)

-- What holds of all texts of a list holds of one that it includes.
pub All-includes {ℓ} :
    (P : String → Type ℓ) (xs : List String) (a : String) → All P xs → includes xs a ≡ true → P a
All-includes P [] a h i = cc
All-includes P (x ∷ xs) a (p, h) i = elim (Bool-cases (x == a)) [
  | inl same ↦ rw (← (eq_iff x a).0 same) p
  | inr other ↦ All-includes P xs a h (ground arith)
]
