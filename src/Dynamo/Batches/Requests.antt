-- ===== src/Dynamo/Batches/Requests.antt =====
-- Lists of requests: how many have a property, and whether they are distinct.
use astro_api_gateway.Common.{
  ℕ, suc, ◌+◌, ◌≡◌, refl, ap, any, Bool, false, List, [], ◌∷◌, ◌++◌, map, length, All, arith,
  length-append, count_of,
}
use astro_api_gateway.Cache.Chunks.{concat}
use astro_api_gateway.Dynamo.Batches.{sum_from}

abbrev pub count : {A : Type 0} → (A → Bool) → List A → ℕ
count p [] = 0
count p (x ∷ xs) = count_of (p x) + count p xs

pub count-append :
    {A : Type 0} (p : A → Bool) (xs ys : List A) → count p (xs ++ ys) ≡ count p xs + count p ys
count-append p [] ys = omega arith
count-append p (x ∷ xs) ys = omega (arith, count-append p xs ys)

pub length-map : {A B : Type 0} (f : A → B) (xs : List A) → length (map f xs) ≡ length xs
length-map f [] = refl
length-map f (x ∷ xs) = ap suc (length-map f xs)

pub map-append :
    {A B : Type 0} (f : A → B) (xs ys : List A) → map f (xs ++ ys) ≡ map f xs ++ map f ys
map-append f [] ys = refl
map-append f (x ∷ xs) ys = rw (map-append f xs ys) refl

pub All-left :
    {A : Type 0} (P : A → Type 0) (xs ys : List A) → All P (xs ++ ys) → All P xs × All P ys
All-left P [] ys h = (tt, h)
All-left P (x ∷ xs) ys (p, h) = let (l, r) = All-left P xs ys h in ((p, l), r)

pub sum_from-length :
    {A : Type 0} (total : ℕ) (xss : List (List A))
    → sum_from total (map length xss) ≡ total + length (concat xss)
sum_from-length total [] = omega arith
sum_from-length total (xs ∷ xss) =
    omega (arith, sum_from-length (total + length xs) xss, length-append xs (concat xss))

-- No two of the requests are the same by a test.
abbrev pub AreDistinct : {A : Type 0} → (A → A → Bool) → List A → Type 0
AreDistinct same [] = Unit
AreDistinct same (x ∷ xs) = (any (same x) xs ≡ false) × AreDistinct same xs

any-append :
    {A : Type 0} (p : A → Bool) (xs ys : List A)
    → any p (xs ++ ys) ≡ false
    → (any p xs ≡ false) × (any p ys ≡ false)
any-append p [] ys h = (refl, h)
any-append p (x ∷ xs) ys h = ground (arith, any-append p xs ys)

pub AreDistinct-append :
    {A : Type 0} (same : A → A → Bool) (xs ys : List A)
    → AreDistinct same (xs ++ ys)
    → AreDistinct same xs × AreDistinct same ys
AreDistinct-append same [] ys h = (tt, h)
AreDistinct-append same (x ∷ xs) ys (new, h) =
    let (l, r) = AreDistinct-append same xs ys h in (((any-append (same x) xs ys new).0, l), r)
