-- ===== src/Balances/Changes.antt =====
-- The running balance of sorted receipts, by days.
use astro_api_gateway.Common.{
  ℕ, ◌≤◌, ◌<◌, ◌≡◌, refl, ap, ◌∙◌, inl, inr, ℤ, pos, ◌+ℤ◌, Bool, true, false, ◌||◌, some, List, [],
  ◌∷◌, String, if◌then◌else◌, ltb, leb, nat_eq, Bool-cases, arith,
}
use astro_api_gateway.Balances.{
  FundsChange, Balances, parse_block_timestamp, insert_receipt, sort_from, get_value, set_value,
  change_of, balances_from,
}
use astro_api_gateway.Balances.Days.{get_value-set_value}

-- The time of a receipt in milliseconds.
abbrev pub time_of : FundsChange → ℕ
time_of r = parse_block_timestamp r.create_timestamp

abbrev pub AllFrom : ℕ → List FundsChange → Type 0
AllFrom t [] = Unit
AllFrom t (r ∷ rs) = (t ≤ time_of r) × AllFrom t rs

abbrev pub IsSorted : List FundsChange → Type 0
IsSorted [] = Unit
IsSorted (r ∷ rs) = AllFrom (time_of r) rs × IsSorted rs

insert_receipt-AllFrom :
    (t : ℕ) (r : FundsChange) (qs : List FundsChange)
    → t ≤ time_of r
    → AllFrom t qs
    → AllFrom t (insert_receipt r qs)
insert_receipt-AllFrom t r [] h a = (h, tt)
insert_receipt-AllFrom t r (q ∷ qs) h (g, a) = elim (Bool-cases (ltb (time_of r) (time_of q))) [
  | inl less ↦ rw (less) (h, (g, a))
  | inr more ↦ rw (more) (g, insert_receipt-AllFrom t r qs h a)
]

AllFrom-le : (t u : ℕ) (rs : List FundsChange) → u ≤ t → AllFrom t rs → AllFrom u rs
AllFrom-le t u [] h a = tt
AllFrom-le t u (r ∷ rs) h (g, a) = (omega arith, AllFrom-le t u rs h a)

insert_receipt-IsSorted :
    (r : FundsChange) (qs : List FundsChange) → IsSorted qs → IsSorted (insert_receipt r qs)
insert_receipt-IsSorted r [] s = (tt, tt)
insert_receipt-IsSorted r (q ∷ qs) (a, s) = elim (Bool-cases (ltb (time_of r) (time_of q))) [
  | inl less ↦
      rw (less) ((ground arith, AllFrom-le (time_of q) (time_of r) qs (ground arith) a), (a, s))
  | inr more ↦
      rw (more)
        (insert_receipt-AllFrom (time_of q) r qs (ground arith) a, insert_receipt-IsSorted r qs s)
]

pub sort_from-IsSorted :
    (sorted rs : List FundsChange) → IsSorted sorted → IsSorted (sort_from sorted rs)
sort_from-IsSorted sorted [] s = s
sort_from-IsSorted sorted (r ∷ rs) s =
    sort_from-IsSorted (insert_receipt r sorted) rs (insert_receipt-IsSorted r sorted s)

+ℤ_swap : (a b c : ℤ) → a +ℤ b +ℤ c ≡ a +ℤ c +ℤ b
unfolding ◌+ℤ◌
+ℤ_swap a b c = ground arith

module _ (start_of_day : ℕ → ℕ) (dao_id : String) where
  abbrev pub day_of : FundsChange → ℕ
  day_of r = start_of_day (time_of r)

  abbrev pub has_receipt : List FundsChange → ℕ → Bool
  has_receipt [] d = false
  has_receipt (r ∷ rs) d = nat_eq (day_of r) d || has_receipt rs d

  -- The balance with a receipt that is not after a day.
  abbrev pub counted : ℕ → FundsChange → ℤ → ℤ
  counted d r b = if leb (day_of r) d then b +ℤ change_of dao_id r else b

  -- The sum of the changes up to a day, onto what there was.
  abbrev pub balance_upto : ℤ → List FundsChange → ℕ → ℤ
  balance_upto b [] d = b
  balance_upto b (r ∷ rs) d = balance_upto (counted d r b) rs d

  counted_swap :
      (d : ℕ) (q r : FundsChange) (b : ℤ)
      → counted d r (counted d q b) ≡ counted d q (counted d r b)
  counted_swap d q r b = elim (Bool-cases (leb (day_of q) d)) [
    | inl first ↦ elim (Bool-cases (leb (day_of r) d)) [
      | inl second ↦ rw (first, second) (+ℤ_swap b (change_of dao_id q) (change_of dao_id r))
      | inr late ↦ rw (first, late) refl
    ]
    | inr early ↦ rw (early) refl
  ]

  insert_receipt-balance :
      (b : ℤ) (r : FundsChange) (qs : List FundsChange) (d : ℕ)
      → balance_upto b (insert_receipt r qs) d ≡ balance_upto b (r ∷ qs) d
  insert_receipt-balance b r [] d = refl
  insert_receipt-balance b r (q ∷ qs) d = elim (Bool-cases (ltb (time_of r) (time_of q))) [
    | inl less ↦ rw (less) refl
    | inr more ↦ rw (more) (
        insert_receipt-balance (counted d q b) r qs d
        ∙ ap (λ c. balance_upto c qs d) (counted_swap d q r b))
  ]

  balance_upto-onto :
      (b : ℤ) (r : FundsChange) (qs : List FundsChange) (d : ℕ)
      → balance_upto b (r ∷ qs) d ≡ counted d r (balance_upto b qs d)
  balance_upto-onto b r [] d = refl
  balance_upto-onto b r (q ∷ qs) d =
      ap (λ c. balance_upto c qs d) (counted_swap d r q b)
      ∙ balance_upto-onto (counted d q b) r qs d

  balance_upto-move :
      (b : ℤ) (r : FundsChange) (sorted rs : List FundsChange) (d : ℕ)
      → balance_upto (balance_upto b (insert_receipt r sorted) d) rs d
        ≡ balance_upto (balance_upto b sorted d) (r ∷ rs) d
  balance_upto-move b r sorted rs d =
      ap (λ c. balance_upto c rs d)
        (insert_receipt-balance b r sorted d ∙ balance_upto-onto b r sorted d)

  -- Sorting keeps the balances.
  pub sort_from-balance :
      (sorted rs : List FundsChange) (d : ℕ)
      → balance_upto (pos 0) (sort_from sorted rs) d
        ≡ balance_upto (balance_upto (pos 0) sorted d) rs d
  sort_from-balance sorted [] d = refl
  sort_from-balance sorted (r ∷ rs) d =
      sort_from-balance (insert_receipt r sorted) rs d ∙ balance_upto-move (pos 0) r sorted rs d

  module _ (by_time : (t u : ℕ) → t ≤ u → start_of_day t ≤ start_of_day u) where
    -- Receipts after a day change nothing of its balance.
    pub balance_upto-later :
        (b : ℤ) (t d : ℕ) (rs : List FundsChange)
        → AllFrom t rs
        → d < start_of_day t
        → balance_upto b rs d ≡ b
    balance_upto-later b t d [] a h = refl
    balance_upto-later b t d (r ∷ rs) (g, a) h =
        let late : leb (day_of r) d ≡ false = ground (arith, by_time t (time_of r) g) in
        rw (late) (balance_upto-later b t d rs a h)

    has_receipt-later :
        (t d : ℕ) (rs : List FundsChange)
        → AllFrom t rs
        → has_receipt rs d ≡ true
        → start_of_day t ≤ d
    has_receipt-later t d [] a h = absurd (ground arith)
    has_receipt-later t d (r ∷ rs) (g, a) h =
        ground (arith, by_time t (time_of r) g, has_receipt-later t d rs a)

    -- Where no receipt of the day follows a receipt, the day's balance is complete, if it was that day's.
    no_more :
        (b : ℤ) (d : ℕ) (r : FundsChange) (rs : List FundsChange)
        → AllFrom (time_of r) rs
        → has_receipt rs d ≡ false
        → day_of r ≡ d
        → balance_upto b rs d ≡ b
    no_more b d r [] a h at = refl
    no_more b d r (q ∷ rs) (g, a) h at =
        let late : leb (day_of q) d ≡ false = ground (arith, by_time (time_of r) (time_of q) g) in
        rw (late) (no_more b d r rs a (ground arith) at)

    -- The values after the reduction: the balance of each day with a receipt.
    pub get_value-balances_from :
        (b : ℤ) (values : Balances) (rs : List FundsChange) (d : ℕ)
        → IsSorted rs
        → get_value d (balances_from start_of_day dao_id b values rs)
          ≡ (if has_receipt rs d then some (balance_upto b rs d) else get_value d values)
    unfolding balances_from
    get_value-balances_from b values [] d s = refl
    get_value-balances_from b values (r ∷ rs) d (a, s) =
        let total = b +ℤ change_of dao_id r in
        let set = set_value (day_of r) total values in
        let rest = get_value-balances_from total set rs d s in
        elim (Bool-cases (has_receipt rs d)) [
          | inl later ↦
              let early : leb (day_of r) d ≡ true =
                ground (arith, has_receipt-later (time_of r) d rs a later) in
              ground (arith, rest, later, early)
          | inr none_later ↦ elim (Bool-cases (nat_eq (day_of r) d)) [
            | inl here ↦
                let early : leb (day_of r) d ≡ true = ground arith in
                let whole : balance_upto total rs d ≡ total =
                  no_more total d r rs a none_later (ground arith) in
                ground (
                  arith,
                  rest,
                  none_later,
                  here,
                  early,
                  whole,
                  get_value-set_value d (day_of r) total values,
                )
            | inr elsewhere ↦
                rest
                ∙ ground
                    (arith, none_later, elsewhere, get_value-set_value d (day_of r) total values)
          ]
        ]
