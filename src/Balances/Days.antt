-- ===== src/Balances/Days.antt =====
-- The days that are filled in: each gets the last balance that is not zero.
use astro_api_gateway.Common.{
  ℕ, zero, suc, ◌+◌, ◌*◌, ◌≤◌, ◌<◌, ◌≡◌, refl, ap, ◌∙◌, sym, inl, inr, ℤ, pos, Bool, true, false,
  Option, none, some, [], ◌∷◌, if◌then◌else◌, leb, nat_eq, Bool-cases, arith,
}
use astro_api_gateway.Balances.{
  Balances, day_millis, get_value, set_value, days_from, is_zero, or_else_value, patch_from,
}

pub get_value-set_value :
    (d e : ℕ) (v : ℤ) (values : Balances)
    → get_value d (set_value e v values) ≡ (if nat_eq e d then some v else get_value d values)
get_value-set_value d e v [] = refl
get_value-set_value d e v ((f, w) ∷ values) = ground (arith, get_value-set_value d e v values)

-- A day before those that are filled in is left.
get_value-patch_from :
    (fuel t to d : ℕ) (prev : Option ℤ) (values : Balances)
    → d < t
    → get_value d (patch_from prev (days_from fuel t to) values) ≡ get_value d values
unfolding days_from patch_from
get_value-patch_from zero t to d prev values h = refl
get_value-patch_from (suc fuel) t to d prev values h =
    let v = or_else_value (get_value t values) (or_else_value prev (pos 0)) in
    elim (Bool-cases (leb t to)) [
      | inl more ↦ rw (more) (
          get_value-patch_from fuel (t + day_millis) to d (some v) (set_value t v values)
            (omega arith)
          ∙ ground (arith, get_value-set_value d t v values))
      | inr done ↦ rw (done) refl
    ]

-- The balances at the ends of days, and the days that have a receipt.
module _ (balance : ℕ → ℤ) (has_receipt : ℕ → Bool) where
  abbrev pub day : ℕ → ℕ
  day k = k * day_millis

  -- A day without a receipt ends with the balance of the day before it.
  abbrev pub IsLinked : Type 0
  IsLinked = (k : ℕ) → has_receipt (day (suc k)) ≡ false → balance (day (suc k)) ≡ balance (day k)

  -- The balance before the day is that of the day, if it has no receipt and the balance is not zero.
  abbrev pub IsCarried : ℕ → Option ℤ → Type 0
  IsCarried k prev =
      has_receipt (day k) ≡ false
      → is_zero (balance (day k)) ≡ false
      → prev ≡ some (balance (day k))

  abbrev pub AreBalances : ℕ → Balances → Type 0
  AreBalances k values =
      (d : ℕ) → day k ≤ d → get_value d values ≡ (if has_receipt d then some (balance d) else none)

  abbrev filled : ℕ → Option ℤ → Balances → ℤ
  filled k prev values = or_else_value (get_value (day k) values) (or_else_value prev (pos 0))

  filled-balance :
      (k : ℕ) (prev : Option ℤ) (values : Balances)
      → AreBalances k values
      → IsCarried k prev
      → is_zero (balance (day k)) ≡ false
      → filled k prev values ≡ balance (day k)
  filled-balance k prev values known carried full = elim (Bool-cases (has_receipt (day k))) [
    | inl here ↦ ground (arith, known (day k), here, full)
    | inr missing ↦ ground (arith, known (day k), missing, full, carried missing full)
  ]

  IsCarried-next :
      (k : ℕ) (prev : Option ℤ) (values : Balances)
      → IsLinked
      → AreBalances k values
      → IsCarried k prev
      → IsCarried (suc k) (some (filled k prev values))
  IsCarried-next k prev values linked known carried missing full =
      let same : balance (day (suc k)) ≡ balance (day k) = linked k missing in
      let full_before : is_zero (balance (day k)) ≡ false = rw (← same) full in
      ap (λ v. some v) (filled-balance k prev values known carried full_before ∙ sym same)

  AreBalances-next :
      (k : ℕ) (v : ℤ) (values : Balances)
      → AreBalances k values
      → AreBalances (suc k) (set_value (day k) v values)
  AreBalances-next k v values known d later =
      ground (arith, get_value-set_value d (day k) v values, known d)

  -- On each of the days the balance is reported, where it is not zero.
  pub patch_from_lem :
      (fuel k j to : ℕ) (prev : Option ℤ) (values : Balances)
      → IsLinked
      → AreBalances k values
      → IsCarried k prev
      → k ≤ j
      → day j ≤ to
      → j < k + fuel
      → is_zero (balance (day j)) ≡ false
      → get_value (day j) (patch_from prev (days_from fuel (day k) to) values)
        ≡ some (balance (day j))
  unfolding days_from patch_from
  patch_from_lem zero k j to prev values linked known carried from in_time enough full =
      absurd (omega arith)
  patch_from_lem (suc fuel) k j to prev values linked known carried from in_time enough full =
      let v = filled k prev values in
      let more : leb (day k) to ≡ true = ground arith in
      let next : day k + day_millis ≡ day (suc k) = omega arith in
      elim (Bool-cases (nat_eq k j)) [
        | inl here ↦
            let at : k ≡ j = ground arith in
            let full_here : is_zero (balance (day k)) ≡ false = rw (at) full in
            let kept : get_value (day k) (set_value (day k) v values) ≡ some v =
              ground (arith, get_value-set_value (day k) (day k) v values) in
            rw (← at, more)
              (get_value-patch_from fuel (day k + day_millis) to (day k) (some v)
                  (set_value (day k) v values) (omega arith)
                ∙ kept
                ∙ ap (λ w. some w) (filled-balance k prev values known carried full_here))
        | inr later ↦
            rw (more, next)
              (patch_from_lem fuel (suc k) j to (some v) (set_value (day k) v values) linked
                (AreBalances-next k v values known)
                (IsCarried-next k prev values linked known carried) (ground arith) in_time
                (omega arith) full)
      ]
