-- ===== src/Balances/Reported.antt =====
-- The reported balances: `getDailyBalanceByDaoId` against the sum of the changes up to each day, where days
-- start at the multiples of 86400000 milliseconds.
use astro_api_gateway.Common.{
  ℕ, suc, ◌-◌, ◌*◌, ◌/◌, ◌+◌, ◌≤◌, ◌<◌, ◌≡◌, refl, ap, ◌∙◌, sym, inl, inr, ℤ, pos, ◌+ℤ◌, true,
  false, none, some, List, [], ◌∷◌, String, leb, nat_eq, Bool-cases, arith,
}
use astro_api_gateway.Balances.{
  FundsChange, Balances, day_millis, sort_from, get_value, set_value, change_of, is_zero,
  balances_from, first_day, patch_daily_balance, patch_from, days_from, daily_balance,
}
use astro_api_gateway.Balances.Days.{patch_from_lem}
use astro_api_gateway.Balances.Changes.{
  time_of, AllFrom, IsSorted, day_of, has_receipt, balance_upto, counted, sort_from-IsSorted,
  sort_from-balance, balance_upto-later, get_value-balances_from,
}

-- The days start at the multiples of the day's milliseconds, as they do in UTC.
abbrev pub IsUtc : (ℕ → ℕ) → Type 0
IsUtc start_of_day = (t : ℕ) → start_of_day t ≡ t / day_millis * day_millis

-- The days from the first on reach the day.
within :
    (k j today : ℕ)
    → j * day_millis ≤ today
    → k ≤ j
    → j < k + suc ((today - k * day_millis) / day_millis)
within k j today in_time from = omega arith

leb-aligned :
    (q k : ℕ)
    → nat_eq (q * day_millis) (suc k * day_millis) ≡ false
    → leb (q * day_millis) (suc k * day_millis) ≡ leb (q * day_millis) (k * day_millis)
leb-aligned q k other = elim (Bool-cases (leb q k)) [
  | inl early ↦
      let far : leb (q * day_millis) (suc k * day_millis) ≡ true = ground arith in
      let near : leb (q * day_millis) (k * day_millis) ≡ true = ground arith in far ∙ sym near
  | inr late ↦
      let far : leb (q * day_millis) (suc k * day_millis) ≡ false = ground arith in
      let near : leb (q * day_millis) (k * day_millis) ≡ false = ground arith in far ∙ sym near
]

module _ (start_of_day : ℕ → ℕ) (dao_id : String) (utc : IsUtc start_of_day) where
  by_time : (t u : ℕ) → t ≤ u → start_of_day t ≤ start_of_day u
  by_time t u h = rw (utc t, utc u) (omega arith)

  -- The first key of the values stays.
  first_day-balances_from :
      (year_ago d : ℕ) (v b : ℤ) (values : Balances) (rs : List FundsChange)
      → first_day start_of_day year_ago (balances_from start_of_day dao_id b ((d, v) ∷ values) rs)
        ≡ d
  unfolding balances_from
  first_day-balances_from year_ago d v b values [] = refl
  first_day-balances_from year_ago d v b values (r ∷ rs) =
      let total = b +ℤ change_of dao_id r in
      elim (Bool-cases (nat_eq d (day_of start_of_day dao_id r))) [
        | inl same ↦ rw (same) (first_day-balances_from year_ago d total total values rs)
        | inr other ↦ rw (other) (
            first_day-balances_from year_ago d v total
              (set_value (day_of start_of_day dao_id r) total values) rs)
      ]

  counted_same :
      (b : ℤ) (r : FundsChange) (k : ℕ)
      → nat_eq (day_of start_of_day dao_id r) (suc k * day_millis) ≡ false
      → counted start_of_day dao_id (suc k * day_millis) r b
        ≡ counted start_of_day dao_id (k * day_millis) r b
  counted_same b r k other =
      let same : leb (day_of start_of_day dao_id r) (suc k * day_millis)
          ≡ leb (day_of start_of_day dao_id r) (k * day_millis) =
        rw (utc (time_of r))
          (leb-aligned (time_of r / day_millis) k (rw (← utc (time_of r)) other)) in
      rw (same) refl

  -- A day without a receipt ends with the balance of the day before.
  balance_upto-IsLinked :
      (b : ℤ) (rs : List FundsChange) (k : ℕ)
      → has_receipt start_of_day dao_id rs (suc k * day_millis) ≡ false
      → balance_upto start_of_day dao_id b rs (suc k * day_millis)
        ≡ balance_upto start_of_day dao_id b rs (k * day_millis)
  balance_upto-IsLinked b [] k h = refl
  balance_upto-IsLinked b (r ∷ rs) k h =
      let same : counted start_of_day dao_id (suc k * day_millis) r b
          ≡ counted start_of_day dao_id (k * day_millis) r b =
        counted_same b r k (ground arith) in
      ap (λ c. balance_upto start_of_day dao_id c rs (suc k * day_millis)) same
      ∙ balance_upto-IsLinked (counted start_of_day dao_id (k * day_millis) r b) rs k (ground arith)

  -- The balance of a day before the first receipt is zero.
  started :
      (j : ℕ) (r : FundsChange) (rs : List FundsChange)
      → AllFrom (time_of r) rs
      → is_zero (balance_upto start_of_day dao_id (pos 0) (r ∷ rs) (j * day_millis)) ≡ false
      → time_of r / day_millis ≤ j
  started j r rs a full = elim (Bool-cases (leb (time_of r / day_millis) j)) [
    | inl from ↦ ground arith
    | inr before ↦
        let early : j * day_millis < start_of_day (time_of r) =
          rw (utc (time_of r)) (ground arith) in
        absurd (
          ground (
            arith,
            full,
            balance_upto-later start_of_day dao_id by_time (pos 0) (time_of r) (j * day_millis)
                (r ∷ rs) (omega arith, a) early,
          ))
  ]

  reported :
      (year_ago today j : ℕ) (rs : List FundsChange)
      → IsSorted rs
      → j * day_millis ≤ today
      → is_zero (balance_upto start_of_day dao_id (pos 0) rs (j * day_millis)) ≡ false
      → get_value (j * day_millis) (
          patch_daily_balance start_of_day year_ago today
            (balances_from start_of_day dao_id (pos 0) [] rs))
        ≡ some (balance_upto start_of_day dao_id (pos 0) rs (j * day_millis))
  unfolding patch_from days_from balances_from
  reported year_ago today j [] s in_time full = absurd (ground arith)
  reported year_ago today j (r ∷ rs) (a, s) in_time full =
      let k = time_of r / day_millis in
      let values = balances_from start_of_day dao_id (pos 0) [] (r ∷ rs) in
      let first = first_day start_of_day year_ago values in
      let at_first : first ≡ k * day_millis =
        first_day-balances_from year_ago (day_of start_of_day dao_id r)
          (pos 0 +ℤ change_of dao_id r) (pos 0 +ℤ change_of dao_id r) [] rs
        ∙ utc (time_of r) in
      let start : start_of_day first ≡ k * day_millis =
        ap start_of_day at_first ∙ utc (k * day_millis) ∙ omega arith in
      rw (start) (
        patch_from_lem (balance_upto start_of_day dao_id (pos 0) (r ∷ rs))
          (has_receipt start_of_day dao_id (r ∷ rs)) (suc ((today - k * day_millis) / day_millis)) k
          j today none values (balance_upto-IsLinked (pos 0) (r ∷ rs))
          (λ d h. get_value-balances_from start_of_day dao_id by_time (pos 0) [] (r ∷ rs) d (a, s))
          (λ missing. absurd (ground (arith, missing, utc (time_of r)))) (started j r rs a full)
          in_time (within k j today in_time (started j r rs a full)) full)

-- On a server whose days start as in UTC, each day up to today whose balance is not zero is reported with
-- the sum of the changes of all receipts up to its end, in whatever order they were read.
pub daily_balance_lem :
    (start_of_day : ℕ → ℕ) (dao_id : String) (year_ago today j : ℕ) (receipts : List FundsChange)
    → IsUtc start_of_day
    → j * day_millis ≤ today
    → is_zero (balance_upto start_of_day dao_id (pos 0) receipts (j * day_millis)) ≡ false
    → get_value (j * day_millis) (daily_balance start_of_day dao_id year_ago today receipts)
      ≡ some (balance_upto start_of_day dao_id (pos 0) receipts (j * day_millis))
unfolding daily_balance
daily_balance_lem start_of_day dao_id year_ago today j receipts utc in_time full =
    let sorted = sort_from [] receipts in
    let same = sort_from-balance start_of_day dao_id [] receipts (j * day_millis) in
    reported start_of_day dao_id utc year_ago today j sorted (sort_from-IsSorted [] receipts tt)
      in_time (rw (same) full)
    ∙ ap (λ v. some v) same
