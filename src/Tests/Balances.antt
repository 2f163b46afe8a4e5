-- ===== src/Tests/Balances.antt =====
-- The daily balances at concrete receipts.
use astro_api_gateway.Common.{ℕ, ◌+◌, ◌*◌, ◌/◌, ◌≡◌, refl, ◌+ℤ◌, pos, some, List, [], ◌∷◌, arith}
use astro_api_gateway.Balances.{
  FundsChange, day_millis, get_value, daily_balance, balances_from, patch_from, days_from,
}
use astro_api_gateway.Balances.Reported.{daily_balance_lem}

abbrev start_of_utc_day : ℕ → ℕ
start_of_utc_day t = t / day_millis * day_millis

-- Seven in at noon of the first day, five in on the third day.
abbrev unsorted_receipts : List FundsChange
unsorted_receipts =
    record { create_timestamp = 2 * day_millis * 1000000 + 4; receiver_id = "dao.near"; amount = 5 }
    ∷ record { create_timestamp = 43200000000000; receiver_id = "dao.near"; amount = 7 }
    ∷ []

daily_balance_lem_example :
    get_value
      (1 * day_millis)
      (daily_balance start_of_utc_day "dao.near" 0 (3 * day_millis) unsorted_receipts)
    ≡ some (pos 7)
unfolding ◌+ℤ◌
daily_balance_lem_example =
    daily_balance_lem start_of_utc_day "dao.near" 0 (3 * day_millis) 1 unsorted_receipts (λ t. refl)
      (omega arith) refl

-- Seven in, then all seven out: the day that ends with nothing is reported with the earlier seven.
abbrev spent_receipts : List FundsChange
spent_receipts =
    record { create_timestamp = 43200000000000; receiver_id = "dao.near"; amount = 7 }
    ∷ record { create_timestamp = 2 * day_millis * 1000000; receiver_id = "bob.near"; amount = 7 }
    ∷ []

spent_is_hidden :
    get_value
      (2 * day_millis)
      (daily_balance start_of_utc_day "dao.near" 0 (3 * day_millis) spent_receipts)
    ≡ some (pos 7)
unfolding daily_balance balances_from patch_from days_from ◌+ℤ◌
spent_is_hidden = refl
