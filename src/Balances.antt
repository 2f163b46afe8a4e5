-- ===== src/Balances.antt =====
-- The daily balances of a DAO: getDailyBalanceByDaoId of libs/dao-funds/src/dao-funds-receipt.service.ts
-- and getDailyTokenBalanceByDaoId of dao-funds-token-receipt.service.ts, which differ in the field of the
-- amount, with `getDays`, `patchDailyBalance` and `parseBlockTimestamp` of libs/utils/src/index.ts. Times
-- are natural numbers; the start of a day in the server's zone is a parameter.
pub mod Days
pub mod Changes
pub mod Reported
use astro_api_gateway.Common.{
  ℕ, zero, suc, ◌+◌, ◌-◌, ◌*◌, ◌/◌, ◌≡◌, ℤ, pos, negsuc, ◌+ℤ◌, negate, Bool, true, false, Option,
  none, some, List, [], ◌∷◌, String, ◌==◌, if◌then◌else◌, ltb, leb, nat_eq,
}

-- What is read of a receipt: the time in nanoseconds, the receiver and the deposit or amount.
pub record FundsChange : Type 0 where
  pub create_timestamp : ℕ
  pub receiver_id : String
  pub amount : ℕ

-- The object of balances by days, in the order in which the days were set.
abbrev pub Balances : Type 0
Balances = List (ℕ × ℤ)

abbrev pub day_millis : ℕ
day_millis = 86400000

abbrev pub parse_block_timestamp : ℕ → ℕ
parse_block_timestamp block_timestamp = block_timestamp / 1000000

-- A stable sort by times: a receipt goes after those that are not later.
abbrev pub insert_receipt : FundsChange → List FundsChange → List FundsChange
insert_receipt r [] = r ∷ []
insert_receipt r (q ∷ qs) =
    if ltb (parse_block_timestamp r.create_timestamp) (parse_block_timestamp q.create_timestamp)
    then r ∷ q ∷ qs
    else q ∷ insert_receipt r qs

abbrev pub sort_from : List FundsChange → List FundsChange → List FundsChange
sort_from sorted [] = sorted
sort_from sorted (r ∷ rs) = sort_from (insert_receipt r sorted) rs

abbrev pub get_value : ℕ → Balances → Option ℤ
get_value d [] = none
get_value d ((e, v) ∷ values) = if nat_eq e d then some v else get_value d values

abbrev pub set_value : ℕ → ℤ → Balances → Balances
set_value d v [] = (d, v) ∷ []
set_value d v ((e, w) ∷ values) =
    if nat_eq e d then (e, v) ∷ values else (e, w) ∷ set_value d v values

abbrev pub change_of : String → FundsChange → ℤ
change_of dao_id r = if r.receiver_id == dao_id then pos r.amount else negate (pos r.amount)

-- `time <= to; time += 86400000`, on fuel
unfoldable pub days_from : ℕ → ℕ → ℕ → List ℕ
days_from zero time to = []
days_from (suc fuel) time to =
    let rest = days_from fuel (time + day_millis) to in if leb time to then time ∷ rest else []

-- `value || prev || 0n`: a zero is passed over.
abbrev pub is_zero : ℤ → Bool
is_zero (pos n) = nat_eq n 0
is_zero (negsuc n) = false

abbrev pub or_else_value : Option ℤ → ℤ → ℤ
or_else_value none other = other
or_else_value (some v) other = if is_zero v then other else v

unfoldable pub patch_from : Option ℤ → List ℕ → Balances → Balances
patch_from prev [] values = values
patch_from prev (d ∷ days) values =
    let v = or_else_value (get_value d values) (or_else_value prev (pos 0)) in
    patch_from (some v) days (set_value d v values)

module _ (start_of_day : ℕ → ℕ) where
  -- The reduction, with the balance and the values so far.
  unfoldable pub balances_from : String → ℤ → Balances → List FundsChange → Balances
  balances_from dao_id balance values [] = values
  balances_from dao_id balance values (r ∷ rs) =
      let total = balance +ℤ change_of dao_id r in
      let day = start_of_day (parse_block_timestamp r.create_timestamp) in
      balances_from dao_id total (set_value day total values) rs

  -- One round a day from the start to the end is enough.
  abbrev pub get_days : ℕ → ℕ → List ℕ
  get_days from to =
      let start = start_of_day from in days_from (suc ((to - start) / day_millis)) start to

  abbrev pub first_day : ℕ → Balances → ℕ
  first_day year_ago [] = year_ago
  first_day year_ago ((d, v) ∷ values) = d

  -- The start of the day a year ago and of today are arguments.
  abbrev pub patch_daily_balance : ℕ → ℕ → Balances → Balances
  patch_daily_balance year_ago today values =
      patch_from none (get_days (first_day year_ago values) today) values

  -- The balances of the receipts that were read.
  unfoldable pub daily_balance : String → ℕ → ℕ → List FundsChange → Balances
  unfolding balances_from patch_from days_from
  daily_balance dao_id year_ago today receipts =
      patch_daily_balance year_ago today (balances_from dao_id (pos 0) [] (sort_from [] receipts))
