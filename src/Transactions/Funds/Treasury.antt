-- ===== src/Transactions/Funds/Treasury.antt =====
-- What is stored of the funds of DAOs.
use astro_api_gateway.Common.{
  ℕ, ◌≡◌, refl, inl, inr, ◌<◌, true, false, ◌&&◌, ◌||◌, Option, none, some, String, ok,
  Result-cases, All, All-append, Bool-cases, Option-cases, arith,
}
use astro_api_gateway.Transactions.Actions.{
  Amount, natural, negative, malformed, TransactionAction, is_positive, is_function_call,
  is_transfer,
}
use astro_api_gateway.Transactions.Routing.{is_dao_contract}
use astro_api_gateway.Transactions.Funds.{
  DaoFundsReceipt, DaoFundsTokenReceipt, Funds, funds_token_receipt, save_deposit, save_tokens,
  save_dao_funds, save_known_tokens, is_token_method, between_daos, concerns_dao, token_receiver,
}

abbrev pub IsPositive : Option Amount → Type 0
IsPositive amount = (k : ℕ) × (amount ≡ some (natural k)) × (0 < k)

is_positive-IsPositive : (amount : Option Amount) → is_positive amount ≡ ok true → IsPositive amount
is_positive-IsPositive none h = absurd (ground arith)
is_positive-IsPositive (some (natural k)) h = (k, refl, ground arith)
is_positive-IsPositive (some negative) h = absurd (ground arith)
is_positive-IsPositive (some malformed) h = absurd (ground arith)

module _ (contract_name : String) where
  -- The receipt is of a DAO, and a deposit was made.
  abbrev pub IsFunding : DaoFundsReceipt → Type 0
  IsFunding receipt =
      (is_dao_contract contract_name receipt.dao_id ≡ true) × IsPositive receipt.deposit

  abbrev pub IsTokenFunding : DaoFundsTokenReceipt → Type 0
  IsTokenFunding receipt =
      ((dao : String) × (receipt.dao_id ≡ some dao) × (is_dao_contract contract_name dao ≡ true))
      × IsPositive receipt.amount

  abbrev pub IsTreasury : Funds → Type 0
  IsTreasury funds = All IsFunding funds.receipts × All IsTokenFunding funds.token_receipts

  save_deposit-IsTreasury :
      (action : TransactionAction) (funds : Funds)
      → IsTreasury funds
      → IsTreasury (save_deposit contract_name action funds).1
  unfolding save_deposit
  save_deposit-IsTreasury action funds (deposits, tokens) =
      elim (Result-cases (is_positive action.deposit)) [
        | inr (e, thrown) ↦ rw (thrown) (deposits, tokens)
        | inl (false, little) ↦ rw (little) (deposits, tokens)
        | inl (true, enough) ↦ elim (Bool-cases (between_daos contract_name action)) [
          | inr strangers ↦ rw (enough, strangers) (deposits, tokens)
          | inl daos ↦
              rw (enough, daos)
                (
                  All-append IsFunding funds.receipts _ deposits
                      ((ground arith, is_positive-IsPositive action.deposit enough), tt),
                  tokens,
                )
        ]
      ]

  funds_token_receipt-dao :
      (action : TransactionAction)
      → concerns_dao contract_name action (token_receiver contract_name action) ≡ ok true
      → (dao : String) × ((funds_token_receipt contract_name action).dao_id ≡ some dao)
        × (is_dao_contract contract_name dao ≡ true)
  funds_token_receipt-dao action concerned =
      elim (Bool-cases (is_dao_contract contract_name action.predecessor_id)) [
        | inl sends ↦ (action.predecessor_id, ground arith, sends)
        | inr stranger ↦ elim (Option-cases (token_receiver contract_name action)) [
          | inl missing ↦ absurd (ground arith)
          | inr (receiver, given) ↦ (receiver, ground arith, ground arith)
        ]
      ]

  save_known_tokens-IsTreasury :
      (action : TransactionAction) (funds : Funds)
      → IsTreasury funds
      → IsTreasury (save_known_tokens contract_name action funds).1
  save_known_tokens-IsTreasury action funds (deposits, tokens) =
      elim (Result-cases (is_positive action.args.amount)) [
        | inr (e, thrown) ↦ rw (thrown) (deposits, tokens)
        | inl (false, little) ↦ rw (little) (deposits, tokens)
        | inl (true, enough) ↦
            elim (Result-cases
              (concerns_dao contract_name action (token_receiver contract_name action))) [
                | inr (e, thrown) ↦ rw (enough, thrown) (deposits, tokens)
                | inl (false, strangers) ↦ rw (enough, strangers) (deposits, tokens)
                | inl (true, concerned) ↦
                    rw (enough, concerned)
                      (
                        deposits,
                        All-append IsTokenFunding funds.token_receipts _ tokens (
                          (
                            funds_token_receipt-dao action concerned,
                            is_positive-IsPositive action.args.amount enough,
                          ),
                          tt,
                        ),
                      )
              ]
      ]

  save_tokens-IsTreasury :
      (action : TransactionAction) (funds : Funds)
      → IsTreasury funds
      → IsTreasury (save_tokens contract_name action funds).1
  unfolding save_tokens
  save_tokens-IsTreasury action funds treasury =
      elim (Bool-cases (is_function_call action.kind && is_token_method action.method_name)) [
        | inl calls ↦ rw (calls) (save_known_tokens-IsTreasury action funds treasury)
        | inr other ↦ rw (other) treasury
      ]

  -- Where each stored receipt is that of a DAO with a positive deposit, and each stored token receipt
  -- that of a DAO with a positive amount, the same holds after the funds of any action were saved,
  -- also where that throws.
  pub save_dao_funds-IsTreasury :
      (action : TransactionAction) (funds : Funds)
      → IsTreasury funds
      → IsTreasury (save_dao_funds contract_name action funds).1
  unfolding save_dao_funds
  save_dao_funds-IsTreasury action funds treasury =
      elim (Bool-cases (is_transfer action.kind || is_function_call action.kind)) [
        | inr other ↦ rw (other) treasury
        | inl moves ↦
            let mid = (save_deposit contract_name action funds).1 in
            let first = save_deposit-IsTreasury action funds treasury in
            elim (Result-cases (save_deposit contract_name action funds).0) [
              | inr (e, thrown) ↦
                  let e : (save_dao_funds contract_name action funds).1 ≡ mid = ground arith in
                  rw (e) first
              | inl (u, saved) ↦
                  let e : (save_dao_funds contract_name action funds).1
                      ≡ (save_tokens contract_name action mid).1 =
                    ground arith in
                  rw (e) (save_tokens-IsTreasury action mid first)
            ]
      ]
