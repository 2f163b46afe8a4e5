-- ===== src/Transactions/Routing/Receivers.antt =====
-- Which contract handlers a receiver has.
use text.Mathlib.TextLemmas.{length-append}
use astro_api_gateway.Common.{
  ◌≡◌, inl, inr, true, false, [], ◌∷◌, String, eq_iff, ends_with, ends_with-nil, ends_with-count,
  Bool-cases, arith,
}
use astro_api_gateway.Transactions.Routing.{
  dao_handler, token_handler, suffix_of, get_contract_handlers, is_dao_contract,
}

-- The name of a contract is no subaccount of itself.
suffix_of-proper :
    (contract_name : String) → ends_with contract_name (suffix_of contract_name) ≡ false
suffix_of-proper contract_name =
    elim (Bool-cases (ends_with contract_name (suffix_of contract_name))) [
      | inl suffix ↦ absurd (
          ground (
            arith,
            ends_with-count contract_name (suffix_of contract_name) suffix,
            length-append "." contract_name,
          ))
      | inr none_such ↦ none_such
    ]

-- A subaccount of the factory whose name does not end with "undefined" has the handlers of DAOs and of
-- tokens, and not the factory's.
pub get_contract_handlers-apart :
    (contract_name receiver : String)
    → is_dao_contract contract_name receiver ≡ true
    → ends_with receiver "undefined" ≡ false
    → get_contract_handlers contract_name receiver ≡ dao_handler contract_name ∷ token_handler ∷ []
unfolding get_contract_handlers is_dao_contract
get_contract_handlers-apart contract_name receiver dao named =
    ground
      (arith, ends_with-nil receiver, suffix_of-proper contract_name, eq_iff contract_name receiver)
