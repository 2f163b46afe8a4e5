-- ===== src/Transactions/Handling/Poison.antt =====
-- Actions that can never be handled.
use astro_api_gateway.Common.{
  ap, All-includes, includes, ◌≡◌, refl, ◌∙◌, ap, inl, inr, Bool, true, none, some, List, [], ◌∷◌,
  String, err, Error, failure, Result-cases, arith, filter, includes, Bool-cases, All, All-includes,
  ends_with-nil,
}
use astro_api_gateway.Transactions.Actions.{TransactionAction, succeeded}
use astro_api_gateway.Transactions.Handling.{
  HandledStore, HandlerEnv, St, call_inherited, run_targets, call_target, process, process,
  handle_transaction_action,
}
use astro_api_gateway.Transactions.Routing.{
  ContractHandler, inherited_property, token_handler, target_of, get_contract_handlers,
  contract_handlers, matches,
}
use astro_api_gateway.Transactions.Handling.Replay.{checked, handle_cases, process_writes}

-- The inherited properties whose call throws.
abbrev pub throwing : List String
throwing =
    "__defineGetter__" ∷ "__defineSetter__" ∷ "hasOwnProperty" ∷ "__lookupGetter__"
    ∷ "__lookupSetter__" ∷ "isPrototypeOf" ∷ "propertyIsEnumerable" ∷ "valueOf" ∷ "__proto__"
    ∷ "toLocaleString" ∷ []

-- A handler is in a list.
pub data Has (h : ContractHandler) : List ContractHandler → Type 0 where
  first : {hs : List ContractHandler} → Has h (h ∷ hs)
  later : {g : ContractHandler} {hs : List ContractHandler} → Has h hs → Has h (g ∷ hs)

-- The pool runs all that it is given.
abbrev pub RunsAll : (List ContractHandler → List ContractHandler) → Type 0
RunsAll order = (h : ContractHandler) (hs : List ContractHandler) → Has h hs → Has h (order hs)

-- The name is looked up as an inherited property, and its call throws.
abbrev IsThrowing : String → Type 0
IsThrowing m =
    (target_of token_handler (some m) ≡ inherited_property m) × (call_inherited m ≡ err failure)

throwing-IsThrowing : All IsThrowing throwing
unfolding target_of
throwing-IsThrowing = (
  (refl, refl),
  (
    (refl, refl),
    (
      (refl, refl),
      (
        (refl, refl),
        (
          (refl, refl),
          ((refl, refl), ((refl, refl), ((refl, refl), ((refl, refl), ((refl, refl), tt))))),
        ),
      ),
    ),
  ),
)

Has-filter :
    (p : ContractHandler → Bool) (h : ContractHandler) (hs : List ContractHandler)
    → Has h hs
    → p h ≡ true
    → Has h (filter p hs)
Has-filter p h [] none_there holds = elim none_there [ ]
Has-filter p h (g ∷ hs) first holds = rw (holds) first
Has-filter p h (g ∷ hs) (later more) holds = elim (Bool-cases (p g)) [
  | inl kept ↦ rw (kept) (later (Has-filter p h hs more holds))
  | inr dropped ↦ rw (dropped) (Has-filter p h hs more holds)
]

token_handler-Has :
    (contract_name receiver : String)
    → Has token_handler (get_contract_handlers contract_name receiver)
unfolding get_contract_handlers
token_handler-Has contract_name receiver =
    Has-filter (λ h. matches h receiver) token_handler (contract_handlers contract_name)
      (later (later first)) (ends_with-nil receiver)

module _ (store : HandledStore) {W : Type 0} (env : HandlerEnv W) where
  run_targets-throws :
      (h : ContractHandler) (hs : List ContractHandler) (a : TransactionAction) (m : String)
      (s : St store env)
      → Has h hs
      → target_of h a.method_name ≡ inherited_property m
      → call_inherited m ≡ err failure
      → (e : Error) × ((run_targets store env hs a s).0 ≡ err e)
  unfolding run_targets
  run_targets-throws h [] a m s none_there target throws = elim none_there [ ]
  run_targets-throws h (g ∷ hs) a m s first target throws = (failure, rw (target) (ground arith))
  run_targets-throws h (g ∷ hs) a m s (later more) target throws =
      let (e, later_throws) =
        run_targets-throws h hs a m (call_target store env (target_of g a.method_name) a s).1 more
          target throws in
      elim (Result-cases (call_target store env (target_of g a.method_name) a s).0) [
        | inl (r, returned) ↦ (e, ground (arith))
        | inr (other, thrown) ↦ (other, ground arith)
      ]

  process-throws :
      (a : TransactionAction) (e : Error) (s : St store env)
      → (run_targets store env
          (env.pool_order (get_contract_handlers env.contract_name a.receiver_id))
          a
          s).0
        ≡ err e
      → (process store env a s).0 ≡ err e
  unfolding process
  process-throws a e s thrown = ground arith

  -- A succeeded action that is not found as handled, of a method that is named as one of the properties of
  -- `Object.prototype` whose call throws, fails where the pool runs all the handlers that it is given. The
  -- items of handled actions are left as they were.
  pub handle_transaction_action-poison :
      (a : TransactionAction) (m : String) (s : St store env)
      → RunsAll env.pool_order
      → includes throwing m ≡ true
      → a.method_name ≡ some m
      → a.status ≡ succeeded
      → checked store env a s ≡ none
      → (e : Error) × ((handle_transaction_action store env a s).0 ≡ err e)
        × ((handle_transaction_action store env a s).1.handled ≡ s.handled)
  handle_transaction_action-poison a m s all throws named done new =
      let (targets, call) = All-includes IsThrowing throwing m throwing-IsThrowing throws in
      let hs = get_contract_handlers env.contract_name a.receiver_id in
      let (e, thrown) =
        run_targets-throws token_handler (env.pool_order hs) a m s
          (all token_handler hs (token_handler-Has env.contract_name a.receiver_id))
          (rw (named) targets) call in
      let failed_run = process-throws a e s thrown in
      elim (handle_cases store env a s) [
        | inl refused ↦ (failure, ap (λ r. r.0) refused, ap (λ r. r.1.handled) refused)
        | inr (inl (rs, settled, answered)) ↦ absurd (elim settled.1 [
          | inl stored ↦ ground (arith)
          | inr (lacks, lost, empty) ↦ ground (arith)
        ])
        | inr (inr (free, lacks, success, processed)) ↦ elim (process_writes store env a s) [
          | inl (rs, answer, written) ↦ absurd (ground (arith))
          | inr (other, answer, kept) ↦
              (e, rw (processed) failed_run, ap (λ r. r.1.handled) processed ∙ kept)
        ]
      ]
