-- ===== src/Transactions/Handling/Replay.antt =====
-- Actions that were handled are not handled again.
use astro_api_gateway.Common.{
  ◌≡◌, refl, ◌⊎◌, inl, inr, true, false, Option, none, some, List, [], ◌∷◌, String, eq_iff, eq_refl,
  ok, err, Error, failure, Result-cases, Action, pure, ◌>>=◌, arith, Option-cases, Bool-cases,
}
use astro_api_gateway.Transactions.Actions.{
  TransactionAction, ContractHandlerResult, Status, Status-cases, succeeded, failed,
}
use astro_api_gateway.Transactions.Routing.{
  ContractHandler, Target, handler, inherited_property, no_handler, target_of,
  get_contract_handlers,
}
use astro_api_gateway.Transactions.Funds.{save_dao_funds}
use astro_api_gateway.Transactions.Handling.{
  Results, HandledStore, HandlerEnv, St, entity_of, check, call_target, run_targets, process,
  is_failed_test, handle_transaction_action,
}

module _ (store : HandledStore) {W : Type 0} (env : HandlerEnv W) where
  abbrev pub checked : TransactionAction → St store env → Option Results
  checked a s = check store a.transaction_hash (entity_of a) s.handled

  -- A computation that does not touch the items of handled actions.
  abbrev Leaves : {A : Type 0} → Action (St store env) A → Type 0
  Leaves m = (s : St store env) → (m s).1.handled ≡ s.handled

  Leaves->>= :
      {A B : Type 0} (m : Action (St store env) A) (f : A → Action (St store env) B)
      → Leaves m
      → ((a : A) → Leaves (f a))
      → Leaves (m >>= f)
  Leaves->>= m f first rest s = elim (Result-cases (m s).0) [
    | inl (a, answered) ↦ ground (arith, first s, rest a (m s).1)
    | inr (e, thrown) ↦ ground (arith, first s)
  ]

  call_target-Leaves : (t : Target) (a : TransactionAction) → Leaves (call_target store env t a)
  call_target-Leaves (handler name) a s = refl
  call_target-Leaves (inherited_property name) a s = refl
  call_target-Leaves no_handler a s = refl

  run_targets-Leaves :
      (hs : List ContractHandler) (a : TransactionAction) → Leaves (run_targets store env hs a)
  unfolding run_targets
  run_targets-Leaves [] a = λ s. refl
  run_targets-Leaves (h ∷ hs) a =
      let collect =
        λ (r : Option ContractHandlerResult) (rs : Results). pure {S = St store env} (r ∷ rs) in
      Leaves->>= (call_target store env (target_of h a.method_name) a)
        (λ r. run_targets store env hs a >>= collect r)
        (call_target-Leaves (target_of h a.method_name) a)
        (λ r.
          Leaves->>= (run_targets store env hs a) (collect r) (run_targets-Leaves hs a)
            (λ rs s. refl))

  -- What handling an action does to the items: nothing, or the item of the action is added.
  abbrev Adds : TransactionAction → St store env → St store env → Type 0
  Adds a s after =
      (after.handled ≡ s.handled)
      ⊎ ((checked a s ≡ none)
          × (a.status ≡ succeeded)
          × ((rs : Results) × (store.save a.transaction_hash (entity_of a) rs s.handled
                ≡ some after.handled)))

  pub process_writes :
      (a : TransactionAction) (s : St store env)
      → let (r, after) = process store env a s in
        ((rs : Results) × (r ≡ ok rs)
          × (store.save a.transaction_hash (entity_of a) rs s.handled ≡ some after.handled))
        ⊎ ((e : Error) × (r ≡ err e) × (after.handled ≡ s.handled))
  unfolding process
  process_writes a s =
      let hs = env.pool_order (get_contract_handlers env.contract_name a.receiver_id) in
      let (r, mid) = run_targets store env hs a s in
      elim (Result-cases r) [
        | inl (rs, ran) ↦ elim (Result-cases (save_dao_funds env.contract_name a mid.funds).0) [
          | inl (u, kept_funds) ↦
              elim (Option-cases (store.save a.transaction_hash (entity_of a) rs s.handled)) [
                | inl fails ↦ inr (
                  failure,
                  ground (arith, run_targets-Leaves hs a s),
                  ground (arith, run_targets-Leaves hs a s),
                )
                | inr (saved, done) ↦ inl (
                  rs,
                  ground (arith, run_targets-Leaves hs a s),
                  ground (arith, run_targets-Leaves hs a s),
                )
              ]
          | inr (e, thrown) ↦ inr (e, ground arith, ground (arith, run_targets-Leaves hs a s))
        ]
        | inr (e, thrown) ↦ inr (e, ground arith, ground (arith, run_targets-Leaves hs a s))
      ]

  -- The answer to an action stands: it is stored, or is the empty one of a failed transaction.
  abbrev pub Settled : TransactionAction → Results → St store env → Type 0
  Settled a rs s =
      (is_failed_test store env a ≡ false)
      × ((checked a s ≡ some rs) ⊎ ((checked a s ≡ none) × (a.status ≡ failed) × (rs ≡ [])))

  pub Settled_lem :
      (a : TransactionAction) (rs : Results) (s : St store env)
      → Settled a rs s
      → handle_transaction_action store env a s ≡ (ok rs, s)
  unfolding handle_transaction_action
  Settled_lem a rs s (free, inl stored) = ground arith
  Settled_lem a rs s (free, inr (new, lost, empty)) = ground arith

  -- A call throws at once, answers what stands, or processes the action.
  pub handle_cases :
      (a : TransactionAction) (s : St store env)
      → (handle_transaction_action store env a s ≡ (err failure, s))
        ⊎ ((rs : Results) × Settled a rs s × (handle_transaction_action store env a s ≡ (ok rs, s)))
        ⊎ ((is_failed_test store env a ≡ false)
            × (checked a s ≡ none)
            × (a.status ≡ succeeded)
            × (handle_transaction_action store env a s ≡ process store env a s))
  unfolding handle_transaction_action
  handle_cases a s = elim (Bool-cases (is_failed_test store env a)) [
    | inl refused ↦ inl (ground arith)
    | inr free ↦ elim (Option-cases (checked a s)) [
      | inr (rs, stored) ↦ inr (inl (rs, (free, inl stored), ground arith))
      | inl new ↦ elim (Status-cases a.status) [
        | inl none_given ↦ inl (ground arith)
        | inr (inl success) ↦ inr (inr (free, new, success, ground arith))
        | inr (inr lost) ↦ inr (inl ([], (free, inr (new, lost, refl)), ground arith))
      ]
    ]
  ]

  pub handle-Adds :
      (a : TransactionAction) (s : St store env)
      → Adds a s (handle_transaction_action store env a s).1
  handle-Adds a s = elim (handle_cases a s) [
    | inl thrown ↦ inl (ground arith)
    | inr (inl (rs, settled, answered)) ↦ inl (ground arith)
    | inr (inr (free, new, success, processed)) ↦ elim (process_writes a s) [
      | inl (rs, answer, written) ↦ inr (new, success, (rs, ground arith))
      | inr (e, answer, kept) ↦ inl (ground arith)
    ]
  ]

  -- What a call has answered stands in the state that it leaves.
  pub handle-Settled :
      (a : TransactionAction) (rs : Results) (s : St store env)
      → (handle_transaction_action store env a s).0 ≡ ok rs
      → store.readable (handle_transaction_action store env a s).1.handled ≡ true
      → Settled a rs (handle_transaction_action store env a s).1
  handle-Settled a rs s h reads = elim (handle_cases a s) [
    | inl thrown ↦ absurd (ground arith)
    | inr (inl (qs, settled, answered)) ↦
        let same : qs ≡ rs = ground arith in rw (answered, ← same) settled
    | inr (inr (free, new, success, processed)) ↦ elim (process_writes a s) [
      | inl (qs, answer, written) ↦ (
        free,
        inl (
            ground (
              arith,
              store.look_up-save a.transaction_hash a.transaction_hash (entity_of a) (entity_of a)
                  qs s.handled (process store env a s).1.handled written,
              eq_refl a.transaction_hash,
              eq_refl (entity_of a),
            )),
      )
      | inr (e, answer, kept) ↦ absurd (ground arith)
    ]
  ]

  -- An action that was handled once answers the same when it comes again and the read of its item
  -- succeeds then, and nothing changes: its handlers do not run, and no funds are stored.
  pub handle_transaction_action-again :
      (a : TransactionAction) (rs : Results) (s : St store env)
      → (handle_transaction_action store env a s).0 ≡ ok rs
      → store.readable (handle_transaction_action store env a s).1.handled ≡ true
      → let after = (handle_transaction_action store env a s).1 in
        handle_transaction_action store env a after ≡ (ok rs, after)
  handle_transaction_action-again a rs s h reads =
      Settled_lem a rs (handle_transaction_action store env a s).1 (handle-Settled a rs s h reads)

  -- The status of an action is determined by its transaction, receipt and index.
  module _ (status_of : String → String → Status) where
    abbrev pub HasStatus : TransactionAction → Type 0
    HasStatus a = a.status ≡ status_of a.transaction_hash (entity_of a)

    -- A settled answer is not changed by other actions.
    pub handle_keeps-Settled :
        (a b : TransactionAction) (rs : Results) (s : St store env)
        → HasStatus a
        → HasStatus b
        → store.readable s.handled ≡ true
        → store.readable (handle_transaction_action store env b s).1.handled ≡ true
        → Settled a rs s
        → Settled a rs (handle_transaction_action store env b s).1
    handle_keeps-Settled a b rs s sa sb reads reads_after (free, answer) = elim (handle-Adds b s) [
      | inl kept ↦ (free, rw (kept, checked) answer)
      | inr (new, success, (qs, written)) ↦
          let law =
            store.look_up-save a.transaction_hash b.transaction_hash (entity_of a) (entity_of b) qs
              s.handled (handle_transaction_action store env b s).1.handled written in
          elim answer [
            | inl stored ↦ (
              free,
              inl (
                  ground (
                    arith,
                    law,
                    eq_iff b.transaction_hash a.transaction_hash,
                    eq_iff (entity_of b) (entity_of a),
                  )),
            )
            | inr (fresh, lost, empty) ↦ (
              free,
              inr (
                ground (
                  arith,
                  law,
                  eq_iff b.transaction_hash a.transaction_hash,
                  eq_iff (entity_of b) (entity_of a),
                ),
                lost,
                empty,
              ),
            )
          ]
    ]
