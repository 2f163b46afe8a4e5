-- ===== src/Transactions/Handling/Batches.antt =====
-- Batches of actions: where they stop, what they report, and that a batch may be handled again.
use astro_api_gateway.Common.{
  ◌≡◌, refl, ap, ◌∙◌, ◌⊎◌, inl, inr, Bool, true, false, not, List, [], ◌∷◌, ◌++◌, map, String, ◌==◌,
  ok, err, Error, Result-cases, arith, filter, All,
}
use mathlib.Core.List.{append_assoc, append-nil}
use astro_api_gateway.Transactions.Actions.{TransactionAction, ContractHandlerResult, Status}
use astro_api_gateway.Transactions.Handling.{
  Results, HandledStore, HandlerEnv, St, present, handle_transaction_action, HandledActions,
  handle_from, handle_transaction_actions,
}
use astro_api_gateway.Transactions.Handling.Replay.{
  Settled, Settled_lem, handle-Settled, HasStatus, handle_keeps-Settled,
}

module _ (store : HandledStore) {W : Type 0} (env : HandlerEnv W) where
  -- One after another the actions succeed, from one state to another, with the results.
  pub data Succeeds
      : List TransactionAction
        → List ContractHandlerResult
        → St store env
        → St store env
        → Type 0 where
    none_left : {s : St store env} → Succeeds [] [] s s
    one_more :
        {a : TransactionAction} {actions : List TransactionAction} {rs : Results}
        {qs all : List ContractHandlerResult} {s mid after : St store env}
        → handle_transaction_action store env a s ≡ (ok rs, mid)
        → all ≡ present rs ++ qs
        → Succeeds actions qs mid after
        → Succeeds (a ∷ actions) all s after

  abbrev pub hashes_of : List TransactionAction → List String
  hashes_of = map (λ a. a.transaction_hash)

  -- The hashes that are kept when the transaction fails.
  abbrev pub other_than : String → List String → List String
  other_than hash = filter (λ h. not (hash == h))

  abbrev pub outcome : List String → List ContractHandlerResult → Bool → HandledActions
  outcome hashes results success = record {
    handled_tx_hashes = hashes;
    results = results;
    success = success;
  }

  -- All actions succeed, or those before the first failure do, and it stops there.
  abbrev pub Ends :
      List String
      → List ContractHandlerResult
      → List TransactionAction
      → St store env
      → HandledActions × St store env
      → Type 0
  Ends hashes results actions s (o, after) =
      ((qs : List ContractHandlerResult) × Succeeds actions qs s after
        × (o ≡ outcome (hashes ++ hashes_of actions) (results ++ qs) true))
      ⊎ ((done : List TransactionAction) × (a : TransactionAction) × (rest : List TransactionAction)
          × (e : Error) × (qs : List ContractHandlerResult) × (mid : St store env) × (actions
              ≡ done ++ a ∷ rest)
          × Succeeds done qs s mid
          × (handle_transaction_action store env a mid ≡ (err e, after))
          × (o
              ≡ outcome (other_than a.transaction_hash (hashes ++ hashes_of done)) (results ++ qs)
                  false))

  module _ (hashes : List String) (results : List ContractHandlerResult) (a : TransactionAction)
      (actions : List TransactionAction) (s : St store env) where
    abbrev mid_state : St store env
    mid_state = (handle_transaction_action store env a s).1

    handle_from_ok :
        (rs : Results)
        → (handle_transaction_action store env a s).0 ≡ ok rs
        → handle_from store env hashes results (a ∷ actions) s
          ≡ handle_from store env
              (hashes ++ a.transaction_hash ∷ [])
              (results ++ present rs)
              actions
              mid_state
    unfolding handle_from
    handle_from_ok rs answered = ground arith

    handle_from_err :
        (e : Error)
        → (handle_transaction_action store env a s).0 ≡ err e
        → handle_from store env hashes results (a ∷ actions) s
          ≡ (outcome (other_than a.transaction_hash hashes) results false, mid_state)
    unfolding handle_from
    handle_from_err e thrown = ground arith

    prepend-Ends :
        (rs : Results) (p : HandledActions × St store env)
        → (handle_transaction_action store env a s).0 ≡ ok rs
        → Ends (hashes ++ a.transaction_hash ∷ []) (results ++ present rs) actions mid_state p
        → Ends hashes results (a ∷ actions) s p
    prepend-Ends rs p answered (inl (qs, steps, o)) = inl (
      present rs ++ qs,
      one_more (ap (λ r. (r, mid_state)) answered) refl steps,
      o ∙ simp append_assoc,
    )
    prepend-Ends rs p answered (inr (done, b, rest, e, qs, mid, split, steps, thrown, o)) = inr (
      a ∷ done,
      b,
      rest,
      e,
      present rs ++ qs,
      mid,
      ap (λ l. a ∷ l) split,
      one_more (ap (λ r. (r, mid_state)) answered) refl steps,
      thrown,
      o ∙ simp append_assoc,
    )

  handle_from-Ends :
      (hashes : List String) (results : List ContractHandlerResult)
      (actions : List TransactionAction) (s : St store env)
      → Ends hashes results actions s (handle_from store env hashes results actions s)
  handle_from-Ends hashes results [] s =
      unfold handle_from in inl ([], none_left, rw (append-nil hashes, append-nil results))
  handle_from-Ends hashes results (a ∷ actions) s =
      let mid = (handle_transaction_action store env a s).1 in
      elim (Result-cases (handle_transaction_action store env a s).0) [
        | inr (e, thrown) ↦ rw (handle_from_err hashes results a actions s e thrown) (
            inr (
              [],
              a,
              actions,
              e,
              [],
              s,
              refl,
              none_left,
              ap (λ r. (r, mid)) thrown,
              rw (append-nil hashes, append-nil results),
            ))
        | inl (rs, answered) ↦ rw (handle_from_ok hashes results a actions s rs answered) (
            prepend-Ends hashes results a actions s rs _ answered (
              handle_from-Ends (hashes ++ a.transaction_hash ∷ []) (results ++ present rs) actions
                mid))
      ]

  -- Handling a batch either handles every action in order, and reports all their transactions and
  -- results; or it stops at the first action that throws, leaves the later ones alone, and reports the
  -- results of those before it and their transactions, without that of the action that failed.
  pub handle_transaction_actions-Ends :
      (actions : List TransactionAction) (s : St store env)
      → Ends [] [] actions s (handle_transaction_actions store env actions s)
  unfolding handle_transaction_actions
  handle_transaction_actions-Ends actions s = handle_from-Ends [] [] actions s

  module _ (status_of : String → String → Status) where
    abbrev pub HaveStatus : List TransactionAction → Type 0
    HaveStatus = All (λ a. HasStatus store env status_of a)

    -- The reads of the items of handled actions succeed before each action, and at the end.
    abbrev pub Reads : List TransactionAction → St store env → Type 0
    Reads [] s = store.readable s.handled ≡ true
    Reads (a ∷ actions) s =
        (store.readable s.handled ≡ true)
        × Reads actions (handle_transaction_action store env a s).1

    Reads-first :
        (actions : List TransactionAction) (s : St store env)
        → Reads actions s
        → store.readable s.handled ≡ true
    Reads-first [] s reads = reads
    Reads-first (a ∷ actions) s reads = reads.0

    handle_from-Settled :
        (a : TransactionAction) (rs : Results) (hashes : List String)
        (results : List ContractHandlerResult) (actions : List TransactionAction) (s : St store env)
        → HasStatus store env status_of a
        → HaveStatus actions
        → Reads actions s
        → Settled store env a rs s
        → Settled store env a rs (handle_from store env hashes results actions s).1
    handle_from-Settled a rs hashes results [] s sa sas reads settled =
        unfold handle_from in settled
    handle_from-Settled a rs hashes results (b ∷ actions) s sa (sb, sas) (here, reads) settled =
        let mid = (handle_transaction_action store env b s).1 in
        let kept =
          handle_keeps-Settled store env status_of a b rs s sa sb here
            (Reads-first actions mid reads) settled in
        elim (Result-cases (handle_transaction_action store env b s).0) [
          | inr (e, thrown) ↦ rw (handle_from_err hashes results b actions s e thrown) kept
          | inl (qs, answered) ↦ rw (handle_from_ok hashes results b actions s qs answered) (
              handle_from-Settled a rs (hashes ++ b.transaction_hash ∷ []) (results ++ present qs)
                actions mid sa sas reads kept)
        ]

    handle_from_again :
        (hashes : List String) (results : List ContractHandlerResult)
        (actions : List TransactionAction) (s : St store env)
        → HaveStatus actions
        → Reads actions s
        → (handle_from store env hashes results actions s).0.success ≡ true
        → handle_from store env hashes results actions
            (handle_from store env hashes results actions s).1
          ≡ handle_from store env hashes results actions s
    handle_from_again hashes results [] s sas reads success = unfold handle_from in refl
    handle_from_again hashes results (a ∷ actions) s (sa, sas) (here, reads) success =
        let mid = (handle_transaction_action store env a s).1 in
        elim (Result-cases (handle_transaction_action store env a s).0) [
          | inr (e, thrown) ↦
              absurd (cc (rw (handle_from_err hashes results a actions s e thrown) at success))
          | inl (rs, answered) ↦
              let first = handle_from_ok hashes results a actions s rs answered in
              let more = hashes ++ a.transaction_hash ∷ [] in
              let found = results ++ present rs in
              let end = (handle_from store env more found actions mid).1 in
              let stands : handle_transaction_action store env a end ≡ (ok rs, end) =
                Settled_lem store env a rs end (
                  handle_from-Settled a rs more found actions mid sa sas reads
                    (handle-Settled store env a rs s answered (Reads-first actions mid reads))) in
              rw first (
                handle_from_ok hashes results a actions end rs (ap (λ p. p.0) stands)
                ∙ ap (λ p. handle_from store env more found actions p.1) stands
                ∙ handle_from_again more found actions mid sas reads (rw first at success))
        ]

    -- A batch that was handled with success may be handled again: the answer is the same, and nothing
    -- changes. The status of an action has to be determined by its transaction, receipt and index, and no
    -- read of the handled actions may fail in the first run, or after it.
    pub handle_transaction_actions-again :
        (actions : List TransactionAction) (s : St store env)
        → HaveStatus actions
        → Reads actions s
        → (handle_transaction_actions store env actions s).0.success ≡ true
        → handle_transaction_actions store env actions
            (handle_transaction_actions store env actions s).1
          ≡ handle_transaction_actions store env actions s
    unfolding handle_transaction_actions
    handle_transaction_actions-again actions s sas reads success =
        handle_from_again [] [] actions s sas reads success
