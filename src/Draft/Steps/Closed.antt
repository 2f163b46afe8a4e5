-- ===== src/Draft/Steps/Closed.antt =====
-- A closed draft stays, and stays closed.
use astro_api_gateway.Common.{
  ℕ, ◌≡◌, refl, ◌∙◌, true, some, inl, inr, String, ◌==◌, arith, eq_iff, Bool-cases,
}
use astro_api_gateway.Common.Repository.Every.{find_one-update}
use astro_api_gateway.Draft.Entities.{DraftProposal, DraftStores, DraftDb, DraftEnv}
use astro_api_gateway.Draft.Proposals.{is_closed}
use astro_api_gateway.Draft.Proposals.Effects.{DraftChange, DraftEffect, Continues}
use astro_api_gateway.Draft.Proposals.Effects
use astro_api_gateway.Draft.Replies.Operations.{votes_keep_drafts}
use astro_api_gateway.Draft.Steps.Recounts.{
  create-Recounts, update_message_keeps_drafts, delete-Recounts, Recounts,
}
use astro_api_gateway.Draft.Proposals
use astro_api_gateway.Draft.Replies.OfDrafts.{IsFreshDraft, create_writes}
use astro_api_gateway.Draft.Steps.{Step, Reach, here, next}

module _ (s : DraftStores) where
  -- Under the id stands a closed draft of the proposer.
  abbrev pub ClosedBy : String → String → DraftDb s → Type 0
  ClosedBy id proposer db =
      (d : DraftProposal) × (s.drafts.find_one id db.drafts ≡ some d)
      × (is_closed d.state ≡ true)
      × (d.proposer ≡ proposer)

  DraftChange-ClosedBy :
      (env : DraftEnv) (id k proposer : String) (db after : DraftDb s)
      → DraftChange s env Continues id db.drafts after.drafts
      → ClosedBy k proposer db
      → ClosedBy k proposer after
  DraftChange-ClosedBy env id k proposer db after (inl kept) c = rw kept c
  DraftChange-ClosedBy env id k proposer db after (inr (inl (change, continues, written)))
        (d, found, is_shut, by) =
      elim (Bool-cases (id == k)) [
        | inl here_too ↦ (
          change d,
          rw written (ground (arith, find_one-update s.drafts k id change db.drafts)),
          (continues d).2 is_shut,
          (continues d).0 ∙ by,
        )
        | inr other ↦ (
          d,
          rw written (ground (arith, find_one-update s.drafts k id change db.drafts)),
          is_shut,
          by,
        )
      ]
  DraftChange-ClosedBy env id k proposer db after (inr (inr (e, at, opened, erased)))
        (d, found, is_shut, by) =
      elim (Bool-cases (id == k)) [
        | inl here_too ↦ absurd (ground (arith, eq_iff id k))
        | inr other ↦
            (d, rw erased (ground (arith, s.drafts.find_one-erase k id db.drafts)), is_shut, by)
      ]

  DraftEffect-ClosedBy :
      (env : DraftEnv) (id k proposer : String) (db after : DraftDb s)
      → DraftEffect s env id db after
      → ClosedBy k proposer db
      → ClosedBy k proposer after
  DraftEffect-ClosedBy env id k proposer db after (same, inl kept) =
      DraftChange-ClosedBy env id k proposer db after (inl kept)
  DraftEffect-ClosedBy env id k proposer db after (same, inr (inl (change, continues, written))) =
      DraftChange-ClosedBy env id k proposer db after
        (inr (inl (change, λ d. (continues d).0, written)))
  DraftEffect-ClosedBy env id k proposer db after (same, inr (inr removed)) =
      DraftChange-ClosedBy env id k proposer db after (inr (inr removed))

  Recounts-ClosedBy :
      (env : DraftEnv) (k proposer : String) (db after : DraftDb s)
      → Recounts s db after
      → ClosedBy k proposer db
      → ClosedBy k proposer after
  Recounts-ClosedBy env k proposer db after (id, n, inl kept) =
      DraftChange-ClosedBy env id k proposer db after (inl kept)
  Recounts-ClosedBy env k proposer db after (id, n, inr written) =
      DraftChange-ClosedBy env id k proposer db after
        (inr (inl (λ d. record d { replies = n }, λ d. (refl, refl, λ c. c), written)))

  create-ClosedBy :
      (env : DraftEnv) (id : String) (now : ℕ) (account : String)
      (dto : Proposals.CreateDraftProposal) (k proposer : String) (db : DraftDb s)
      → IsFreshDraft s env id db
      → ClosedBy k proposer db
      → ClosedBy k proposer (Proposals.create s env id now account dto db).1
  create-ClosedBy env id now account dto k proposer db (unused, empty) (d, found, is_shut, by) = (
    d,
    rw (create_writes s env id now account dto db).0 (
        ground (
          arith,
          eq_iff id k,
          s.drafts.find_one-put k id (Proposals.new_draft now account dto) db.drafts,
        )),
    is_shut,
    by,
  )

  Step-ClosedBy :
      (k proposer : String) {db after : DraftDb s}
      → Step s db after
      → ClosedBy k proposer db
      → ClosedBy k proposer after
  Step-ClosedBy k proposer {db} {after} (Step.create_draft env id now account dto fresh) =
      create-ClosedBy env id now account dto k proposer db fresh
  Step-ClosedBy k proposer {db} {after} (Step.update_draft env history_id now id account dto) =
      DraftEffect-ClosedBy env id k proposer db after
        (Effects.update_proposal-DraftEffect s env history_id now id account dto db)
  Step-ClosedBy k proposer {db} {after} (Step.delete_draft env id account) =
      DraftEffect-ClosedBy env id k proposer db after
        (Effects.delete-DraftEffect s env id account db)
  Step-ClosedBy k proposer {db} {after} (Step.view_draft env id account) =
      DraftEffect-ClosedBy env id k proposer db after (Effects.view-DraftEffect s env id account db)
  Step-ClosedBy k proposer {db} {after} (Step.save_draft env id account) =
      DraftEffect-ClosedBy env id k proposer db after (Effects.save-DraftEffect s env id account db)
  Step-ClosedBy k proposer {db} {after} (Step.remove_save_draft env id account) =
      DraftEffect-ClosedBy env id k proposer db after
        (Effects.remove_save-DraftEffect s env id account db)
  Step-ClosedBy k proposer {db} {after} (Step.close_draft env id account proposal_id) =
      DraftEffect-ClosedBy env id k proposer db after
        (Effects.close-DraftEffect s env id account proposal_id db)
  Step-ClosedBy k proposer {db} {after} (Step.close_draft_internal env id proposal_id) =
      DraftEffect-ClosedBy env id k proposer db after
        (Effects.close_internal-DraftEffect s env id proposal_id db)
  Step-ClosedBy k proposer {db} {after} (Step.create_comment env id now account dto fresh) =
      Recounts-ClosedBy env k proposer db after (create-Recounts s env id now account dto db)
  Step-ClosedBy k proposer {db} {after} (Step.update_comment env now id account message) =
      λ c. rw (update_message_keeps_drafts s env now id account message db) c
  Step-ClosedBy k proposer {db} {after} (Step.like_comment env id account) =
      λ c. rw (votes_keep_drafts s env id account db).0 c
  Step-ClosedBy k proposer {db} {after} (Step.remove_like_comment env id account) =
      λ c. rw (votes_keep_drafts s env id account db).1 c
  Step-ClosedBy k proposer {db} {after} (Step.dislike_comment env id account) =
      λ c. rw (votes_keep_drafts s env id account db).2 c
  Step-ClosedBy k proposer {db} {after} (Step.remove_dislike_comment env id account) =
      λ c. rw (votes_keep_drafts s env id account db).3 c
  Step-ClosedBy k proposer {db} {after} (Step.delete_comment env id account) =
      Recounts-ClosedBy env k proposer db after (delete-Recounts s env id account db)

  -- A draft proposal that is closed is found, closed and its proposer's, after any sequence of calls
  -- of the draft and the comment service with fresh ids for new documents: it is neither deleted nor
  -- opened again, nor handed to another account.
  pub Reach-ClosedBy :
      (k proposer : String) (db after : DraftDb s)
      → Reach s db after
      → ClosedBy k proposer db
      → ClosedBy k proposer after
  Reach-ClosedBy k proposer db after here c = c
  Reach-ClosedBy k proposer db after (next {mid} r step) c =
      Step-ClosedBy k proposer step (Reach-ClosedBy k proposer db mid r c)
