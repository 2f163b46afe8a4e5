-- ===== src/Draft/Steps/Consistent.antt =====
-- The counts of replies stay right over any sequence of calls.
use astro_api_gateway.Draft.Entities.{DraftStores, DraftDb}
use astro_api_gateway.Draft.Proposals.Effects
use astro_api_gateway.Draft.Comments.VoteEffects
use astro_api_gateway.Draft.Replies.{IsConsistent}
use astro_api_gateway.Draft.Replies.OfDrafts
use astro_api_gateway.Draft.Replies.OfDrafts.{DraftEffect-IsConsistent}
use astro_api_gateway.Draft.Replies.Operations
use astro_api_gateway.Draft.Replies.Operations.{VoteEffect-IsConsistent, votes_keep_drafts}
use astro_api_gateway.Draft.Steps.{Step, Reach, here, next}

module _ (s : DraftStores) where
  Step-IsConsistent :
      {db after : DraftDb s} → Step s db after → IsConsistent s db → IsConsistent s after
  Step-IsConsistent {db} (Step.create_draft env id now account dto fresh) h =
      OfDrafts.create-IsConsistent s env id now account dto db fresh h
  Step-IsConsistent {db} (Step.update_draft env history_id now id account dto) h =
      DraftEffect-IsConsistent s env id db _
        (Effects.update_proposal-DraftEffect s env history_id now id account dto db) h
  Step-IsConsistent {db} (Step.delete_draft env id account) h =
      DraftEffect-IsConsistent s env id db _ (Effects.delete-DraftEffect s env id account db) h
  Step-IsConsistent {db} (Step.view_draft env id account) h =
      DraftEffect-IsConsistent s env id db _ (Effects.view-DraftEffect s env id account db) h
  Step-IsConsistent {db} (Step.save_draft env id account) h =
      DraftEffect-IsConsistent s env id db _ (Effects.save-DraftEffect s env id account db) h
  Step-IsConsistent {db} (Step.remove_save_draft env id account) h =
      DraftEffect-IsConsistent s env id db _ (Effects.remove_save-DraftEffect s env id account db) h
  Step-IsConsistent {db} (Step.close_draft env id account proposal_id) h =
      DraftEffect-IsConsistent s env id db _
        (Effects.close-DraftEffect s env id account proposal_id db) h
  Step-IsConsistent {db} (Step.close_draft_internal env id proposal_id) h =
      DraftEffect-IsConsistent s env id db _
        (Effects.close_internal-DraftEffect s env id proposal_id db) h
  Step-IsConsistent {db} (Step.create_comment env id now account dto fresh) h =
      Operations.create-IsConsistent s env id now account dto db fresh h
  Step-IsConsistent {db} (Step.update_comment env now id account message) h =
      Operations.update_message-IsConsistent s env now id account message db h
  Step-IsConsistent {db} (Step.like_comment env id account) h =
      VoteEffect-IsConsistent s env id db _ (VoteEffects.like-VoteEffect s env id account db)
        (votes_keep_drafts s env id account db).0 h
  Step-IsConsistent {db} (Step.remove_like_comment env id account) h =
      VoteEffect-IsConsistent s env id db _ (VoteEffects.remove_like-VoteEffect s env id account db)
        (votes_keep_drafts s env id account db).1 h
  Step-IsConsistent {db} (Step.dislike_comment env id account) h =
      VoteEffect-IsConsistent s env id db _ (VoteEffects.dislike-VoteEffect s env id account db)
        (votes_keep_drafts s env id account db).2 h
  Step-IsConsistent {db} (Step.remove_dislike_comment env id account) h =
      VoteEffect-IsConsistent s env id db _
        (VoteEffects.remove_dislike-VoteEffect s env id account db)
        (votes_keep_drafts s env id account db).3 h
  Step-IsConsistent {db} (Step.delete_comment env id account) h =
      Operations.delete-IsConsistent s env id account db h

  -- From a state in which every draft shows the number of the comments on it, and every reply is on
  -- the draft of the comment that it answers, any sequence of calls of the draft and the comment
  -- service, with fresh ids for new documents, leads to such a state.
  pub Reach-IsConsistent :
      (db after : DraftDb s) → Reach s db after → IsConsistent s db → IsConsistent s after
  Reach-IsConsistent db after here h = h
  Reach-IsConsistent db after (next {mid} r step) h =
      Step-IsConsistent step (Reach-IsConsistent db mid r h)
