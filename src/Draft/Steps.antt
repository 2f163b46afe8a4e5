-- ===== src/Draft/Steps.antt =====
-- The draft service and the comment service as one system: every call that the draft API and the
-- gateway's events make, one after another in any order.
pub mod Consistent
pub mod Recounts
pub mod Closed
use astro_api_gateway.Common.{ℕ, String}
use astro_api_gateway.Draft.Entities.{DraftStores, DraftDb, DraftEnv}
use astro_api_gateway.Draft.Proposals
use astro_api_gateway.Draft.Comments
use astro_api_gateway.Draft.Replies.OfDrafts.{IsFreshDraft}
use astro_api_gateway.Draft.Replies.OfComments.{IsFreshComment}

-- The environment may change from one call to the next. The ids of new documents are fresh.
pub data Step (s : DraftStores) (db : DraftDb s) : DraftDb s → Type 0 where
  create_draft :
      (env : DraftEnv) (id : String) (now : ℕ) (account : String)
      (dto : Proposals.CreateDraftProposal)
      → IsFreshDraft s env id db
      → Step s db (Proposals.create s env id now account dto db).1
  update_draft :
      (env : DraftEnv) (history_id : String) (now : ℕ) (id account : String)
      (dto : Proposals.UpdateDraftProposal)
      → Step s db (Proposals.update_proposal s env history_id now id account dto db).1
  delete_draft :
      (env : DraftEnv) (id account : String) → Step s db (Proposals.delete s env id account db).1
  view_draft :
      (env : DraftEnv) (id account : String) → Step s db (Proposals.view s env id account db).1
  save_draft :
      (env : DraftEnv) (id account : String) → Step s db (Proposals.save s env id account db).1
  remove_save_draft :
      (env : DraftEnv) (id account : String)
      → Step s db (Proposals.remove_save s env id account db).1
  close_draft :
      (env : DraftEnv) (id account proposal_id : String)
      → Step s db (Proposals.close s env id account proposal_id db).1
  close_draft_internal :
      (env : DraftEnv) (id proposal_id : String)
      → Step s db (Proposals.close_internal s env id proposal_id db).1
  create_comment :
      (env : DraftEnv) (id : String) (now : ℕ) (account : String)
      (dto : Comments.CreateDraftComment)
      → IsFreshComment s id db
      → Step s db (Comments.create s env id now account dto db).1
  update_comment :
      (env : DraftEnv) (now : ℕ) (id account message : String)
      → Step s db (Comments.update_message s env now id account message db).1
  like_comment :
      (env : DraftEnv) (id account : String) → Step s db (Comments.like s env id account db).1
  remove_like_comment :
      (env : DraftEnv) (id account : String)
      → Step s db (Comments.remove_like s env id account db).1
  dislike_comment :
      (env : DraftEnv) (id account : String) → Step s db (Comments.dislike s env id account db).1
  remove_dislike_comment :
      (env : DraftEnv) (id account : String)
      → Step s db (Comments.remove_dislike s env id account db).1
  delete_comment :
      (env : DraftEnv) (id account : String) → Step s db (Comments.delete s env id account db).1

pub data Reach (s : DraftStores) (db : DraftDb s) : DraftDb s → Type 0 where
  here : Reach s db db
  next : {mid after : DraftDb s} → Reach s db mid → Step s mid after → Reach s db after
