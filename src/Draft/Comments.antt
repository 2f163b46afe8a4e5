-- ===== src/Draft/Comments.antt =====
-- libs/draft-comment/src/mongo-draft-comment.service.ts, with `castDraftCommentResponse` of
-- libs/draft-comment/src/dto/draft-comment-response.dto.ts. Calls run one after another. The ids of
-- new documents and the time are arguments: the driver and the clock give them.
pub mod VoteEffects
pub mod Votes
pub mod Authors
use astro_api_gateway.Common.{
  ℕ, Bool, true, false, not, ◌&&◌, Option, none, some, List, [], ◌∷◌, ◌++◌, map, String, ◌==◌,
  Result, Error, not_found, forbidden, bad_request, failure, Action, pure, gets, or_throw, throw_if,
  modify, when, ◌>>=◌, ◌>>◌, includes, without, filter, if◌then◌else◌,
}
use astro_api_gateway.Common.Repository.{Repository, update, erase_all}
use astro_api_gateway.Permissions.{get_account_permissions}
use astro_api_gateway.Draft.Entities.{
  DraftComment, DraftCommentContextType, draft_proposal, CommentBody, DraftCommentResponse,
  DraftEvent, new_comment, update_comment, delete_comment, DraftStores, DraftDb, DraftEnv,
}
use astro_api_gateway.Draft.Proposals.{find_draft, update_replies}

-- `CreateDraftComment`, without its `daoId`, which the service does not read.
pub record CreateDraftComment : Type 0 where
  pub context_id : String
  pub context_type : DraftCommentContextType
  pub message : String
  pub reply_to : Option String

abbrev comment_body : String → DraftComment → CommentBody
comment_body id comment = record {
  id = id;
  context_id = comment.context_id;
  context_type = comment.context_type;
  author = comment.author;
  message = comment.message;
  reply_to = comment.reply_to;
  like_accounts = comment.like_accounts;
  dislike_accounts = comment.dislike_accounts;
  created_at = comment.created_at;
  updated_at = comment.updated_at;
}

-- `comment.replyTo === id`
abbrev pub is_reply_to : String → DraftComment → Bool
is_reply_to id comment = elim comment.reply_to [ none ↦ false | some parent ↦ parent == id ]

abbrev bodies : List (String × DraftComment) → List CommentBody
bodies = map (λ entry. comment_body entry.0 entry.1)

pub cast_draft_comment_response :
    String → DraftComment → Option (List (String × DraftComment)) → DraftCommentResponse
cast_draft_comment_response id comment none = record {
  body = comment_body id comment;
  replies = none;
}
cast_draft_comment_response id comment (some replies) = record {
  body = comment_body id comment;
  replies = some (bodies (filter (λ entry. is_reply_to id entry.1) replies));
}

-- The test of the counting queries: a comment on the draft proposal.
abbrev pub is_on : String → DraftComment → Bool
is_on context_id comment = comment.context_id == context_id

-- The two documents that `create` saves.
abbrev pub new_draft_comment : ℕ → String → String → CreateDraftComment → DraftComment
new_draft_comment now account dao_id dto = record {
  dao_id = dao_id;
  context_id = dto.context_id;
  context_type = draft_proposal;
  author = account;
  message = dto.message;
  reply_to = none;
  like_accounts = [];
  dislike_accounts = some [];
  created_at = now;
  updated_at = now;
}

abbrev pub new_reply : ℕ → String → String → DraftComment → CreateDraftComment → DraftComment
new_reply now account parent_id parent dto = record {
  dao_id = parent.dao_id;
  context_id = parent.context_id;
  context_type = parent.context_type;
  author = account;
  message = dto.message;
  reply_to = some parent_id;
  like_accounts = [];
  dislike_accounts = some [];
  created_at = now;
  updated_at = now;
}

-- `dislikeAccounts?.includes(account)`
abbrev pub dislikes : Option (List String) → String → Bool
dislikes none account = false
dislikes (some accounts) account = includes accounts account

module _ (s : DraftStores) (env : DraftEnv) where
  abbrev find_comment : String → Action (DraftDb s) DraftComment
  find_comment id = do or_throw not_found (← gets (λ db. s.comments.find_one id db.comments))

  abbrev put_comment : String → DraftComment → Action (DraftDb s) (Unit {0})
  put_comment id comment =
      modify (λ db. record db { comments = s.comments.put id comment db.comments })

  abbrev update_comment_document :
      String → (DraftComment → DraftComment) → Action (DraftDb s) (Unit {0})
  update_comment_document id change =
      modify (λ db. record db { comments = update s.comments id change db.comments })

  -- An event is sent where the flag says that the Dynamo service does not send it.
  abbrev send_event :
      (DraftCommentResponse → DraftEvent) → String → DraftComment → Action (DraftDb s) (Unit {0})
  send_event event id comment = when (not env.draft_comments_dynamo) (
      modify (λ db. record db {
        events = db.events ++ event (cast_draft_comment_response id comment none) ∷ [];
      }))

  -- The comments of the context are counted anew, and the count is written to the draft.
  abbrev recount : String → Action (DraftDb s) (Unit {0})
  recount context_id = do
    update_replies s env context_id (← gets (λ db. s.comments.count (is_on context_id) db.comments))

  unfoldable pub create_draft_proposal_comment :
      String → ℕ → String → CreateDraftComment → Action (DraftDb s) String
  create_draft_proposal_comment id now account dto = do
    draft ← find_draft s env dto.context_id
    let comment = new_draft_comment now account draft.dao_id dto
    put_comment id comment
    recount dto.context_id
    send_event new_comment id comment
    pure id

  unfoldable pub create_draft_comment_reply :
      String → ℕ → String → String → CreateDraftComment → Action (DraftDb s) String
  create_draft_comment_reply id now account parent_id dto = do
    parent ← find_comment parent_id
    let comment = new_reply now account parent_id parent dto
    put_comment id comment
    recount comment.context_id
    send_event new_comment id comment
    pure id

  -- The two kinds of comment; an empty `replyTo` counts as none.
  unfoldable pub create_by :
      Option String → String → ℕ → String → CreateDraftComment → Action (DraftDb s) String
  unfolding create_draft_proposal_comment create_draft_comment_reply
  create_by none id now account dto = create_draft_proposal_comment id now account dto
  create_by (some parent_id) id now account dto =
      if parent_id == ""
      then create_draft_proposal_comment id now account dto
      else create_draft_comment_reply id now account parent_id dto

  unfoldable pub create : String → ℕ → String → CreateDraftComment → Action (DraftDb s) String
  unfolding create_by
  create id now account dto = create_by dto.reply_to id now account dto

  unfoldable pub update_message : ℕ → String → String → String → Action (DraftDb s) String
  update_message now id account message = do
    comment ← find_comment id
    throw_if (not (comment.author == account)) forbidden
    let updated = record comment { message = message; updated_at = now }
    put_comment id updated
    send_event update_comment id updated
    pure id

  unfoldable pub like : String → String → Action (DraftDb s) Bool
  like id account = do
    comment ← find_comment id
    throw_if (dislikes comment.dislike_accounts account) bad_request
    let liked = record comment { like_accounts = comment.like_accounts ++ account ∷ [] }
    when (not (includes comment.like_accounts account)) (do
      update_comment_document id (λ c. record c { like_accounts = liked.like_accounts })
      send_event update_comment id liked)
    pure true

  unfoldable pub remove_like : String → String → Action (DraftDb s) Bool
  remove_like id account = do
    comment ← find_comment id
    let changed = record comment { like_accounts = without account comment.like_accounts }
    when (includes comment.like_accounts account) (do
      update_comment_document id (λ c. record c { like_accounts = changed.like_accounts })
      send_event update_comment id changed)
    pure true

  -- `[...draftComment.dislikeAccounts, accountId]` throws where there is no list.
  abbrev add_dislike :
      String → String → DraftComment → Option (List String) → Action (DraftDb s) (Unit {0})
  add_dislike id account comment none = λ db. (Result.err failure, db)
  add_dislike id account comment (some accounts) =
      let disliked = record comment { dislike_accounts = some (accounts ++ account ∷ []) } in
      do
        update_comment_document id (λ c. record c { dislike_accounts = disliked.dislike_accounts })
        send_event update_comment id disliked

  unfoldable pub dislike : String → String → Action (DraftDb s) Bool
  dislike id account = do
    comment ← find_comment id
    throw_if (includes comment.like_accounts account) bad_request
    when (not (dislikes comment.dislike_accounts account))
        (add_dislike id account comment comment.dislike_accounts)
    pure true

  abbrev drop_dislike :
      String → String → DraftComment → Option (List String) → Action (DraftDb s) (Unit {0})
  drop_dislike id account comment none = pure tt
  drop_dislike id account comment (some accounts) =
      let changed = record comment { dislike_accounts = some (without account accounts) } in
      when (includes accounts account) (do
        update_comment_document id (λ c. record c { dislike_accounts = changed.dislike_accounts })
        send_event update_comment id changed)

  unfoldable pub remove_dislike : String → String → Action (DraftDb s) Bool
  remove_dislike id account = do
    comment ← find_comment id
    drop_dislike id account comment comment.dislike_accounts
    pure true

  unfoldable pub delete : String → String → Action (DraftDb s) Bool
  delete id account = do
    comment ← find_comment id
    roles ← or_throw failure (env.dao_roles comment.dao_id)
    rights ← or_throw failure (get_account_permissions roles none (some account) none)
    throw_if (not (comment.author == account) && not rights.is_council) forbidden
    replies ← gets (λ db. s.comments.ids (is_reply_to id) db.comments)
    modify (λ db. record db { comments = erase_all s.comments (id ∷ replies) db.comments })
    recount comment.context_id
    send_event delete_comment id comment
    pure true
