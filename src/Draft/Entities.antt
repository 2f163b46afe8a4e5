-- ===== src/Draft/Entities.antt =====
-- libs/draft-proposal/src/entities, libs/draft-comment/src/entities, and the state that the two
-- services share: their repositories, the search index and the events that are sent.
-- The id of a document is the key under which its repository holds it. The JSON of a proposal's
-- kind is never looked into, and stands as a text. Times are numbers.
use astro_api_gateway.Common.{ℕ, Bool, Option, List, String}
use astro_api_gateway.Common.Repository.{Repository}
use astro_api_gateway.Permissions.{ProposalType, Role}

pub data DraftProposalState : Type 0 where
  open_state closed : DraftProposalState

pub record DraftProposal : Type 0 where
  pub dao_id : String
  pub proposal_id : Option String
  pub proposer : String
  pub title : String
  pub description : String
  pub kind : String
  pub type : ProposalType
  pub state : DraftProposalState
  pub view_accounts : List String
  pub save_accounts : List String
  pub replies : ℕ
  pub created_at : ℕ
  pub updated_at : ℕ

pub record DraftProposalHistory : Type 0 where
  pub draft_proposal_id : String
  pub dao_id : String
  pub proposer : String
  pub title : String
  pub description : String
  pub kind : String
  pub type : ProposalType
  pub date : ℕ

pub data DraftCommentContextType : Type 0 where
  draft_proposal : DraftCommentContextType

-- Documents written before dislikes were introduced have no `dislikeAccounts`.
pub record DraftComment : Type 0 where
  pub dao_id : String
  pub context_id : String
  pub context_type : DraftCommentContextType
  pub author : String
  pub message : String
  pub reply_to : Option String
  pub like_accounts : List String
  pub dislike_accounts : Option (List String)
  pub created_at : ℕ
  pub updated_at : ℕ

-- `DraftProposalOpensearchDto`
pub record IndexedDraft : Type 0 where
  pub id : String
  pub name : String
  pub description : String
  pub accounts : String
  pub title : String
  pub dao_id : String
  pub proposal_id : Option String
  pub type : ProposalType
  pub state : DraftProposalState
  pub proposer : String
  pub replies : ℕ
  pub view_accounts : List String
  pub create_timestamp : ℕ

-- `DraftCommentResponse`, with its replies one level deep.
pub record CommentBody : Type 0 where
  pub id : String
  pub context_id : String
  pub context_type : DraftCommentContextType
  pub author : String
  pub message : String
  pub reply_to : Option String
  pub like_accounts : List String
  pub dislike_accounts : Option (List String)
  pub created_at : ℕ
  pub updated_at : ℕ

pub record DraftCommentResponse : Type 0 where
  pub body : CommentBody
  pub replies : Option (List CommentBody)

pub data DraftEvent : Type 0 where
  new_comment update_comment delete_comment : DraftCommentResponse → DraftEvent

pub record DraftStores : Type 1 where
  pub drafts : Repository DraftProposal
  pub history : Repository DraftProposalHistory
  pub comments : Repository DraftComment

pub record DraftDb (s : DraftStores) : Type 0 where
  pub drafts : s.drafts.Table
  pub history : s.history.Table
  pub comments : s.comments.Table
  -- what was sent to the search index, and the events, in order
  pub indexed : List IndexedDraft
  pub events : List DraftEvent

-- The services outside: the DAO API (`none` is a failed request), and the feature flags.
pub record DraftEnv : Type 0 where
  pub dao_roles : String → Option (List Role)
  pub index_drafts : Bool
  pub draft_comments_dynamo : Bool
