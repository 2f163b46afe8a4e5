-- ===== src/Draft/Proposals.antt =====
-- libs/draft-proposal/src/mongo-draft-proposal.service.ts, with `indexDraftProposal` of
-- libs/opensearch/src/opensearch.service.ts. Calls run one after another. The ids of new documents
-- and the time are arguments: the driver and the clock give them.
pub mod Effects
pub mod Rights
pub mod Readers
use astro_api_gateway.Common.{
  ℕ, Bool, true, false, not, ◌&&◌, Option, none, some, List, [], ◌∷◌, ◌++◌, String, ◌==◌, Error,
  not_found, forbidden, bad_request, failure, Action, pure, gets, or_throw, throw_if, modify, when,
  ◌>>=◌, ◌>>◌, includes, without, if◌then◌else◌,
}
use astro_api_gateway.Common.Repository.{Repository, update, erase_where}
use astro_api_gateway.Permissions.{ProposalType, ProposalPermissions, get_account_permissions}
use astro_api_gateway.Draft.Entities.{
  DraftProposalState, open_state, closed, DraftProposal, DraftProposalHistory, IndexedDraft,
  DraftStores, DraftDb, DraftEnv,
}

-- `CreateDraftProposal`, and `UpdateDraftProposal`, which has no DAO.
pub record UpdateDraftProposal : Type 0 where
  pub title : String
  pub description : String
  pub kind : String
  pub type : ProposalType

pub record CreateDraftProposal : Type 0 where
  pub dao_id : String
  pub fields : UpdateDraftProposal

abbrev pub is_closed : DraftProposalState → Bool
is_closed open_state = false
is_closed closed = true

-- `mapDraftProposalToOpensearchDto`
abbrev pub map_draft_proposal_to_opensearch_dto : String → DraftProposal → IndexedDraft
map_draft_proposal_to_opensearch_dto id draft = record {
  id = id;
  name = draft.title;
  description = draft.description;
  accounts = draft.proposer;
  title = draft.title;
  dao_id = draft.dao_id;
  proposal_id = draft.proposal_id;
  type = draft.type;
  state = draft.state;
  proposer = draft.proposer;
  replies = draft.replies;
  view_accounts = draft.view_accounts;
  create_timestamp = draft.created_at;
}

-- The document that `create` saves.
abbrev pub new_draft : ℕ → String → CreateDraftProposal → DraftProposal
new_draft now account dto = record {
  dao_id = dto.dao_id;
  proposal_id = none;
  proposer = account;
  title = dto.fields.title;
  description = dto.fields.description;
  kind = dto.fields.kind;
  type = dto.fields.type;
  state = open_state;
  view_accounts = [];
  save_accounts = [];
  replies = 0;
  created_at = now;
  updated_at = now;
}

-- The history entry and the new version that `update` saves.
abbrev pub history_of : String → DraftProposal → DraftProposalHistory
history_of id draft = record {
  draft_proposal_id = id;
  dao_id = draft.dao_id;
  proposer = draft.proposer;
  title = draft.title;
  description = draft.description;
  kind = draft.kind;
  type = draft.type;
  date = draft.updated_at;
}

abbrev pub edited : ℕ → UpdateDraftProposal → DraftProposal → DraftProposal
edited now dto draft = record draft {
  title = dto.title;
  description = dto.description;
  kind = dto.kind;
  type = dto.type;
  updated_at = now;
}

module _ (s : DraftStores) (env : DraftEnv) where
  abbrev pub find_draft : String → Action (DraftDb s) DraftProposal
  find_draft id = do or_throw not_found (← gets (λ db. s.drafts.find_one id db.drafts))

  abbrev update_draft : String → (DraftProposal → DraftProposal) → Action (DraftDb s) (Unit {0})
  update_draft id change = modify (λ db. record db { drafts = update s.drafts id change db.drafts })

  abbrev put_draft : String → DraftProposal → Action (DraftDb s) (Unit {0})
  put_draft id draft = modify (λ db. record db { drafts = s.drafts.put id draft db.drafts })

  -- `indexDraftProposal`
  abbrev index_draft : String → DraftProposal → Action (DraftDb s) (Unit {0})
  index_draft id draft = when env.index_drafts (
      modify (λ db. record db {
        indexed = db.indexed ++ map_draft_proposal_to_opensearch_dto id draft ∷ [];
      }))

  -- `getDao`, then `getAccountPermissions`; either may throw.
  abbrev permissions_in : String → ProposalType → String → Action (DraftDb s) ProposalPermissions
  permissions_in dao_id type account = do
    roles ← or_throw failure (env.dao_roles dao_id)
    or_throw failure (get_account_permissions roles (some type) (some account) none)

  unfoldable pub create : String → ℕ → String → CreateDraftProposal → Action (DraftDb s) String
  create id now account dto = do
    put_draft id (new_draft now account dto)
    index_draft id (new_draft now account dto)
    pure id

  unfoldable pub update_proposal :
      String → ℕ → String → String → UpdateDraftProposal → Action (DraftDb s) String
  update_proposal history_id now id account dto = do
    draft ← find_draft id
    rights ← permissions_in draft.dao_id dto.type account
    throw_if (not (draft.proposer == account) && not rights.is_council) forbidden
    modify (λ db. record db { history = s.history.put history_id (history_of id draft) db.history })
    put_draft id (edited now dto draft)
    index_draft id draft
    pure id

  unfoldable pub delete : String → String → Action (DraftDb s) Bool
  delete id account = do
    draft ← find_draft id
    rights ← permissions_in draft.dao_id draft.type account
    throw_if (not (draft.proposer == account) && not rights.is_council) forbidden
    throw_if (is_closed draft.state) bad_request
    modify (λ db. record db {
      history = erase_where s.history (λ h. h.draft_proposal_id == id) db.history;
    })
    modify (λ db. record db { drafts = s.drafts.erase id db.drafts })
    pure true

  unfoldable pub view : String → String → Action (DraftDb s) Bool
  view id account = do
    draft ← find_draft id
    when (not (includes draft.view_accounts account))
        (update_draft id (λ d. record d { view_accounts = draft.view_accounts ++ account ∷ [] }))
    pure true

  unfoldable pub save : String → String → Action (DraftDb s) Bool
  save id account = do
    draft ← find_draft id
    when (not (includes draft.save_accounts account))
        (update_draft id (λ d. record d { save_accounts = draft.save_accounts ++ account ∷ [] }))
    pure true

  unfoldable pub remove_save : String → String → Action (DraftDb s) Bool
  remove_save id account = do
    draft ← find_draft id
    when (includes draft.save_accounts account)
        (update_draft id (λ d. record d { save_accounts = without account draft.save_accounts }))
    pure true

  unfoldable pub close : String → String → String → Action (DraftDb s) Bool
  close id account proposal_id = do
    draft ← find_draft id
    rights ← permissions_in draft.dao_id draft.type account
    throw_if (not rights.can_add) forbidden
    when (not (is_closed draft.state))
        (update_draft id (λ d. record d { state = closed; proposal_id = some proposal_id }))
    pure true

  unfoldable pub close_internal : String → String → Action (DraftDb s) (Unit {0})
  close_internal id proposal_id =
      update_draft id (λ d. record d { state = closed; proposal_id = some proposal_id })

  unfoldable pub update_replies : String → ℕ → Action (DraftDb s) (Unit {0})
  update_replies id replies = update_draft id (λ d. record d { replies = replies })
