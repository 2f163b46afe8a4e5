-- ===== src/Tests/Data.antt =====
-- Test data: a DAO with a council, its drafts and comments.
use astro_api_gateway.Common.{true, false, none, some, List, [], ◌∷◌, refl}
use astro_api_gateway.Common.Repository.InMemory.{in_memory}
use astro_api_gateway.Permissions.{not_given, Role, group, everyone, transfer}
use astro_api_gateway.Draft.Entities.{
  DraftProposal, open_state, closed, DraftComment, draft_proposal, DraftStores, DraftDb, DraftEnv,
}
use astro_api_gateway.Draft.Proposals.{CreateDraftProposal, UpdateDraftProposal}
use astro_api_gateway.Draft.Comments.{CreateDraftComment}

abbrev pub council_role : Role
council_role = record {
  name = "Council";
  kind = group;
  balance = not_given;
  account_ids = some ("alice.near" ∷ []);
  permissions = "*:*" ∷ [];
}

abbrev pub everyone_role : Role
everyone_role = record {
  name = "all";
  kind = everyone;
  balance = not_given;
  account_ids = none;
  permissions = "transfer:AddProposal" ∷ [];
}

abbrev pub roles : List Role
roles = council_role ∷ everyone_role ∷ []

abbrev pub stores : DraftStores
stores = record { drafts = in_memory _; history = in_memory _; comments = in_memory _ }

abbrev pub env : DraftEnv
env = record {
  dao_roles = λ dao_id. some roles;
  index_drafts = true;
  draft_comments_dynamo = false;
}

abbrev pub edit : UpdateDraftProposal
edit = record { title = "Pay"; description = "Pay carol"; kind = "{}"; type = transfer }

abbrev pub new_dto : CreateDraftProposal
new_dto = record { dao_id = "dao.near"; fields = edit }

abbrev pub comment_dto : CreateDraftComment
comment_dto = record {
  context_id = "d1";
  context_type = draft_proposal;
  message = "Why?";
  reply_to = none;
}

abbrev pub draft : DraftProposal
draft = record {
  dao_id = "dao.near";
  proposal_id = none;
  proposer = "bob.near";
  title = "Old";
  description = "Old text";
  kind = "{}";
  type = transfer;
  state = open_state;
  view_accounts = [];
  save_accounts = [];
  replies = 1;
  created_at = 1;
  updated_at = 1;
}

abbrev pub shut_draft : DraftProposal
shut_draft = record draft { state = closed; proposal_id = some "dao.near-7" }

-- A comment that was stored before there were dislikes.
abbrev pub old_comment : DraftComment
old_comment = record {
  dao_id = "dao.near";
  context_id = "d1";
  context_type = draft_proposal;
  author = "carol.near";
  message = "Why?";
  reply_to = none;
  like_accounts = "alice.near" ∷ [];
  dislike_accounts = none;
  created_at = 2;
  updated_at = 2;
}

abbrev pub empty_db : DraftDb stores
empty_db = record {
  drafts = ([], tt);
  history = ([], tt);
  comments = ([], tt);
  indexed = [];
  events = [];
}

abbrev pub db : DraftDb stores
db = record {
  drafts = (("d1", draft) ∷ [], (refl, tt));
  history = ([], tt);
  comments = (("c1", old_comment) ∷ [], (refl, tt));
  indexed = [];
  events = [];
}

abbrev pub shut_db : DraftDb stores
shut_db = record db { drafts = (("d1", shut_draft) ∷ [], (refl, tt)) }
