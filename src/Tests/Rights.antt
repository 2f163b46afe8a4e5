-- ===== src/Tests/Rights.antt =====
-- The permissions of accounts.
use astro_api_gateway.Common.{◌≡◌, refl, ◌≢◌, ◌↔◌, true, false, none, some, String, lower_eq}
use astro_api_gateway.Permissions.{
  ProposalPermissions, get_account_permissions, transfer, check_permissions, label_text,
  policy_label,
}
use astro_api_gateway.Permissions.Grants.{Grants, get_account_permissions-Grants, GivesExactly}
use astro_api_gateway.Permissions.Council.{
  LacksAccounts, get_account_permissions-LacksAccounts, OnCouncil,
  get_account_permissions-OnCouncil,
}
use astro_api_gateway.Tests.Data.{roles}

abbrev bobs : ProposalPermissions
bobs = record {
  is_council = false;
  can_approve = false;
  can_reject = false;
  can_delete = false;
  can_add = true;
}

bobs_rights : get_account_permissions roles (some transfer) (some "bob.near") none ≡ some bobs
unfolding get_account_permissions check_permissions label_text policy_label lower_eq
bobs_rights = refl

bob_is_someone : ◌≢◌ {A = String} "bob.near" ""
bob_is_someone = λ e. cc

get_account_permissions-Grants_example :
    GivesExactly false (Grants "bob.near" none (some transfer) "VoteApprove" roles)
    × GivesExactly false (Grants "bob.near" none (some transfer) "VoteReject" roles)
    × GivesExactly false (Grants "bob.near" none (some transfer) "VoteRemove" roles)
    × GivesExactly true (Grants "bob.near" none (some transfer) "AddProposal" roles)
get_account_permissions-Grants_example =
    get_account_permissions-Grants roles (some transfer) "bob.near" none bobs bob_is_someone
      bobs_rights

get_account_permissions-LacksAccounts_example :
    (get_account_permissions roles (some transfer) (some "bob.near") none ≡ none)
    ↔ LacksAccounts roles
get_account_permissions-LacksAccounts_example =
    get_account_permissions-LacksAccounts roles (some transfer) "bob.near" none bob_is_someone

get_account_permissions-OnCouncil_example : (false ≡ true) ↔ OnCouncil "bob.near" roles
get_account_permissions-OnCouncil_example =
    get_account_permissions-OnCouncil roles (some transfer) "bob.near" none bobs bob_is_someone
      bobs_rights
