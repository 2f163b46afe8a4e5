-- ===== src/Permissions.antt =====
-- libs/utils/src/index.ts (`getAccountPermissions`, `checkPermissions`) with the policy labels of
-- libs/proposal/src/types/proposal-type.ts: what an account may do, from the roles of a DAO's policy.
-- `none` as a result is the `TypeError` of `role.accountIds.includes` on a group without accounts.
pub mod Grants
pub mod Council
use astro_api_gateway.Common.{
  ℕ, Bool, true, false, ◌&&◌, ◌||◌, Option, none, some, List, [], ◌∷◌, ◌++◌, String, ◌==◌,
  if◌then◌else◌, leb, find, includes, lower_eq, str_append,
}

pub data ProposalType : Type 0 where
  change_config change_policy add_member_to_role remove_member_from_role : ProposalType
  function_call upgrade_self upgrade_remote transfer : ProposalType
  set_staking_contract add_bounty bounty_done vote : ProposalType

-- `ProposalTypeToPolicyLabel`
unfoldable pub policy_label : ProposalType → String
policy_label change_config = "config"
policy_label change_policy = "policy"
policy_label add_member_to_role = "add_member_to_role"
policy_label remove_member_from_role = "remove_member_from_role"
policy_label function_call = "call"
policy_label upgrade_self = "upgrade_self"
policy_label upgrade_remote = "upgrade_remote"
policy_label transfer = "transfer"
policy_label set_staking_contract = "set_vote_token"
policy_label add_bounty = "add_bounty"
policy_label bounty_done = "bounty_done"
policy_label vote = "vote"

pub data RoleKind : Type 0 where
  everyone member group : RoleKind

-- A balance of a role: not given at all, `null` as in the nullable column, or a number.
pub data RoleBalance : Type 0 where
  not_given null_balance : RoleBalance
  needs : ℕ → RoleBalance

-- The columns that are read here.
pub record Role : Type 0 where
  pub name : String
  pub kind : RoleKind
  pub balance : RoleBalance
  pub account_ids : Option (List String)
  pub permissions : List String

pub record ProposalPermissions : Type 0 where
  pub is_council : Bool
  pub can_approve : Bool
  pub can_reject : Bool
  pub can_delete : Bool
  pub can_add : Bool

abbrev nothing_allowed : ProposalPermissions
nothing_allowed = record {
  is_council = false;
  can_approve = false;
  can_reject = false;
  can_delete = false;
  can_add = false;
}

-- `${policyLabel}`, which prints a missing label as "undefined".
unfoldable pub label_text : Option ProposalType → String
unfolding policy_label
label_text none = "undefined"
label_text (some type) = policy_label type

unfoldable pub check_permissions : Option ProposalType → String → List String → Bool
check_permissions type permission permissions =
    includes permissions "*:*"
    || (includes permissions (str_append "*:" permission)
        || includes permissions (str_append (label_text type) (str_append ":" permission)))

-- `accountBalance >= role.balance`: `null` counts as zero, and a comparison with `undefined` is false.
abbrev pub has_balance : Option ℕ → RoleBalance → Bool
has_balance none need = false
has_balance (some have) not_given = false
has_balance (some have) null_balance = true
has_balance (some have) (needs need) = leb need have

-- The condition of the `reduce`.
abbrev covers : String → Option ℕ → Role → RoleKind → Option Bool
covers account balance role everyone = some true
covers account balance role member = some (has_balance balance role.balance)
covers account balance role group = elim role.account_ids [
  | none ↦ none
  | some accounts ↦ some (includes accounts account)
]

-- The `reduce`, with the permissions collected so far.
collect : String → Option ℕ → List String → List Role → Option (List String)
collect account balance acc [] = some acc
collect account balance acc (role ∷ roles) = elim (covers account balance role role.kind) [
  | none ↦ none
  | some applies ↦ collect account balance (if applies then acc ++ role.permissions else acc) roles
]

abbrev lists : Option (List String) → String → Bool
lists none account = false
lists (some accounts) account = includes accounts account

-- `council?.accountIds ? council.accountIds.includes(accountId) : false`
abbrev council_lists : Option Role → String → Bool
council_lists none account = false
council_lists (some role) account = lists role.account_ids account

council_of : List Role → Option Role
council_of roles = find (λ role. lower_eq role.name "council") roles

pub permissions_of :
    List Role → Option ProposalType → String → Option ℕ → Option ProposalPermissions
unfolding collect council_of
permissions_of roles type account balance = elim (collect account balance [] roles) [
  | none ↦ none
  | some permissions ↦ some record {
    is_council = council_lists (council_of roles) account;
    can_approve = check_permissions type "VoteApprove" permissions;
    can_reject = check_permissions type "VoteReject" permissions;
    can_delete = check_permissions type "VoteRemove" permissions;
    can_add = check_permissions type "AddProposal" permissions;
  }
]

unfoldable pub get_account_permissions :
    List Role → Option ProposalType → Option String → Option ℕ → Option ProposalPermissions
unfolding permissions_of
get_account_permissions roles type none balance = some nothing_allowed
get_account_permissions roles type (some account) balance =
    if account == "" then some nothing_allowed else permissions_of roles type account balance
