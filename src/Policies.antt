-- ===== src/Policies.antt =====
-- The policy of a DAO from its contract: castVotePolicy, castRolePermission and castDaoPolicy of
-- libs/transaction-handler/src/types (vote-policy.ts, role.ts, dao.ts), with the tests on the kinds of roles
-- in libs/near-api/src/contracts/sputnik-dao.contract.ts. `none` as a result is an exception.
pub mod Validity
pub mod Members
pub mod Daos
pub mod Rights
use astro_api_gateway.Common.{
  ℕ, ◌≡◌, Bool, true, false, not, ◌&&◌, ◌||◌, Option, none, some, List, [], ◌∷◌, ◌++◌, String, ◌==◌,
  if◌then◌else◌, filter, includes, lower_eq, length, str_append,
}
use astro_api_gateway.Permissions.{
  RoleBalance, not_given, needs, RoleKind, everyone, member, group, Role,
}

infixl 10 ◌>>=◌
abbrev pub ◌>>=◌ : {A B : Type 0} → Option A → (A → Option B) → Option B
none >>= f = none
some a >>= f = f a

-- `string | [number, number]`, which the casts do not test.
pub data Threshold : Type 0 where
  weight : String → Threshold
  ratio : ℕ → ℕ → Threshold

pub record SputnikDaoVotePolicy : Type 0 where
  pub weight_kind : String
  pub quorum : String
  pub threshold : Threshold

pub data VotePolicy : Type 0 where
  by_role by_token : String → Threshold → VotePolicy

-- The kinds of the contract, and any other value.
pub data SputnikDaoRoleKind : Type 0 where
  group_of : List String → SputnikDaoRoleKind
  member_from : ℕ → SputnikDaoRoleKind
  everyone_in other_kind : SputnikDaoRoleKind

pub record SputnikDaoRole : Type 0 where
  pub name : String
  pub kind : SputnikDaoRoleKind
  pub permissions : List String
  pub vote_policy : List (String × Option SputnikDaoVotePolicy)

pub record SputnikDaoPolicy : Type 0 where
  pub roles : List (Option SputnikDaoRole)
  pub proposal_bond : String
  pub proposal_period : String
  pub bounty_bond : String
  pub bounty_forgiveness_period : String
  pub default_vote_policy : Option SputnikDaoVotePolicy

-- A role with its id; `permission` has the fields that the computation of permissions reads.
pub record DaoRole : Type 0 where
  pub id : String
  pub permission : Role
  pub votes : List (String × Option VotePolicy)

pub record DaoPolicy : Type 0 where
  pub dao_id : Option String
  pub roles : List DaoRole
  pub proposal_bond : String
  pub proposal_period : String
  pub bounty_bond : String
  pub bounty_forgiveness_period : String
  pub default_vote_policy : Option VotePolicy

pub record PolicyOfDao : Type 0 where
  pub council : List String
  pub council_seats : ℕ
  pub number_of_members : ℕ
  pub number_of_groups : ℕ
  pub account_ids : List String
  pub policy : DaoPolicy

unfoldable pub cast_vote_policy : Option SputnikDaoVotePolicy → Option (Option VotePolicy)
cast_vote_policy none = some none
cast_vote_policy (some policy) =
    if policy.weight_kind == "RoleWeight"
    then some (some (by_role policy.quorum policy.threshold))
    else if policy.weight_kind == "TokenWeight"
    then some (some (by_token policy.quorum policy.threshold))
    else none

-- `Object.fromEntries(Object.entries(...).map(...))`
unfoldable pub cast_vote_policies :
    List (String × Option SputnikDaoVotePolicy) → Option (List (String × Option VotePolicy))
unfolding cast_vote_policy
cast_vote_policies [] = some []
cast_vote_policies ((type, policy) ∷ policies) = do
  cast ← cast_vote_policy policy
  rest ← cast_vote_policies policies
  some ((type, cast) ∷ rest)

unfoldable pub cast_kind : SputnikDaoRole → SputnikDaoRoleKind → Option Role
cast_kind role everyone_in = some record {
  name = role.name;
  kind = everyone;
  balance = not_given;
  account_ids = none;
  permissions = role.permissions;
}
cast_kind role (member_from needed) = some record {
  name = role.name;
  kind = member;
  balance = needs needed;
  account_ids = none;
  permissions = role.permissions;
}
cast_kind role (group_of accounts) = some record {
  name = role.name;
  kind = group;
  balance = not_given;
  account_ids = some accounts;
  permissions = role.permissions;
}
cast_kind role other_kind = none

-- castRolePermission with the id of the role. A missing role has no name to make the id of.
unfoldable pub cast_role_permission : String → Option SputnikDaoRole → Option DaoRole
unfolding cast_vote_policies cast_kind
cast_role_permission dao_id none = none
cast_role_permission dao_id (some role) = do
  votes ← cast_vote_policies role.vote_policy
  permission ← cast_kind role role.kind
  some record {
    id = str_append dao_id (str_append "-" role.name);
    permission = permission;
    votes = votes;
  }

unfoldable pub cast_roles : String → List (Option SputnikDaoRole) → Option (List DaoRole)
unfolding cast_role_permission
cast_roles dao_id [] = some []
cast_roles dao_id (role ∷ roles) = do
  cast ← cast_role_permission dao_id role
  rest ← cast_roles dao_id roles
  some (cast ∷ rest)

abbrev pub is_group_kind : RoleKind → Bool
is_group_kind group = true
is_group_kind _ = false

abbrev pub is_group : DaoRole → Bool
is_group role = is_group_kind role.permission.kind

abbrev pub listed : Option (List String) → List String
listed none = []
listed (some accounts) = accounts

-- `.map(({ accountIds }) => accountIds).flat()`
abbrev pub accounts_of : List DaoRole → List String
accounts_of [] = []
accounts_of (role ∷ roles) = listed role.permission.account_ids ++ accounts_of roles

-- The elements of a set, in the order in which they were added.
abbrev pub distinct_from : List String → List String → List String
distinct_from seen [] = seen
distinct_from seen (x ∷ xs) =
    if includes seen x then distinct_from seen xs else distinct_from (seen ++ x ∷ []) xs

abbrev pub is_named_council : DaoRole → Bool
is_named_council role = lower_eq role.permission.name "council"

abbrev pub policy_of_roles :
    String → SputnikDaoPolicy → List String → List DaoRole → Option VotePolicy → PolicyOfDao
policy_of_roles dao_id policy delegation_accounts roles default =
    let groups = filter is_group roles in
    let council = accounts_of (filter is_named_council groups) in
    let account_ids =
      filter (λ account. not (account == ""))
        (distinct_from [] (accounts_of groups ++ delegation_accounts)) in
    record {
      council = council;
      council_seats = length council;
      number_of_members = length account_ids;
      number_of_groups = length groups;
      account_ids = account_ids;
      policy = record {
        dao_id = some dao_id;
        roles = roles;
        proposal_bond = policy.proposal_bond;
        proposal_period = policy.proposal_period;
        bounty_bond = policy.bounty_bond;
        bounty_forgiveness_period = policy.bounty_forgiveness_period;
        default_vote_policy = default;
      };
    }

-- A policy of the first version, a list of the council, has no roles: it is `none`.
unfoldable pub cast_dao_policy : String → Option SputnikDaoPolicy → List String → Option PolicyOfDao
unfolding cast_roles cast_vote_policy
cast_dao_policy dao_id none delegation_accounts = none
cast_dao_policy dao_id (some policy) delegation_accounts = do
  roles ← cast_roles dao_id policy.roles
  default ← cast_vote_policy policy.default_vote_policy
  some (policy_of_roles dao_id policy delegation_accounts roles default)
