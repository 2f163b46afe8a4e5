-- ===== src/Policies/Members.antt =====
-- Who is a member and who is on the council, by the roles of the contract's policy.
use mathlib.Core.Path.{subst}
use astro_api_gateway.Common.{
  ◌≡◌, refl, ap, ◌∙◌, Bool, true, false, not, ◌&&◌, ◌||◌, Option, none, some, List, [], ◌∷◌, ◌++◌,
  String, ◌==◌, if◌then◌else◌, filter, includes, lower_eq, length, IsUnique, inl, inr, Bool-cases,
  Option-cases, includes-append, includes-concat, IsUnique-concat, eq_iff, arith,
}
use astro_api_gateway.Permissions.{Role}
use astro_api_gateway.Policies.Validity.{valid_policy, cast_roles-valid, cast_vote_policy-valid}
use astro_api_gateway.Policies.{
  SputnikDaoRoleKind, group_of, member_from, everyone_in, other_kind, SputnikDaoRole,
  SputnikDaoPolicy, DaoRole, PolicyOfDao, VotePolicy, cast_vote_policies, cast_vote_policy,
  cast_kind, cast_role_permission, cast_roles, is_group, is_group_kind, listed, accounts_of,
  distinct_from, policy_of_roles, cast_dao_policy,
}

-- The account is in a group of the contract's roles whose name passes the test.
abbrev kind_lists : String → SputnikDaoRoleKind → Bool
kind_lists a (group_of accounts) = includes accounts a
kind_lists a _ = false

abbrev pub in_group : (String → Bool) → List (Option SputnikDaoRole) → String → Bool
in_group named [] a = false
in_group named (none ∷ roles) a = in_group named roles a
in_group named (some role ∷ roles) a =
    (named role.name && kind_lists a role.kind) || in_group named roles a

-- `new Set` keeps each element once.
distinct_from-IsUnique : (seen xs : List String) → IsUnique seen → IsUnique (distinct_from seen xs)
distinct_from-IsUnique seen [] u = u
distinct_from-IsUnique seen (x ∷ xs) u = elim (Bool-cases (includes seen x)) [
  | inl known ↦ rw (known) (distinct_from-IsUnique seen xs u)
  | inr new ↦ rw (new) (distinct_from-IsUnique (seen ++ x ∷ []) xs (IsUnique-concat seen x u new))
]

includes-distinct_from :
    (seen xs : List String) (a : String)
    → includes (distinct_from seen xs) a ≡ (includes seen a || includes xs a)
includes-distinct_from seen [] a = ground arith
includes-distinct_from seen (x ∷ xs) a = elim (Bool-cases (includes seen x)) [
  | inl known ↦ ground (arith, includes-distinct_from seen xs a, eq_iff x a)
  | inr new ↦ ground (arith, includes-distinct_from (seen ++ x ∷ []) xs a, includes-concat seen x a)
]

abbrev is_given : String → Bool
is_given a = not (a == "")

includes-filter :
    (xs : List String) (a : String)
    → includes (filter is_given xs) a ≡ (is_given a && includes xs a)
includes-filter [] a = ground arith
includes-filter (x ∷ xs) a = ground (arith, includes-filter xs a, eq_iff x a)

filter-IsUnique : (xs : List String) → IsUnique xs → IsUnique (filter is_given xs)
filter-IsUnique [] u = tt
filter-IsUnique (x ∷ xs) (new, u) = ground (arith, filter-IsUnique xs u, includes-filter xs x)

-- The accounts of a role that is a group.
abbrev group_accounts : Role → List String
group_accounts p = if is_group_kind p.kind then listed p.account_ids else []

-- A cast role keeps its name and its accounts.
cast_kind-keeps :
    (role : SputnikDaoRole) (kind : SputnikDaoRoleKind) (p : Role) (a : String)
    → cast_kind role kind ≡ some p
    → (p.name ≡ role.name) × (includes (group_accounts p) a ≡ kind_lists a kind)
unfolding cast_kind
cast_kind-keeps role everyone_in p a h = ground arith
cast_kind-keeps role (member_from n) p a h = ground arith
cast_kind-keeps role (group_of xs) p a h = ground arith
cast_kind-keeps role other_kind p a h = cc

pub cast_role_permission-kind :
    (dao_id : String) (role : SputnikDaoRole) (r : DaoRole)
    → cast_role_permission dao_id (some role) ≡ some r
    → cast_kind role role.kind ≡ some r.permission
unfolding cast_role_permission
cast_role_permission-kind dao_id role r h =
    elim (Option-cases (cast_vote_policies role.vote_policy)) [
      | inl failed ↦ absurd (ground arith)
      | inr (votes, given) ↦ elim (Option-cases (cast_kind role role.kind)) [
        | inl failed ↦ absurd (ground arith)
        | inr (p, cast) ↦ ground arith
      ]
    ]

-- The parts of a list of roles that was cast.
pub cast_roles-parts :
    (dao_id : String) (role : Option SputnikDaoRole) (roles : List (Option SputnikDaoRole))
    (cast : List DaoRole)
    → cast_roles dao_id (role ∷ roles) ≡ some cast
    → (r : DaoRole) × (rest : List DaoRole) × (cast_role_permission dao_id role ≡ some r)
      × (cast_roles dao_id roles ≡ some rest)
      × (cast ≡ r ∷ rest)
unfolding cast_roles
cast_roles-parts dao_id role roles cast h = elim (Option-cases (cast_role_permission dao_id role)) [
  | inl failed ↦ absurd (ground arith)
  | inr (r, first) ↦ elim (Option-cases (cast_roles dao_id roles)) [
    | inl failed ↦ absurd (ground arith)
    | inr (rest, others) ↦ (r, rest, first, others, ground arith)
  ]
]

module _ (named : String → Bool) (a : String) where
  abbrev chosen : List DaoRole → List DaoRole
  chosen roles = filter (λ r. named r.permission.name) (filter is_group roles)

  includes-chosen :
      (r : DaoRole) (rest : List DaoRole)
      → includes (accounts_of (chosen (r ∷ rest))) a ≡ (
          (named r.permission.name && includes (group_accounts r.permission) a)
          || includes (accounts_of (chosen rest)) a)
  includes-chosen r rest =
      ground
        (arith, includes-append (listed r.permission.account_ids) (accounts_of (chosen rest)) a)

  -- The accounts of the groups with a name are those of the contract's groups with it.
  cast_roles-in_group :
      (dao_id : String) (roles : List (Option SputnikDaoRole)) (cast : List DaoRole)
      → cast_roles dao_id roles ≡ some cast
      → includes (accounts_of (chosen cast)) a ≡ in_group named roles a
  unfolding cast_roles cast_role_permission
  cast_roles-in_group dao_id [] cast h = ground arith
  cast_roles-in_group dao_id (none ∷ roles) cast h = absurd (ground arith)
  cast_roles-in_group dao_id (some role ∷ roles) cast h =
      let (r, rest, first, others, parts) = cast_roles-parts dao_id (some role) roles cast h in
      let (same_name, same_accounts) =
        cast_kind-keeps role role.kind r.permission a
          (cast_role_permission-kind dao_id role r first) in
      let later = cast_roles-in_group dao_id roles rest others in
      rw (parts) (includes-chosen r rest ∙ rw (same_name, same_accounts, later) refl)

filter-all : (xs : List DaoRole) → filter (λ r. true) xs ≡ xs
filter-all [] = refl
filter-all (x ∷ xs) = rw (filter-all xs)

-- The lists and numbers of the answer, by the contract's roles.
pub record HasMembers (policy : SputnikDaoPolicy) (delegation_accounts : List String)
    (dao : PolicyOfDao) : Type 0 where
  pub once : IsUnique dao.account_ids
  pub members :
      (a : String)
      → includes dao.account_ids a ≡ (
          not (a == "")
          && (in_group (λ name. true) policy.roles a || includes delegation_accounts a))
  pub on_council :
      (a : String)
      → includes dao.council a ≡ in_group (λ name. lower_eq name "council") policy.roles a
  pub members_counted : dao.number_of_members ≡ length dao.account_ids
  pub seats_counted : dao.council_seats ≡ length dao.council

-- The answer of a valid policy has its members, and there is none to another.
pub Answers : SputnikDaoPolicy → List String → Option PolicyOfDao → Type 0
Answers policy delegation_accounts none = valid_policy policy ≡ false
Answers policy delegation_accounts (some dao) =
    (valid_policy policy ≡ true) × HasMembers policy delegation_accounts dao

policy_of_roles-HasMembers :
    (dao_id : String) (policy : SputnikDaoPolicy) (delegation_accounts : List String)
    (cast : List DaoRole) (default : Option VotePolicy)
    → cast_roles dao_id policy.roles ≡ some cast
    → HasMembers policy delegation_accounts
        (policy_of_roles dao_id policy delegation_accounts cast default)
policy_of_roles-HasMembers dao_id policy delegation_accounts cast default h =
    let groups = filter is_group cast in
    let all = accounts_of groups ++ delegation_accounts in
    record {
      once = filter-IsUnique (distinct_from [] all) (distinct_from-IsUnique [] all tt);
      members = λ a.
          let same = ap (λ rs. includes (accounts_of rs) a) (filter-all groups) in
          includes-filter (distinct_from [] all) a
          ∙ ground (
            arith,
            includes-distinct_from [] all a,
            includes-append (accounts_of groups) delegation_accounts a,
            same,
            cast_roles-in_group (λ name. true) a dao_id policy.roles cast h,
          );
      on_council =
          λ a. cast_roles-in_group (λ name. lower_eq name "council") a dao_id policy.roles cast h;
      members_counted = refl;
      seats_counted = refl;
    }

-- The cast of a policy throws exactly if some role is missing or of another kind, or some vote policy has
-- another weight. Else the members are the accounts of the groups and of the delegations, each once and
-- without the empty one, and the council has the accounts of all groups that are named so in any case.
pub cast_dao_policy-Answers :
    (dao_id : String) (policy : SputnikDaoPolicy) (delegation_accounts : List String)
    → Answers policy delegation_accounts (cast_dao_policy dao_id (some policy) delegation_accounts)
unfolding cast_dao_policy Answers
cast_dao_policy-Answers dao_id policy delegation_accounts =
    let roles_valid = cast_roles-valid dao_id policy.roles in
    let vote_valid = cast_vote_policy-valid policy.default_vote_policy in
    elim (Option-cases (cast_roles dao_id policy.roles)) [
      | inl failed ↦ rw (failed) (ground (arith, roles_valid, failed))
      | inr (cast, given) ↦ elim (Option-cases (cast_vote_policy policy.default_vote_policy)) [
        | inl failed ↦ rw (given, failed) (ground (arith, vote_valid, failed))
        | inr (default, vote) ↦
            rw (given, vote)
              (
                ground (arith, roles_valid, vote_valid, given, vote),
                policy_of_roles-HasMembers dao_id policy delegation_accounts cast default given,
              )
      ]
    ]

pub cast_dao_policy-HasMembers :
    (dao_id : String) (policy : SputnikDaoPolicy) (delegation_accounts : List String)
    (dao : PolicyOfDao)
    → cast_dao_policy dao_id (some policy) delegation_accounts ≡ some dao
    → HasMembers policy delegation_accounts dao
unfolding Answers
cast_dao_policy-HasMembers dao_id policy delegation_accounts dao h =
    (subst (λ r. Answers policy delegation_accounts r) h
      (cast_dao_policy-Answers dao_id policy delegation_accounts)).1
