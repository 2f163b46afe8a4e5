-- ===== src/Policies/Rights.antt =====
-- The permissions (libs/utils/src/index.ts, `getAccountPermissions`) on the roles of a cast policy.
use astro_api_gateway.Common.{
  ℕ, ◌≡◌, ◌≢◌, refl, ◌∙◌, sym, Bool, true, false, not, ◌||◌, Option, none, some, List, [], ◌∷◌,
  String, includes, filter, inl, inr, Bool-cases, Option-cases, includes-append, arith,
}
use astro_api_gateway.Permissions.{
  RoleKind, everyone, member, group, Role, ProposalType, ProposalPermissions,
  get_account_permissions,
}
use astro_api_gateway.Permissions.Council.{
  LacksAccounts, here, later, OnCouncil, first, next, get_account_permissions-LacksAccounts,
  get_account_permissions-OnCouncil,
}
use astro_api_gateway.Policies.{
  SputnikDaoRoleKind, group_of, member_from, everyone_in, other_kind, SputnikDaoRole,
  SputnikDaoPolicy, DaoRole, PolicyOfDao, cast_vote_policy, cast_kind, cast_role_permission,
  cast_roles, is_group, is_named_council, is_group_kind, accounts_of, policy_of_roles,
  cast_dao_policy,
}
use astro_api_gateway.Policies.Members.{cast_roles-parts, cast_role_permission-kind}

abbrev pub roles_read : List DaoRole → List Role
roles_read [] = []
roles_read (r ∷ rs) = r.permission ∷ roles_read rs

-- A role has accounts exactly if it is a group.
abbrev has_own : RoleKind → Option (List String) → Bool
has_own group (some xs) = true
has_own group none = false
has_own everyone (some xs) = false
has_own everyone none = true
has_own member (some xs) = false
has_own member none = true

cast_kind-has_own :
    (role : SputnikDaoRole) (kind : SputnikDaoRoleKind) (p : Role)
    → cast_kind role kind ≡ some p
    → has_own p.kind p.account_ids ≡ true
unfolding cast_kind
cast_kind-has_own role everyone_in p h = ground arith
cast_kind-has_own role (member_from n) p h = ground arith
cast_kind-has_own role (group_of xs) p h = ground arith
cast_kind-has_own role other_kind p h = cc

cast_role_permission-has_own :
    (dao_id : String) (role : Option SputnikDaoRole) (r : DaoRole)
    → cast_role_permission dao_id role ≡ some r
    → has_own r.permission.kind r.permission.account_ids ≡ true
unfolding cast_role_permission
cast_role_permission-has_own dao_id none r h = cc
cast_role_permission-has_own dao_id (some role) r h =
    cast_kind-has_own role role.kind r.permission (cast_role_permission-kind dao_id role r h)

no_own :
    (kind : RoleKind) (ids : Option (List String))
    → has_own kind ids ≡ true
    → kind ≡ group
    → ids ≡ none
    → true ≡ false
no_own kind ids h k n = let nothing : has_own kind ids ≡ false = rw (k, n) refl in sym h ∙ nothing

own-is_group :
    (kind : RoleKind) (ids : Option (List String)) (xs : List String)
    → has_own kind ids ≡ true
    → ids ≡ some xs
    → is_group_kind kind ≡ true
own-is_group group ids xs h g = refl
own-is_group everyone ids xs h g =
    let nothing : has_own everyone ids ≡ false = rw (g) refl in sym nothing ∙ h
own-is_group member ids xs h g =
    let nothing : has_own member ids ≡ false = rw (g) refl in sym nothing ∙ h

AllHaveOwn : List DaoRole → Type 0
AllHaveOwn [] = Unit
AllHaveOwn (r ∷ rs) = (has_own r.permission.kind r.permission.account_ids ≡ true) × AllHaveOwn rs

cast_roles-AllHaveOwn :
    (dao_id : String) (roles : List (Option SputnikDaoRole)) (cast : List DaoRole)
    → cast_roles dao_id roles ≡ some cast
    → AllHaveOwn cast
unfolding AllHaveOwn cast_roles
cast_roles-AllHaveOwn dao_id [] [] h = tt
cast_roles-AllHaveOwn dao_id [] (r ∷ rs) h = absurd (ground arith)
cast_roles-AllHaveOwn dao_id (role ∷ roles) cast h =
    let (r, rest, first_cast, others, parts) = cast_roles-parts dao_id role roles cast h in
    rw (parts) (
      cast_role_permission-has_own dao_id role r first_cast,
      cast_roles-AllHaveOwn dao_id roles rest others,
    )

never_lacks :
    (cast : List DaoRole) → AllHaveOwn cast → LacksAccounts (roles_read cast) → true ≡ false
unfolding AllHaveOwn
never_lacks [] own l = elim l [ ]
never_lacks (r ∷ rs) (own, others) (here kind missing) =
    no_own r.permission.kind r.permission.account_ids own kind missing
never_lacks (r ∷ rs) (own, others) (later l) = never_lacks rs others l

-- Whoever is on the council by the roles is listed in the council of the DAO.
OnCouncil-listed :
    (cast : List DaoRole) (a : String)
    → AllHaveOwn cast
    → OnCouncil a (roles_read cast)
    → includes (accounts_of (filter is_named_council (filter is_group cast))) a ≡ true
unfolding AllHaveOwn
OnCouncil-listed [] a own o = elim o [ ]
OnCouncil-listed (r ∷ rs) a (own, others) (first xs named given lists) =
    let grouped = own-is_group r.permission.kind r.permission.account_ids xs own given in
    let rest = accounts_of (filter is_named_council (filter is_group rs)) in
    rw (grouped, named, given) (includes-append xs rest a ∙ rw (lists) refl)
OnCouncil-listed (r ∷ rs) a (own, others) (next other o) =
    let rest = OnCouncil-listed rs a others o in
    elim (Bool-cases (is_group r)) [
      | inl grouped ↦ rw (grouped, other) rest
      | inr apart ↦ rw (apart) rest
    ]

-- The permissions are computed, and say that an account is on the council only if the DAO lists it there.
pub AgreesWith : List String → String → Option ProposalPermissions → Type 0
AgreesWith council account none = true ≡ false
AgreesWith council account (some p) = (not p.is_council || includes council account) ≡ true

get-AgreesWith :
    (cast : List DaoRole) (roles : List DaoRole) (council : List String)
    (type : Option ProposalType) (account : String) (balance : Option ℕ)
    → AllHaveOwn cast
    → account ≢ ""
    → roles ≡ cast
    → council ≡ accounts_of (filter is_named_council (filter is_group cast))
    → AgreesWith council account
        (get_account_permissions (roles_read roles) type (some account) balance)
unfolding AgreesWith
get-AgreesWith cast roles council type account balance own ne same listed_in =
    elim (Option-cases (get_account_permissions (roles_read cast) type (some account) balance)) [
      | inl failed ↦ absurd (
          ground (
            arith,
            never_lacks cast own (
                (get_account_permissions-LacksAccounts (roles_read cast) type account balance ne).0
                  failed),
          ))
      | inr (p, computed) ↦
          rw (same, computed, listed_in)
            (elim (Bool-cases p.is_council) [
              | inl on ↦ ground (
                arith,
                on,
                OnCouncil-listed cast account own (
                    (get_account_permissions-OnCouncil (roles_read cast) type account balance p ne
                        computed).0
                      on),
              )
              | inr off ↦ ground (arith, off)
            ])
    ]

cast_dao_policy-roles :
    (dao_id : String) (policy : SputnikDaoPolicy) (delegation_accounts : List String)
    (dao : PolicyOfDao)
    → cast_dao_policy dao_id (some policy) delegation_accounts ≡ some dao
    → (cast : List DaoRole) × (cast_roles dao_id policy.roles ≡ some cast)
      × (dao.policy.roles ≡ cast)
      × (dao.council ≡ accounts_of (filter is_named_council (filter is_group cast)))
unfolding cast_dao_policy
cast_dao_policy-roles dao_id policy delegation_accounts dao h =
    elim (Option-cases (cast_roles dao_id policy.roles)) [
      | inl failed ↦ absurd (ground arith)
      | inr (cast, given) ↦ elim (Option-cases (cast_vote_policy policy.default_vote_policy)) [
        | inl failed ↦ absurd (ground arith)
        | inr (default, vote) ↦
            let computed : cast_dao_policy dao_id (some policy) delegation_accounts
                ≡ some (policy_of_roles dao_id policy delegation_accounts cast default) =
              rw (given, vote) refl in
            let made : policy_of_roles dao_id policy delegation_accounts cast default ≡ dao = cc in
            (cast, given, rw (← made) refl, rw (← made) refl)
      ]
    ]

-- On the roles of a cast policy the permissions of an account are computed with no exception, and it is
-- said to be on the council only if the DAO's council lists it.
pub get_account_permissions-AgreesWith :
    (dao_id : String) (policy : SputnikDaoPolicy) (delegation_accounts : List String)
    (dao : PolicyOfDao) (type : Option ProposalType) (account : String) (balance : Option ℕ)
    → account ≢ ""
    → cast_dao_policy dao_id (some policy) delegation_accounts ≡ some dao
    → AgreesWith dao.council account
        (get_account_permissions (roles_read dao.policy.roles) type (some account) balance)
get_account_permissions-AgreesWith dao_id policy delegation_accounts dao type account balance ne h =
    let (cast, given, roles, council) =
      cast_dao_policy-roles dao_id policy delegation_accounts dao h in
    let own = cast_roles-AllHaveOwn dao_id policy.roles cast given in
    get-AgreesWith cast dao.policy.roles dao.council type account balance own ne roles council
