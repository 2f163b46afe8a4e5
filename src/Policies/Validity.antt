-- ===== src/Policies/Validity.antt =====
-- Which policies the casts of libs/transaction-handler/src/types accept.
use astro_api_gateway.Common.{
  ◌≡◌, refl, Bool, true, false, ◌&&◌, ◌||◌, Option, none, some, List, [], ◌∷◌, String, ◌==◌, arith,
}
use astro_api_gateway.Policies.{
  SputnikDaoVotePolicy, SputnikDaoRoleKind, group_of, member_from, everyone_in, other_kind,
  SputnikDaoRole, SputnikDaoPolicy, cast_vote_policies, cast_vote_policy, cast_kind,
  cast_role_permission, cast_roles,
}

-- What the casts accept.
abbrev valid_vote : Option SputnikDaoVotePolicy → Bool
valid_vote none = true
valid_vote (some policy) = policy.weight_kind == "RoleWeight" || policy.weight_kind == "TokenWeight"

abbrev valid_votes : List (String × Option SputnikDaoVotePolicy) → Bool
valid_votes [] = true
valid_votes ((type, policy) ∷ policies) = valid_vote policy && valid_votes policies

abbrev valid_kind : SputnikDaoRoleKind → Bool
valid_kind other_kind = false
valid_kind _ = true

abbrev valid_roles : List (Option SputnikDaoRole) → Bool
valid_roles [] = true
valid_roles (none ∷ roles) = false
valid_roles (some role ∷ roles) =
    (valid_votes role.vote_policy && valid_kind role.kind) && valid_roles roles

abbrev pub valid_policy : SputnikDaoPolicy → Bool
valid_policy policy = valid_roles policy.roles && valid_vote policy.default_vote_policy

abbrev is_some {ℓ} : {A : Type ℓ} → Option A → Bool
is_some none = false
is_some (some a) = true

pub cast_vote_policy-valid :
    (policy : Option SputnikDaoVotePolicy) → is_some (cast_vote_policy policy) ≡ valid_vote policy
unfolding cast_vote_policy
cast_vote_policy-valid none = refl
cast_vote_policy-valid (some policy) = ground arith

cast_vote_policies-valid :
    (policies : List (String × Option SputnikDaoVotePolicy))
    → is_some (cast_vote_policies policies) ≡ valid_votes policies
unfolding cast_vote_policies
cast_vote_policies-valid [] = refl
cast_vote_policies-valid ((type, policy) ∷ policies) =
    ground (arith, cast_vote_policy-valid policy, cast_vote_policies-valid policies)

cast_kind-valid :
    (role : SputnikDaoRole) (kind : SputnikDaoRoleKind)
    → is_some (cast_kind role kind) ≡ valid_kind kind
unfolding cast_kind
cast_kind-valid role everyone_in = refl
cast_kind-valid role (member_from n) = refl
cast_kind-valid role (group_of xs) = refl
cast_kind-valid role other_kind = refl

pub cast_roles-valid :
    (dao_id : String) (roles : List (Option SputnikDaoRole))
    → is_some (cast_roles dao_id roles) ≡ valid_roles roles
unfolding cast_roles cast_role_permission
cast_roles-valid dao_id [] = refl
cast_roles-valid dao_id (none ∷ roles) = refl
cast_roles-valid dao_id (some role ∷ roles) = ground (
  arith,
  cast_vote_policies-valid role.vote_policy,
  cast_kind-valid role role.kind,
  cast_roles-valid dao_id roles,
)
