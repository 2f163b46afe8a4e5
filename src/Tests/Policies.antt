-- ===== src/Tests/Policies.antt =====
-- The theorems on the policies of DAOs at a concrete policy.
use astro_api_gateway.Common.{◌≡◌, ◌≢◌, refl, none, some, List, [], ◌∷◌, String}
use astro_api_gateway.Permissions.{not_given, group, everyone, transfer, get_account_permissions}
use astro_api_gateway.Policies.{
  SputnikDaoPolicy, SputnikDaoRole, group_of, everyone_in, ratio, by_role, PolicyOfDao,
  policy_of_roles, cast_dao_policy, cast_roles, cast_role_permission, cast_kind, cast_vote_policies,
  cast_vote_policy,
}
use astro_api_gateway.Policies.Members.{Answers, cast_dao_policy-Answers}
use astro_api_gateway.Policies.Rights.{roles_read, AgreesWith, get_account_permissions-AgreesWith}

bob_is_named : ◌≢◌ {A = String} "bob.near" ""
bob_is_named = λ e. cc

abbrev council_role : SputnikDaoRole
council_role = record {
  name = "Council";
  kind = group_of ("alice.near" ∷ "bob.near" ∷ []);
  permissions = "*:*" ∷ [];
  vote_policy =
      ("transfer", some record { weight_kind = "RoleWeight"; quorum = "0"; threshold = ratio 1 2 })
      ∷ [];
}

abbrev all_role : SputnikDaoRole
all_role = record {
  name = "all";
  kind = everyone_in;
  permissions = "*:AddProposal" ∷ [];
  vote_policy = [];
}

abbrev pub council_policy : SputnikDaoPolicy
council_policy = record {
  roles = some all_role ∷ some council_role ∷ [];
  proposal_bond = "1";
  proposal_period = "2";
  bounty_bond = "3";
  bounty_forgiveness_period = "4";
  default_vote_policy = none;
}

abbrev pub delegates : List String
delegates = "carol.near" ∷ "bob.near" ∷ "" ∷ []

cast_dao_policy-Answers_example :
    Answers council_policy delegates (cast_dao_policy "dao.near" (some council_policy) delegates)
cast_dao_policy-Answers_example = cast_dao_policy-Answers "dao.near" council_policy delegates

abbrev pub council_dao : PolicyOfDao
council_dao =
    policy_of_roles "dao.near" council_policy delegates
      (record {
        id = "dao.near-all";
        permission = record {
          name = "all";
          kind = everyone;
          balance = not_given;
          account_ids = none;
          permissions = "*:AddProposal" ∷ [];
        };
        votes = [];
      }
        ∷ record {
          id = "dao.near-Council";
          permission = record {
            name = "Council";
            kind = group;
            balance = not_given;
            account_ids = some ("alice.near" ∷ "bob.near" ∷ []);
            permissions = "*:*" ∷ [];
          };
          votes = ("transfer", some (by_role "0" (ratio 1 2))) ∷ [];
        }
        ∷ [])
      none

cast_council : cast_dao_policy "dao.near" (some council_policy) delegates ≡ some council_dao
unfolding cast_dao_policy cast_roles cast_role_permission cast_kind cast_vote_policies
    cast_vote_policy
cast_council = refl

members_of_council : council_dao.account_ids ≡ "alice.near" ∷ "bob.near" ∷ "carol.near" ∷ []
members_of_council = refl

get_account_permissions-AgreesWith_example : AgreesWith council_dao.council "bob.near" (
    get_account_permissions
      (roles_read council_dao.policy.roles)
      (some transfer)
      (some "bob.near")
      none)
get_account_permissions-AgreesWith_example =
    get_account_permissions-AgreesWith "dao.near" council_policy delegates council_dao
      (some transfer) "bob.near" none bob_is_named cast_council
