-- ===== src/Policies/Daos/Counted.antt =====
-- The lists and numbers of a stored DAO stay in agreement over its casts.
use mathlib.Core.Path.{subst}
use astro_api_gateway.Common.{
  ℕ, ◌≡◌, refl, ap, ◌∙◌, Bool, true, not, ◌||◌, Option, none, some, List, [], ◌∷◌, String, ◌==◌,
  includes, length, lower_eq, IsUnique, inl, inr, Option-cases, arith,
}
use astro_api_gateway.Policies.{
  SputnikDaoRole, SputnikDaoPolicy, DaoPolicy, PolicyOfDao, cast_dao_policy,
}
use astro_api_gateway.Policies.Members.{HasMembers, in_group, cast_dao_policy-HasMembers}
use astro_api_gateway.Policies.Daos.{
  DaoInfo, Dao, Changed, given_or, cast_dynamo_dao_policy, cast_create_dao, cast_add_proposal_dao,
  cast_act_proposal_dao,
}

-- The members are listed once and counted, and every account of the council is one of them.
pub record IsCounted (shape : PolicyOfDao) : Type 0 where
  pub members_once : IsUnique shape.account_ids
  pub members_number : shape.number_of_members ≡ length shape.account_ids
  pub seats_number : shape.council_seats ≡ length shape.council
  pub council_inside :
      (a : String)
      → (not (includes shape.council a) || (a == "" || includes shape.account_ids a)) ≡ true

in_group-all :
    (named : String → Bool) (roles : List (Option SputnikDaoRole)) (a : String)
    → (not (in_group named roles a) || in_group (λ name. true) roles a) ≡ true
in_group-all named [] a = refl
in_group-all named (none ∷ roles) a = in_group-all named roles a
in_group-all named (some role ∷ roles) a = ground (arith, in_group-all named roles a)

HasMembers-IsCounted :
    (policy : SputnikDaoPolicy) (delegation_accounts : List String) (shape : PolicyOfDao)
    → HasMembers policy delegation_accounts shape
    → IsCounted shape
HasMembers-IsCounted policy delegation_accounts shape h = record {
  members_once = h.once;
  members_number = h.members_counted;
  seats_number = h.seats_counted;
  council_inside = λ a. ground (
    arith,
    h.members a,
    h.on_council a,
    in_group-all (λ name. lower_eq name "council") policy.roles a,
  );
}

cast_dao_policy-IsCounted :
    (dao_id : String) (policy : Option SputnikDaoPolicy) (delegation_accounts : List String)
    (shape : PolicyOfDao)
    → cast_dao_policy dao_id policy delegation_accounts ≡ some shape
    → IsCounted shape
unfolding cast_dao_policy
cast_dao_policy-IsCounted dao_id none delegation_accounts shape h = cc
cast_dao_policy-IsCounted dao_id (some policy) delegation_accounts shape h =
    HasMembers-IsCounted policy delegation_accounts shape
      (cast_dao_policy-HasMembers dao_id policy delegation_accounts shape h)

-- The policy itself is not counted.
IsCounted-policy :
    (shape : PolicyOfDao) (policy : DaoPolicy)
    → IsCounted shape
    → IsCounted (record shape { policy = policy })
IsCounted-policy shape policy c = record {
  members_once = c.members_once;
  members_number = c.members_number;
  seats_number = c.seats_number;
  council_inside = c.council_inside;
}

module _ {Json : Type 0} (btoa_json : String → Option Json) where
  -- The DAOs that come from a creation by any calls of the casts.
  pub data Reach : Dao btoa_json → Type 0 where
    created :
        (signer_id transaction_hash dao_id : String) (info : DaoInfo)
        (delegation_accounts : List String) (timestamp : String) (dao : Dao btoa_json)
        → cast_create_dao btoa_json signer_id transaction_hash dao_id info delegation_accounts
            timestamp
          ≡ some dao
        → Reach dao
    proposed :
        (dao : Dao btoa_json) (last_proposal_id : ℕ) (transaction_hash timestamp : String)
        → Reach dao
        → Reach (cast_add_proposal_dao btoa_json dao last_proposal_id transaction_hash timestamp)
    acted :
        (dao : Dao btoa_json) (transaction_hash : String) (changed : Changed btoa_json)
        (timestamp : String) (after : Dao btoa_json)
        → Reach dao
        → cast_act_proposal_dao btoa_json dao transaction_hash changed timestamp ≡ some after
        → Reach after

  cast_create_dao-IsCounted :
      (signer_id transaction_hash dao_id : String) (info : DaoInfo)
      (delegation_accounts : List String) (timestamp : String) (dao : Dao btoa_json)
      → cast_create_dao btoa_json signer_id transaction_hash dao_id info delegation_accounts
          timestamp
        ≡ some dao
      → IsCounted dao.shape
  unfolding cast_create_dao
  cast_create_dao-IsCounted signer_id transaction_hash dao_id info delegation_accounts timestamp dao
        h =
      elim (Option-cases (cast_dao_policy dao_id info.policy delegation_accounts)) [
        | inl failed ↦ absurd (ground arith)
        | inr (shape, cast) ↦
            let same : shape ≡ dao.shape = ground arith in
            cast_dao_policy-IsCounted dao_id info.policy delegation_accounts dao.shape
              (cast ∙ ap (λ s. some s) same)
      ]

  -- An act casts the given policy or keeps what there was.
  cast_act_proposal_dao-IsCounted :
      (dao : Dao btoa_json) (transaction_hash : String) (changed : Changed btoa_json)
      (timestamp : String) (after : Dao btoa_json) (given : Option (Option SputnikDaoPolicy))
      → changed.policy ≡ given
      → IsCounted dao.shape
      → cast_act_proposal_dao btoa_json dao transaction_hash changed timestamp ≡ some after
      → IsCounted after.shape
  unfolding cast_act_proposal_dao
  cast_act_proposal_dao-IsCounted dao transaction_hash changed timestamp after none e counted h =
      let same : record dao.shape { policy = cast_dynamo_dao_policy dao.id dao.shape.policy }
          ≡ after.shape =
        ground (arith, e) in
      subst IsCounted same
        (IsCounted-policy dao.shape (cast_dynamo_dao_policy dao.id dao.shape.policy) counted)
  cast_act_proposal_dao-IsCounted dao transaction_hash changed timestamp after (some policy) e
        counted h =
      let delegations = given_or changed.delegation_accounts [] in
      elim (Option-cases (cast_dao_policy dao.id policy delegations)) [
        | inl failed ↦ absurd (ground (arith, e))
        | inr (shape, cast) ↦
            let same : shape ≡ after.shape = ground (arith, e) in
            cast_dao_policy-IsCounted dao.id policy delegations after.shape
              (cast ∙ ap (λ s. some s) same)
      ]

  -- Every DAO that comes from a creation by the casts lists its members once, has their number and the number
  -- of the council's seats, and its council has no account that is not a member, apart from the empty one.
  pub Reach-IsCounted : (dao : Dao btoa_json) → Reach dao → IsCounted dao.shape
  unfolding cast_add_proposal_dao
  Reach-IsCounted dao
        (created signer_id transaction_hash dao_id info delegation_accounts timestamp _ h) =
      cast_create_dao-IsCounted signer_id transaction_hash dao_id info delegation_accounts timestamp
        dao h
  Reach-IsCounted _ (proposed dao last_proposal_id transaction_hash timestamp before) =
      IsCounted-policy dao.shape (cast_dynamo_dao_policy dao.id dao.shape.policy)
        (Reach-IsCounted dao before)
  Reach-IsCounted after (acted dao transaction_hash changed timestamp _ before h) =
      cast_act_proposal_dao-IsCounted dao transaction_hash changed timestamp after changed.policy
        refl (Reach-IsCounted dao before) h
