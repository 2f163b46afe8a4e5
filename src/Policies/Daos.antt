-- ===== src/Policies/Daos.antt =====
-- The DAO that is stored: castCreateDao, castAddProposalDao and castActProposalDao with castDynamoDaoPolicy, of
-- libs/transaction-handler/src/types/dao.ts. The JSON of the metadata and its parser are parameters.
pub mod Counted
use astro_api_gateway.Common.{ℕ, ◌≡◌, Option, none, some, List, [], String}
use astro_api_gateway.Policies.{◌>>=◌, SputnikDaoPolicy, DaoPolicy, PolicyOfDao, cast_dao_policy}

pub record DaoConfig : Type 0 where
  pub name : String
  pub purpose : String
  pub metadata : String

pub data DaoStatus : Type 0 where
  active inactive disabled : DaoStatus

-- `value ?? other`
abbrev pub given_or {ℓ} : {A : Type ℓ} → Option A → A → A
given_or none other = other
given_or (some value) other = value

-- A policy from DynamoDB has no id of its DAO.
abbrev pub cast_dynamo_dao_policy : String → DaoPolicy → DaoPolicy
cast_dynamo_dao_policy dao_id policy = record policy {
  dao_id = some (given_or policy.dao_id dao_id);
}

-- The policy is none where it is a list of the council, as in the first version.
pub record DaoInfo : Type 0 where
  pub config : DaoConfig
  pub policy : Option SputnikDaoPolicy
  pub total_supply : String
  pub last_bounty_id : ℕ
  pub last_proposal_id : ℕ
  pub staking_contract : String
  pub amount : String

module _ {Json : Type 0} (btoa_json : String → Option Json) where
  pub record Dao : Type 0 where
    pub id : String
    pub config : DaoConfig
    pub shape : PolicyOfDao
    pub metadata : Option Json
    pub amount : String
    pub status : DaoStatus
    pub total_supply : String
    pub last_bounty_id : ℕ
    pub last_proposal_id : ℕ
    pub staking_contract : String
    pub number_of_associates : ℕ
    pub link : String
    pub description : String
    pub created_by : String
    pub transaction_hash : String
    pub update_transaction_hash : String
    pub create_timestamp : String
    pub update_timestamp : String

  unfoldable pub cast_create_dao :
      (signer_id transaction_hash dao_id : String)
      → DaoInfo
      → (delegation_accounts : List String) (timestamp : String) → Option Dao
  cast_create_dao signer_id transaction_hash dao_id info delegation_accounts timestamp = do
    shape ← cast_dao_policy dao_id info.policy delegation_accounts
    some record {
      id = dao_id;
      config = info.config;
      shape = shape;
      metadata = btoa_json info.config.metadata;
      amount = info.amount;
      status = active;
      total_supply = info.total_supply;
      last_bounty_id = info.last_bounty_id;
      last_proposal_id = info.last_proposal_id;
      staking_contract = info.staking_contract;
      number_of_associates = 0;
      link = "";
      description = "";
      created_by = signer_id;
      transaction_hash = transaction_hash;
      update_transaction_hash = transaction_hash;
      create_timestamp = timestamp;
      update_timestamp = timestamp;
    }

  -- The policy, council and members that a DAO has.
  abbrev kept_shape : Dao → PolicyOfDao
  kept_shape dao = record dao.shape { policy = cast_dynamo_dao_policy dao.id dao.shape.policy }

  unfoldable pub cast_add_proposal_dao : Dao → ℕ → String → String → Dao
  cast_add_proposal_dao dao last_proposal_id transaction_hash timestamp = record dao {
    shape = kept_shape dao;
    last_proposal_id = last_proposal_id;
    update_transaction_hash = transaction_hash;
    update_timestamp = timestamp;
  }

  -- What an act on a proposal may change. Missing delegations are the default, an empty list.
  pub record Changed : Type 0 where
    pub amount : Option String
    pub config : Option DaoConfig
    pub policy : Option (Option SputnikDaoPolicy)
    pub last_bounty_id : Option ℕ
    pub staking_contract : Option String
    pub delegation_accounts : Option (List String)

  abbrev shape_after : Dao → Option (Option SputnikDaoPolicy) → List String → Option PolicyOfDao
  shape_after dao none delegation_accounts = some (kept_shape dao)
  shape_after dao (some policy) delegation_accounts =
      cast_dao_policy dao.id policy delegation_accounts

  abbrev metadata_after : Dao → Option DaoConfig → Option Json
  metadata_after dao none = dao.metadata
  metadata_after dao (some config) = btoa_json config.metadata

  unfoldable pub cast_act_proposal_dao : Dao → String → Changed → String → Option Dao
  cast_act_proposal_dao dao transaction_hash changed timestamp = do
    shape ← shape_after dao changed.policy (given_or changed.delegation_accounts [])
    some record dao {
      config = given_or changed.config dao.config;
      shape = shape;
      metadata = metadata_after dao changed.config;
      amount = given_or changed.amount dao.amount;
      last_bounty_id = given_or changed.last_bounty_id dao.last_bounty_id;
      staking_contract = given_or changed.staking_contract dao.staking_contract;
      update_transaction_hash = transaction_hash;
      update_timestamp = timestamp;
    }
