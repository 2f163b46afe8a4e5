-- ===== src/Tests/Daos.antt =====
-- The invariant of stored DAOs at a concrete run of the casts.
use astro_api_gateway.Common.{refl, Option, none, some, String}
use astro_api_gateway.Policies.{
  cast_dao_policy, cast_roles, cast_role_permission, cast_kind, cast_vote_policies,
  cast_vote_policy,
}
use astro_api_gateway.Policies.Daos.{
  DaoConfig, DaoInfo, Dao, Changed, active, cast_create_dao, cast_add_proposal_dao,
  cast_act_proposal_dao,
}
use astro_api_gateway.Policies.Daos.Counted.{
  Reach, created, proposed, acted, IsCounted, Reach-IsCounted,
}
use astro_api_gateway.Tests.Policies.{council_policy, council_dao, delegates}

abbrev plain_json : String → Option String
plain_json text = some text

abbrev first_config : DaoConfig
first_config = record { name = "dao"; purpose = "tests"; metadata = "m1" }

abbrev next_config : DaoConfig
next_config = record { name = "dao"; purpose = "more tests"; metadata = "m2" }

abbrev dao_info : DaoInfo
dao_info = record {
  config = first_config;
  policy = some council_policy;
  total_supply = "0";
  last_bounty_id = 0;
  last_proposal_id = 0;
  staking_contract = "";
  amount = "5";
}

abbrev new_dao : Dao plain_json
new_dao = record {
  id = "dao.near";
  config = first_config;
  shape = council_dao;
  metadata = some "m1";
  amount = "5";
  status = active;
  total_supply = "0";
  last_bounty_id = 0;
  last_proposal_id = 0;
  staking_contract = "";
  number_of_associates = 0;
  link = "";
  description = "";
  created_by = "alice.near";
  transaction_hash = "h1";
  update_transaction_hash = "h1";
  create_timestamp = "1";
  update_timestamp = "1";
}

abbrev new_config : Changed plain_json
new_config = record {
  amount = none;
  config = some next_config;
  policy = some (some council_policy);
  last_bounty_id = none;
  staking_contract = none;
  delegation_accounts = some delegates;
}

abbrev acted_dao : Dao plain_json
acted_dao = record new_dao {
  config = next_config;
  metadata = some "m2";
  last_proposal_id = 1;
  update_transaction_hash = "h3";
  update_timestamp = "3";
}

acted_dao-Reach : Reach plain_json acted_dao
unfolding cast_create_dao cast_add_proposal_dao cast_act_proposal_dao cast_dao_policy cast_roles
    cast_role_permission cast_kind cast_vote_policies cast_vote_policy
acted_dao-Reach =
    acted (cast_add_proposal_dao plain_json new_dao 1 "h2" "2") "h3" new_config "3" acted_dao
      (proposed new_dao 1 "h2" "2"
        (created "alice.near" "h1" "dao.near" dao_info delegates "1" new_dao refl))
      refl

Reach-IsCounted_example : IsCounted acted_dao.shape
Reach-IsCounted_example = Reach-IsCounted plain_json acted_dao acted_dao-Reach
