-- ===== src/Tests/Drafts.antt =====
-- The draft and comment services at concrete calls.
use astro_api_gateway.Common.{
  ◌≡◌, refl, ◌≢◌, true, false, none, some, [], ◌∷◌, ◌++◌, List, String, ok, arith, holds,
  if◌then◌else◌, ◌==◌,
}
use astro_api_gateway.Permissions.{
  Role, get_account_permissions, check_permissions, label_text, policy_label,
}
use astro_api_gateway.Permissions.Grants.{Grants}
use astro_api_gateway.Draft.Entities.{DraftProposal, DraftDb, closed}
use astro_api_gateway.Draft.Proposals.{
  is_closed, edited, history_of, map_draft_proposal_to_opensearch_dto,
}
use astro_api_gateway.Draft.Proposals
use astro_api_gateway.Draft.Comments
use astro_api_gateway.Draft.Proposals.Rights.{
  MayEdit, delete_lem, close_lem, update_proposal-indexed,
}
use astro_api_gateway.Draft.Replies.{IsConsistent}
use astro_api_gateway.Draft.Steps.{Reach, here, next, Step}
use astro_api_gateway.Draft.Steps.Consistent.{Reach-IsConsistent}
use astro_api_gateway.Draft.Steps.Closed.{ClosedBy, Reach-ClosedBy}
use astro_api_gateway.Draft.Proposals.Readers.{AllHaveReaders, readers-AllHaveReaders}
use astro_api_gateway.Common.{Bool-cases, inl, inr}
use astro_api_gateway.Tests.Data.{
  draft, stores, env, new_dto, comment_dto, edit, shut_draft, empty_db, db, shut_db,
}

-- A draft is created, and a comment on it.
abbrev with_draft : DraftDb stores
with_draft = (Proposals.create stores env "d1" 1 "bob.near" new_dto empty_db).1

abbrev with_comment : DraftDb stores
with_comment = (Comments.create stores env "c1" 2 "carol.near" comment_dto with_draft).1

commented : Reach stores empty_db with_comment
unfolding Proposals.create
commented = next (next here (Step.create_draft env "d1" 1 "bob.near" new_dto (refl, refl))) (
    Step.create_comment env "c1" 2 "carol.near" comment_dto (refl, λ j r at. absurd (ground arith)))

empty_db-IsConsistent : IsConsistent stores empty_db
empty_db-IsConsistent = record {
  counted = λ k d at. absurd (ground arith);
  threaded = λ j k r c at. absurd (ground arith);
}

Reach-IsConsistent_example : IsConsistent stores with_comment
Reach-IsConsistent_example =
    Reach-IsConsistent stores empty_db with_comment commented empty_db-IsConsistent

-- A deletion of a closed draft is tried.
abbrev after_deletion : DraftDb stores
after_deletion = (Proposals.delete stores env "d1" "bob.near" shut_db).1

tried : Reach stores shut_db after_deletion
tried = next here (Step.delete_draft env "d1" "bob.near")

Reach-ClosedBy_example : ClosedBy stores "d1" "bob.near" after_deletion
Reach-ClosedBy_example =
    Reach-ClosedBy stores "d1" "bob.near" shut_db after_deletion tried
      (shut_draft, refl, refl, refl)

bob_named : ◌≢◌ {A = String} "bob.near" ""
bob_named = λ e. cc

bob_deletes : (Proposals.delete stores env "d1" "bob.near" db).0 ≡ ok true
unfolding Proposals.delete get_account_permissions
bob_deletes = refl

bob_closes : (Proposals.close stores env "d1" "bob.near" "dao.near-7" db).0 ≡ ok true
unfolding Proposals.close get_account_permissions check_permissions label_text policy_label
bob_closes = refl

bob_updates : (Proposals.update_proposal stores env "h1" 5 "d1" "bob.near" edit db).0 ≡ ok "d1"
unfolding Proposals.update_proposal get_account_permissions
bob_updates = refl

delete_lem_example :
    let after = (Proposals.delete stores env "d1" "bob.near" db).1 in
    (d : DraftProposal) × (rs : List Role) × (stores.drafts.find_one "d1" db.drafts ≡ some d)
    × (env.dao_roles d.dao_id ≡ some rs)
    × (is_closed d.state ≡ false)
    × MayEdit stores env "bob.near" rs d
    × ((k : String)
        → stores.drafts.find_one k after.drafts
          ≡ (if "d1" == k then none else stores.drafts.find_one k db.drafts))
    × ((k : String)
        → stores.history.find_one k after.history ≡ (
            if holds (λ h. h.draft_proposal_id == "d1") (stores.history.find_one k db.history)
            then none
            else stores.history.find_one k db.history))
delete_lem_example = delete_lem stores env "d1" "bob.near" db bob_named bob_deletes

close_lem_example :
    let after = (Proposals.close stores env "d1" "bob.near" "dao.near-7" db).1 in
    (d : DraftProposal) × (rs : List Role) × (stores.drafts.find_one "d1" db.drafts ≡ some d)
    × (env.dao_roles d.dao_id ≡ some rs)
    × Grants "bob.near" none (some d.type) "AddProposal" rs
    × (stores.drafts.find_one "d1" after.drafts
        ≡ some (
            if is_closed d.state
            then d
            else record d { state = closed; proposal_id = some "dao.near-7" }))
close_lem_example = close_lem stores env "d1" "bob.near" "dao.near-7" db bob_named bob_closes

update_proposal-indexed_example :
    let after = (Proposals.update_proposal stores env "h1" 5 "d1" "bob.near" edit db).1 in
    (d : DraftProposal) × (stores.drafts.find_one "d1" db.drafts ≡ some d)
    × (stores.drafts.find_one "d1" after.drafts ≡ some (edited 5 edit d))
    × (stores.history.find_one "h1" after.history ≡ some (history_of "d1" d))
    × (after.indexed ≡ db.indexed ++ map_draft_proposal_to_opensearch_dto "d1" d ∷ [])
update_proposal-indexed_example =
    update_proposal-indexed stores env "h1" 5 "d1" "bob.near" edit db refl bob_updates

db-AllHaveReaders : AllHaveReaders stores env db
db-AllHaveReaders k d at = elim (Bool-cases ("d1" == k)) [
  | inl here_too ↦ let e : draft ≡ d = ground arith in rw (← e) (tt, tt)
  | inr other ↦ absurd (ground arith)
]

readers-AllHaveReaders_example :
    AllHaveReaders stores env (Proposals.view stores env "d1" "carol.near" db).1
    × AllHaveReaders stores env (Proposals.save stores env "d1" "carol.near" db).1
    × AllHaveReaders stores env (Proposals.remove_save stores env "d1" "carol.near" db).1
readers-AllHaveReaders_example =
    readers-AllHaveReaders stores env "d1" "carol.near" db db-AllHaveReaders
