-- ===== src/Tests/Comments.antt =====
-- Votes on a comment, its edit and its deletion.
use astro_api_gateway.Common.{
  ◌≡◌, refl, inl, inr, ◌≢◌, ◌||◌, true, none, some, List, String, ok, err, failure, arith, holds,
  if◌then◌else◌, ◌==◌, Bool-cases,
}
use astro_api_gateway.Permissions.{Role, get_account_permissions}
use astro_api_gateway.Draft.Entities.{DraftComment}
use astro_api_gateway.Draft.Comments.{
  is_reply_to, like, remove_like, dislike, remove_dislike, update_message, delete,
}
use astro_api_gateway.Draft.Comments.VoteEffects.{IsFair}
use astro_api_gateway.Draft.Comments.Votes.{AllFair, votes-AllFair}
use astro_api_gateway.Draft.Comments.Authors.{MayDelete, delete-MayDelete}
use astro_api_gateway.Draft.Proposals.{update_replies}
use astro_api_gateway.Tests.Data.{stores, env, old_comment, db}

old_comment-IsFair : IsFair old_comment
old_comment-IsFair = record {
  likes_once = (refl, tt);
  dislikes_once = tt;
  one_side = λ account i. refl;
}

db-AllFair : AllFair stores env db
db-AllFair k c at = elim (Bool-cases ("c1" == k)) [
  | inl here ↦ let e : old_comment ≡ c = ground arith in rw (← e) old_comment-IsFair
  | inr other ↦ absurd (ground arith)
]

votes-AllFair_example :
    AllFair stores env (like stores env "c1" "bob.near" db).1
    × AllFair stores env (remove_like stores env "c1" "bob.near" db).1
    × AllFair stores env (dislike stores env "c1" "bob.near" db).1
    × AllFair stores env (remove_dislike stores env "c1" "bob.near" db).1
votes-AllFair_example = votes-AllFair stores env "c1" "bob.near" db db-AllFair

dislike_fails : dislike stores env "c1" "bob.near" db ≡ (err failure, db)
unfolding dislike
dislike_fails = refl

bob_likes : (like stores env "c1" "bob.near" db).0 ≡ ok true
unfolding like
bob_likes = refl

carol_edits : (update_message stores env 5 "c1" "carol.near" "How?" db).0 ≡ ok "c1"
unfolding update_message
carol_edits = refl

carol_named : ◌≢◌ {A = String} "carol.near" ""
carol_named = λ e. cc

carol_deletes : (delete stores env "c1" "carol.near" db).0 ≡ ok true
unfolding delete get_account_permissions update_replies
carol_deletes = refl

delete-MayDelete_example :
    let after = (delete stores env "c1" "carol.near" db).1 in
    (c : DraftComment) × (rs : List Role) × (stores.comments.find_one "c1" db.comments ≡ some c)
    × (env.dao_roles c.dao_id ≡ some rs)
    × MayDelete stores env "carol.near" rs c
    × ((k : String)
        → stores.comments.find_one k after.comments ≡ (
            if "c1" == k || holds (is_reply_to "c1") (stores.comments.find_one k db.comments)
            then none
            else stores.comments.find_one k db.comments))
delete-MayDelete_example =
    delete-MayDelete stores env "c1" "carol.near" db carol_named carol_deletes
