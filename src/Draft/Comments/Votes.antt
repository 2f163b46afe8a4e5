-- ===== src/Draft/Comments/Votes.antt =====
-- The likes and dislikes of comments.
use astro_api_gateway.Common.{
  ◌≡◌, true, inl, inr, [], ◌∷◌, ◌++◌, String, arith, ok, includes-concat, eq_refl, Option-cases,
  Bool-cases,
}
use astro_api_gateway.Common.Repository.Every.{Every, find_one-update, update-Every}
use astro_api_gateway.Draft.Entities.{DraftStores, DraftDb, DraftEnv}
use astro_api_gateway.Draft.Comments.VoteEffects.{
  IsFair, VoteEffect, like-VoteEffect, remove_like-VoteEffect, dislike-VoteEffect,
  remove_dislike-VoteEffect,
}
use astro_api_gateway.Draft.Comments.{dislikes, like, remove_like, dislike, remove_dislike}

module _ (s : DraftStores) (env : DraftEnv) where
  -- Every stored comment is fair.
  abbrev pub AllFair : DraftDb s → Type 0
  AllFair db = Every s.comments (λ id c. IsFair c) db.comments

  VoteEffect-AllFair :
      (id : String) (db after : DraftDb s)
      → VoteEffect s env id db after
      → AllFair db
      → AllFair after
  VoteEffect-AllFair id db after (inl same) h = rw same h
  VoteEffect-AllFair id db after (inr (c, change, found, keep, text, written)) h = rw written (
      update-Every s.comments (λ id c. IsFair c) id change db.comments
        (λ e at fair. let same : c ≡ e = ground arith in rw same at (keep (rw (← same) at fair))) h)

  -- Liking, disliking, and taking either back keep every comment fair: in no comment is an account
  -- listed twice among the likes or the dislikes, and none stands among both.
  pub votes-AllFair :
      (id account : String) (db : DraftDb s)
      → AllFair db
      → AllFair (like s env id account db).1
        × AllFair (remove_like s env id account db).1
        × AllFair (dislike s env id account db).1
        × AllFair (remove_dislike s env id account db).1
  votes-AllFair id account db h = (
    VoteEffect-AllFair id db (like s env id account db).1 (like-VoteEffect s env id account db) h,
    VoteEffect-AllFair id db (remove_like s env id account db).1
        (remove_like-VoteEffect s env id account db) h,
    VoteEffect-AllFair id db (dislike s env id account db).1
        (dislike-VoteEffect s env id account db) h,
    VoteEffect-AllFair id db (remove_dislike s env id account db).1
        (remove_dislike-VoteEffect s env id account db) h,
  )

  -- After a like that was accepted, a second one by the same account answers the same and changes
  -- nothing.
  pub like-like :
      (id account : String) (db : DraftDb s)
      → (like s env id account db).0 ≡ ok true
      → like s env id account (like s env id account db).1 ≡ (ok true, (like s env id account db).1)
  unfolding like
  like-like id account db h = elim (Option-cases (s.comments.find_one id db.comments)) [
    | inl missing ↦ absurd (ground arith)
    | inr (c, found) ↦ elim (Bool-cases (dislikes c.dislike_accounts account)) [
      | inl refused ↦ absurd (ground arith)
      | inr free ↦ ground (
        arith,
        find_one-update s.comments id id
            (λ d. record d { like_accounts = c.like_accounts ++ account ∷ [] }) db.comments,
        includes-concat c.like_accounts account account,
        eq_refl id,
        eq_refl account,
      )
    ]
  ]
