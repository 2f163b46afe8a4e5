-- ===== src/Draft/Comments/VoteEffects.antt =====
-- What the four voting operations of the comment service write: nothing, or one comment, of which
-- only the votes change.
use astro_api_gateway.Common.{
  ◌≡◌, refl, ◌⊎◌, true, false, Option, none, some, inl, inr, List, [], ◌∷◌, ◌++◌, String, arith,
  includes, without, includes-concat, includes-without, IsUnique, IsUnique-concat, IsUnique-without,
  eq_iff, Option-cases, Bool-cases,
}
use astro_api_gateway.Common.Repository.{update}
use astro_api_gateway.Draft.Entities.{DraftComment, DraftStores, DraftDb, DraftEnv}
use astro_api_gateway.Draft.Comments.{dislikes, like, remove_like, dislike, remove_dislike}

abbrev pub listed : Option (List String) → List String
listed none = []
listed (some accounts) = accounts

-- Nobody is counted twice, and nobody both likes and dislikes the comment.
pub record IsFair (comment : DraftComment) : Type 0 where
  pub likes_once : IsUnique comment.like_accounts
  pub dislikes_once : IsUnique (listed comment.dislike_accounts)
  pub one_side :
      (account : String)
      → includes comment.like_accounts account ≡ true
      → dislikes comment.dislike_accounts account ≡ false

liked-IsFair :
    (c : DraftComment) (account : String)
    → IsFair c
    → includes c.like_accounts account ≡ false
    → dislikes c.dislike_accounts account ≡ false
    → IsFair (record c { like_accounts = c.like_accounts ++ account ∷ [] })
liked-IsFair c account f new free = record {
  likes_once = IsUnique-concat c.like_accounts account f.likes_once new;
  dislikes_once = f.dislikes_once;
  one_side = λ b i.
      ground (arith, includes-concat c.like_accounts account b, eq_iff account b, f.one_side b);
}

unliked-IsFair :
    (c : DraftComment) (account : String)
    → IsFair c
    → IsFair (record c { like_accounts = without account c.like_accounts })
unliked-IsFair c account f = record {
  likes_once = IsUnique-without c.like_accounts account f.likes_once;
  dislikes_once = f.dislikes_once;
  one_side = λ b i. ground (arith, includes-without c.like_accounts account b, f.one_side b);
}

disliked-IsFair :
    (c : DraftComment) (account : String) (accounts : List String)
    → IsFair c
    → c.dislike_accounts ≡ some accounts
    → includes accounts account ≡ false
    → includes c.like_accounts account ≡ false
    → IsFair (record c { dislike_accounts = some (accounts ++ account ∷ []) })
disliked-IsFair c account accounts f l new free = record {
  likes_once = f.likes_once;
  dislikes_once = IsUnique-concat accounts account (rw l at f.dislikes_once) new;
  one_side =
      λ b i. ground (arith, includes-concat accounts account b, eq_iff account b, f.one_side b);
}

undisliked-IsFair :
    (c : DraftComment) (account : String) (accounts : List String)
    → IsFair c
    → c.dislike_accounts ≡ some accounts
    → IsFair (record c { dislike_accounts = some (without account accounts) })
undisliked-IsFair c account accounts f l = record {
  likes_once = f.likes_once;
  dislikes_once = IsUnique-without accounts account (rw l at f.dislikes_once);
  one_side = λ b i. ground (arith, includes-without accounts account b, f.one_side b);
}

-- Two versions of a comment differ in their votes and times at most.
abbrev pub SameText : DraftComment → DraftComment → Type 0
SameText c d =
    (d.dao_id ≡ c.dao_id)
    × (d.context_id ≡ c.context_id)
    × (d.context_type ≡ c.context_type)
    × (d.author ≡ c.author)
    × (d.message ≡ c.message)
    × (d.reply_to ≡ c.reply_to)

module _ (s : DraftStores) (env : DraftEnv) where
  -- The comments are as before, or one of them has new votes that keep it fair.
  abbrev pub VoteEffect : String → DraftDb s → DraftDb s → Type 0
  VoteEffect id db after =
      (after.comments ≡ db.comments)
      ⊎ ((c : DraftComment) × (change : DraftComment → DraftComment) × (s.comments.find_one id
              db.comments
            ≡ some c)
          × (IsFair c → IsFair (change c))
          × ((d : DraftComment) → SameText d (change d))
          × (after.comments ≡ update s.comments id change db.comments))

  pub like-VoteEffect :
      (id account : String) (db : DraftDb s) → VoteEffect id db (like s env id account db).1
  unfolding like
  like-VoteEffect id account db = elim (Option-cases (s.comments.find_one id db.comments)) [
    | inl missing ↦ inl (ground arith)
    | inr (c, found) ↦ elim (Bool-cases (dislikes c.dislike_accounts account)) [
      | inl refused ↦ inl (ground arith)
      | inr free ↦ elim (Bool-cases (includes c.like_accounts account)) [
        | inl old ↦ inl (ground arith)
        | inr new ↦ inr (
          c,
          λ d. record d { like_accounts = c.like_accounts ++ account ∷ [] },
          found,
          λ f. liked-IsFair c account f new free,
          λ d. (refl, refl, refl, refl, refl, refl),
          ground arith,
        )
      ]
    ]
  ]

  pub remove_like-VoteEffect :
      (id account : String) (db : DraftDb s) → VoteEffect id db (remove_like s env id account db).1
  unfolding remove_like
  remove_like-VoteEffect id account db = elim (Option-cases (s.comments.find_one id db.comments)) [
    | inl missing ↦ inl (ground arith)
    | inr (c, found) ↦ elim (Bool-cases (includes c.like_accounts account)) [
      | inl old ↦ inr (
        c,
        λ d. record d { like_accounts = without account c.like_accounts },
        found,
        unliked-IsFair c account,
        λ d. (refl, refl, refl, refl, refl, refl),
        ground arith,
      )
      | inr new ↦ inl (ground arith)
    ]
  ]

  pub dislike-VoteEffect :
      (id account : String) (db : DraftDb s) → VoteEffect id db (dislike s env id account db).1
  unfolding dislike
  dislike-VoteEffect id account db = elim (Option-cases (s.comments.find_one id db.comments)) [
    | inl missing ↦ inl (ground arith)
    | inr (c, found) ↦ elim (Bool-cases (includes c.like_accounts account)) [
      | inl refused ↦ inl (ground arith)
      | inr free ↦ elim (Option-cases c.dislike_accounts) [
        | inl no_list ↦ inl (ground arith)
        | inr (accounts, l) ↦ elim (Bool-cases (includes accounts account)) [
          | inl old ↦ inl (ground arith)
          | inr new ↦ inr (
            c,
            λ d. record d { dislike_accounts = some (accounts ++ account ∷ []) },
            found,
            λ f. disliked-IsFair c account accounts f l new free,
            λ d. (refl, refl, refl, refl, refl, refl),
            ground arith,
          )
        ]
      ]
    ]
  ]

  pub remove_dislike-VoteEffect :
      (id account : String) (db : DraftDb s)
      → VoteEffect id db (remove_dislike s env id account db).1
  unfolding remove_dislike
  remove_dislike-VoteEffect id account db =
      elim (Option-cases (s.comments.find_one id db.comments)) [
        | inl missing ↦ inl (ground arith)
        | inr (c, found) ↦ elim (Option-cases c.dislike_accounts) [
          | inl no_list ↦ inl (ground arith)
          | inr (accounts, l) ↦ elim (Bool-cases (includes accounts account)) [
            | inl old ↦ inr (
              c,
              λ d. record d { dislike_accounts = some (without account accounts) },
              found,
              λ f. undisliked-IsFair c account accounts f l,
              λ d. (refl, refl, refl, refl, refl, refl),
              ground arith,
            )
            | inr new ↦ inl (ground arith)
          ]
        ]
      ]
