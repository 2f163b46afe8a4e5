-- ===== src/Draft/Replies/Operations.antt =====
-- Each operation of the comment service leaves the counts of replies and the threads right.
use astro_api_gateway.Common.{
  ℕ, ◌≡◌, refl, ◌≢◌, true, false, not, ◌&&◌, Option, none, some, inl, inr, ◌∷◌, String, ◌==◌, arith,
  holds, includes, eq_iff, Option-cases, Bool-cases,
}
use astro_api_gateway.Common.Repository.{update, erase_all}
use astro_api_gateway.Common.Repository.Every.{find_one-erase_all}
use astro_api_gateway.Common.Repository.Counting.{count-erase_all}
use astro_api_gateway.Permissions.{get_account_permissions}
use astro_api_gateway.Draft.Entities.{DraftComment, DraftStores, DraftDb, DraftEnv}
use astro_api_gateway.Draft.Proposals.{update_replies}
use astro_api_gateway.Draft.Comments.{
  CreateDraftComment, is_on, is_reply_to, new_draft_comment, new_reply,
  create_draft_proposal_comment, create_draft_comment_reply, create_by, create, update_message,
  like, remove_like, dislike, remove_dislike, delete,
}
use astro_api_gateway.Draft.Comments.VoteEffects.{VoteEffect}
use astro_api_gateway.Draft.Replies.{IsConsistent, recount-Counted}
use astro_api_gateway.Draft.Replies.OfComments.{
  IsFreshComment, new-IsConsistent, same-IsConsistent, update-IsConsistent,
}

module _ (s : DraftStores) (env : DraftEnv) where
  pub VoteEffect-IsConsistent :
      (id : String) (db after : DraftDb s)
      → VoteEffect s env id db after
      → after.drafts ≡ db.drafts
      → IsConsistent s db
      → IsConsistent s after
  VoteEffect-IsConsistent id db after (inl kept) same h = same-IsConsistent s db after same kept h
  VoteEffect-IsConsistent id db after (inr (c, change, found, keep, text, written)) same h =
      update-IsConsistent s db after id change (λ d. ((text d).1, (text d).5)) same written h

  pub votes_keep_drafts :
      (id account : String) (db : DraftDb s)
      → ((like s env id account db).1.drafts ≡ db.drafts)
        × ((remove_like s env id account db).1.drafts ≡ db.drafts)
        × ((dislike s env id account db).1.drafts ≡ db.drafts)
        × ((remove_dislike s env id account db).1.drafts ≡ db.drafts)
  unfolding like remove_like dislike remove_dislike
  votes_keep_drafts id account db = (ground arith, ground arith, ground arith, ground arith)

  pub update_message-IsConsistent :
      (now : ℕ) (id account message : String) (db : DraftDb s)
      → IsConsistent s db
      → IsConsistent s (update_message s env now id account message db).1
  unfolding update_message update
  update_message-IsConsistent now id account message db h =
      let after = (update_message s env now id account message db).1 in
      elim (Option-cases (s.comments.find_one id db.comments)) [
        | inl missing ↦ same-IsConsistent s db after (ground arith) (ground arith) h
        | inr (c, found) ↦ elim (Bool-cases (c.author == account)) [
          | inl own ↦
              update-IsConsistent s db after id
                (λ e. record e { message = message; updated_at = now }) (λ e. (refl, refl))
                (ground arith) (ground arith) h
          | inr refused ↦ same-IsConsistent s db after (ground arith) (ground arith) h
        ]
      ]

  pub comment-IsConsistent :
      (id : String) (now : ℕ) (account : String) (dto : CreateDraftComment) (db : DraftDb s)
      → IsFreshComment s id db
      → IsConsistent s db
      → IsConsistent s (create_draft_proposal_comment s env id now account dto db).1
  unfolding create_draft_proposal_comment update_replies
  comment-IsConsistent id now account dto db fresh h =
      let after = (create_draft_proposal_comment s env id now account dto db).1 in
      elim (Option-cases (s.drafts.find_one dto.context_id db.drafts)) [
        | inl missing ↦ same-IsConsistent s db after (ground arith) (ground arith) h
        | inr (d, found) ↦
            new-IsConsistent s db after id (new_draft_comment now account d.dao_id dto) fresh
              (λ k c e. cc) (ground arith) (ground arith) h
      ]

  pub reply-IsConsistent :
      (id : String) (now : ℕ) (account parent_id : String) (dto : CreateDraftComment)
      (db : DraftDb s)
      → IsFreshComment s id db
      → IsConsistent s db
      → IsConsistent s (create_draft_comment_reply s env id now account parent_id dto db).1
  unfolding create_draft_comment_reply update_replies
  reply-IsConsistent id now account parent_id dto db fresh h =
      let after = (create_draft_comment_reply s env id now account parent_id dto db).1 in
      elim (Option-cases (s.comments.find_one parent_id db.comments)) [
        | inl missing ↦ same-IsConsistent s db after (ground arith) (ground arith) h
        | inr (parent, found) ↦
            new-IsConsistent s db after id (new_reply now account parent_id parent dto) fresh
              (λ k c answers at. ground arith) (ground arith) (ground arith) h
      ]

  create_by-IsConsistent :
      (parent : Option String) (id : String) (now : ℕ) (account : String) (dto : CreateDraftComment)
      (db : DraftDb s)
      → IsFreshComment s id db
      → IsConsistent s db
      → IsConsistent s (create_by s env parent id now account dto db).1
  create_by-IsConsistent none id now account dto db fresh h =
      unfold create_by in comment-IsConsistent id now account dto db fresh h
  create_by-IsConsistent (some parent) id now account dto db fresh h =
      elim (Bool-cases (parent == "")) [
        | inl empty ↦
            unfold create_by in rw empty (comment-IsConsistent id now account dto db fresh h)
        | inr named ↦
            unfold create_by in rw named (reply-IsConsistent id now account parent dto db fresh h)
      ]

  pub create-IsConsistent :
      (id : String) (now : ℕ) (account : String) (dto : CreateDraftComment) (db : DraftDb s)
      → IsFreshComment s id db
      → IsConsistent s db
      → IsConsistent s (create s env id now account dto db).1
  create-IsConsistent id now account dto db fresh h =
      unfold create in create_by-IsConsistent dto.reply_to id now account dto db fresh h

  -- The comments that `delete` removes are all on the draft of the comment itself.
  removed_elsewhere :
      (id : String) (c : DraftComment) (db : DraftDb s) (k : String)
      → IsConsistent s db
      → s.comments.find_one id db.comments ≡ some c
      → k ≢ c.context_id
      → (j : String) → includes (id ∷ s.comments.ids (is_reply_to id) db.comments) j ≡ true
      → holds (is_on k) (s.comments.find_one j db.comments) ≡ false
  removed_elsewhere id c db k h found apart j i =
      elim (Option-cases (s.comments.find_one j db.comments)) [
        | inl missing ↦ rw missing
        | inr (r, at) ↦ elim (Bool-cases (id == j)) [
          | inl self ↦ ground (arith, eq_iff id j, eq_iff c.context_id k)
          | inr other ↦
              let answers : r.reply_to ≡ some id =
                answered r
                  (ground (arith, s.comments.includes-ids (is_reply_to id) j db.comments)) in
              let same = h.threaded j id r c at answers found in
              ground (arith, same, eq_iff r.context_id k)
        ]
      ]
    where
      answered : (r : DraftComment) → is_reply_to id r ≡ true → r.reply_to ≡ some id
      answered r t = elim (Option-cases r.reply_to) [
        | inl top ↦ absurd (ground arith)
        | inr (parent, p) ↦ ground (arith, eq_iff parent id)
      ]

  erased-IsConsistent :
      (id : String) (c : DraftComment) (db after : DraftDb s)
      → IsConsistent s db
      → s.comments.find_one id db.comments ≡ some c
      → let rest =
          erase_all s.comments (id ∷ s.comments.ids (is_reply_to id) db.comments) db.comments in
        after.comments ≡ rest
        → after.drafts
          ≡ update s.drafts c.context_id
              (λ d. record d { replies = s.comments.count (is_on c.context_id) rest })
              db.drafts
        → IsConsistent s after
  erased-IsConsistent id c db after h found written recounted =
      let gone = id ∷ s.comments.ids (is_reply_to id) db.comments in
      let rest = erase_all s.comments gone db.comments in
      record {
        counted =
            rw (written, recounted)
              (recount-Counted s db.drafts db.comments rest c.context_id
                (λ k apart.
                  count-erase_all s.comments (is_on k) gone db.comments
                    (removed_elsewhere id c db k h found apart))
                h.counted);
        threaded = rw written (λ j k r d at_j answers at_k.
            h.threaded j k r d (ground (arith, find_one-erase_all s.comments j gone db.comments))
              answers (ground (arith, find_one-erase_all s.comments k gone db.comments)));
      }

  pub delete-IsConsistent :
      (id account : String) (db : DraftDb s)
      → IsConsistent s db
      → IsConsistent s (delete s env id account db).1
  unfolding delete update_replies
  delete-IsConsistent id account db h =
      let after = (delete s env id account db).1 in
      elim (Option-cases (s.comments.find_one id db.comments)) [
        | inl missing ↦ same-IsConsistent s db after (ground arith) (ground arith) h
        | inr (c, found) ↦ elim (Option-cases (env.dao_roles c.dao_id)) [
          | inl offline ↦ same-IsConsistent s db after (ground arith) (ground arith) h
          | inr (roles, answer) ↦
              elim (Option-cases (get_account_permissions roles none (some account) none)) [
                | inl thrown ↦ same-IsConsistent s db after (ground arith) (ground arith) h
                | inr (rights, computed) ↦
                    elim (Bool-cases (not (c.author == account) && not rights.is_council)) [
                      | inl refused ↦ same-IsConsistent s db after (ground arith) (ground arith) h
                      | inr allowed ↦
                          erased-IsConsistent id c db after h found (ground arith) (ground arith)
                    ]
              ]
        ]
      ]
