-- ===== src/Draft/Steps/Recounts.antt =====
-- What the comment service writes to the drafts: at most the number of replies of one draft.
use astro_api_gateway.Common.{
  ℕ, ◌≡◌, ◌⊎◌, inl, inr, not, ◌&&◌, Option, none, some, String, ◌==◌, arith, Option-cases,
  Bool-cases, ◌∷◌,
}
use astro_api_gateway.Common.Repository.{update, erase_all}
use astro_api_gateway.Permissions.{get_account_permissions}
use astro_api_gateway.Draft.Entities.{DraftStores, DraftDb, DraftEnv}
use astro_api_gateway.Draft.Proposals.{update_replies}
use astro_api_gateway.Draft.Comments.{
  CreateDraftComment, is_on, is_reply_to, new_draft_comment, new_reply,
  create_draft_proposal_comment, create_draft_comment_reply, create_by, create, update_message,
  delete,
}

module _ (s : DraftStores) where
  abbrev pub Recounts : DraftDb s → DraftDb s → Type 0
  Recounts db after =
      (id : String) × (n : ℕ) × ((after.drafts ≡ db.drafts)
        ⊎ (after.drafts ≡ update s.drafts id (λ d. record d { replies = n }) db.drafts))

module _ (s : DraftStores) (env : DraftEnv) where
  comment-Recounts :
      (id : String) (now : ℕ) (account : String) (dto : CreateDraftComment) (db : DraftDb s)
      → Recounts s db (create_draft_proposal_comment s env id now account dto db).1
  unfolding create_draft_proposal_comment update_replies
  comment-Recounts id now account dto db =
      elim (Option-cases (s.drafts.find_one dto.context_id db.drafts)) [
        | inl missing ↦ ("", 0, inl (ground arith))
        | inr (d, found) ↦ (
          dto.context_id,
          s.comments.count (is_on dto.context_id)
              (s.comments.put id (new_draft_comment now account d.dao_id dto) db.comments),
          inr (ground arith),
        )
      ]

  reply-Recounts :
      (id : String) (now : ℕ) (account parent_id : String) (dto : CreateDraftComment)
      (db : DraftDb s)
      → Recounts s db (create_draft_comment_reply s env id now account parent_id dto db).1
  unfolding create_draft_comment_reply update_replies
  reply-Recounts id now account parent_id dto db =
      elim (Option-cases (s.comments.find_one parent_id db.comments)) [
        | inl missing ↦ ("", 0, inl (ground arith))
        | inr (parent, found) ↦ (
          parent.context_id,
          s.comments.count (is_on parent.context_id)
              (s.comments.put id (new_reply now account parent_id parent dto) db.comments),
          inr (ground arith),
        )
      ]

  create_by-Recounts :
      (parent : Option String) (id : String) (now : ℕ) (account : String) (dto : CreateDraftComment)
      (db : DraftDb s)
      → Recounts s db (create_by s env parent id now account dto db).1
  create_by-Recounts none id now account dto db =
      unfold create_by in comment-Recounts id now account dto db
  create_by-Recounts (some parent) id now account dto db = elim (Bool-cases (parent == "")) [
    | inl empty ↦ unfold create_by in rw empty (comment-Recounts id now account dto db)
    | inr named ↦ unfold create_by in rw named (reply-Recounts id now account parent dto db)
  ]

  pub create-Recounts :
      (id : String) (now : ℕ) (account : String) (dto : CreateDraftComment) (db : DraftDb s)
      → Recounts s db (create s env id now account dto db).1
  create-Recounts id now account dto db =
      unfold create in create_by-Recounts dto.reply_to id now account dto db

  pub update_message_keeps_drafts :
      (now : ℕ) (id account message : String) (db : DraftDb s)
      → (update_message s env now id account message db).1.drafts ≡ db.drafts
  unfolding update_message
  update_message_keeps_drafts now id account message db = ground arith

  pub delete-Recounts :
      (id account : String) (db : DraftDb s) → Recounts s db (delete s env id account db).1
  unfolding delete update_replies
  delete-Recounts id account db = elim (Option-cases (s.comments.find_one id db.comments)) [
    | inl missing ↦ ("", 0, inl (ground arith))
    | inr (c, found) ↦ elim (Option-cases (env.dao_roles c.dao_id)) [
      | inl offline ↦ ("", 0, inl (ground arith))
      | inr (roles, answer) ↦
          elim (Option-cases (get_account_permissions roles none (some account) none)) [
            | inl thrown ↦ ("", 0, inl (ground arith))
            | inr (rights, computed) ↦
                elim (Bool-cases (not (c.author == account) && not rights.is_council)) [
                  | inl refused ↦ ("", 0, inl (ground arith))
                  | inr allowed ↦ (
                    c.context_id,
                    s.comments.count (is_on c.context_id) (
                        erase_all s.comments (id ∷ s.comments.ids (is_reply_to id) db.comments)
                          db.comments),
                    inr (ground arith),
                  )
                ]
          ]
    ]
  ]
