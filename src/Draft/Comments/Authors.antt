-- ===== src/Draft/Comments/Authors.antt =====
-- Who may change and delete a comment, and what the calls then leave of the comments.
use astro_api_gateway.Common.{
  ℕ, ◌≡◌, refl, ◌≢◌, ◌↔◌, ◌⊎◌, inl, inr, Bool, true, false, not, ◌&&◌, ◌||◌, none, some, List, ◌∷◌,
  String, ◌==◌, arith, ok, if◌then◌else◌, holds, eq_iff, Option-cases,
}
use astro_api_gateway.Common.Repository.Every.{find_one-erase_all}
use astro_api_gateway.Permissions.{Role, get_account_permissions}
use astro_api_gateway.Permissions.Council.{OnCouncil, get_account_permissions-OnCouncil}
use astro_api_gateway.Draft.Entities.{DraftComment, DraftStores, DraftDb, DraftEnv}
use astro_api_gateway.Draft.Proposals.{update_replies}
use astro_api_gateway.Draft.Comments.{is_reply_to, update_message, delete}

module _ (s : DraftStores) (env : DraftEnv) where
  -- An edit that succeeds was made by the author. It changes the message of the comment and the time
  -- of its last change, and every other comment stays as it was.
  pub update_message_lem :
      (now : ℕ) (id account message : String) (db : DraftDb s)
      → (update_message s env now id account message db).0 ≡ ok id
      → let after = (update_message s env now id account message db).1 in
        (c : DraftComment) × (s.comments.find_one id db.comments ≡ some c)
        × (c.author ≡ account)
        × ((k : String)
            → s.comments.find_one k after.comments ≡ (
                if id == k
                then some (record c { message = message; updated_at = now })
                else s.comments.find_one k db.comments))
  unfolding update_message
  update_message_lem now id account message db success =
      elim (Option-cases (s.comments.find_one id db.comments)) [
        | inl missing ↦ absurd (ground arith)
        | inr (c, found) ↦ (
          c,
          found,
          ground (arith, eq_iff c.author account),
          λ k. ground (
            arith,
            s.comments.find_one-put k id (record c { message = message; updated_at = now })
                db.comments,
          ),
        )
      ]

  -- The account wrote the comment, or is on the council of the comment's DAO.
  abbrev pub MayDelete : String → List Role → DraftComment → Type 0
  MayDelete account roles c = (c.author ≡ account) ⊎ OnCouncil account roles

  may_delete :
      (account : String) (roles : List Role) (c : DraftComment) (council : Bool)
      → (council ≡ true) ↔ OnCouncil account roles
      → (not (c.author == account) && not council) ≡ false
      → MayDelete account roles c
  may_delete account roles c true exact h = inr (exact.0 refl)
  may_delete account roles c false exact h = inl (ground (arith, eq_iff c.author account))

  -- A deletion of a comment that succeeds, by an account that is not the empty text, was by its author
  -- or a member of the council of its DAO. It leaves neither the comment nor its replies, and every
  -- other comment as it was.
  pub delete-MayDelete :
      (id account : String) (db : DraftDb s)
      → account ≢ ""
      → (delete s env id account db).0 ≡ ok true
      → let after = (delete s env id account db).1 in
        (c : DraftComment) × (roles : List Role) × (s.comments.find_one id db.comments ≡ some c)
        × (env.dao_roles c.dao_id ≡ some roles)
        × MayDelete account roles c
        × ((k : String)
            → s.comments.find_one k after.comments ≡ (
                if id == k || holds (is_reply_to id) (s.comments.find_one k db.comments)
                then none
                else s.comments.find_one k db.comments))
  unfolding delete update_replies
  delete-MayDelete id account db named success =
      elim (Option-cases (s.comments.find_one id db.comments)) [
        | inl missing ↦ absurd (ground arith)
        | inr (c, found) ↦ elim (Option-cases (env.dao_roles c.dao_id)) [
          | inl offline ↦ absurd (ground arith)
          | inr (roles, answer) ↦
              elim (Option-cases (get_account_permissions roles none (some account) none)) [
                | inl thrown ↦ absurd (ground arith)
                | inr (rights, computed) ↦
                    let exact =
                      get_account_permissions-OnCouncil roles none account none rights named
                        computed in
                    let allowed : (not (c.author == account) && not rights.is_council) ≡ false =
                      ground arith in
                    (
                      c,
                      roles,
                      found,
                      answer,
                      may_delete account roles c rights.is_council exact allowed,
                      λ k. ground (
                        arith,
                        find_one-erase_all s.comments k
                            (id ∷ s.comments.ids (is_reply_to id) db.comments) db.comments,
                        s.comments.includes-ids (is_reply_to id) k db.comments,
                      ),
                    )
              ]
        ]
      ]
