-- ===== src/Draft/Proposals/Effects.antt =====
-- What each operation of the draft service writes: nothing, a change of the one draft, or its removal.
use astro_api_gateway.Common.{
  ℕ, ◌≡◌, refl, true, false, not, ◌&&◌, none, some, inl, inr, ◌⊎◌, [], ◌∷◌, ◌++◌, String, ◌==◌,
  arith, includes, without, Option-cases, Bool-cases,
}
use astro_api_gateway.Common.Repository.{update}
use astro_api_gateway.Permissions.{get_account_permissions}
use astro_api_gateway.Draft.Entities.{closed, DraftProposal, DraftStores, DraftDb, DraftEnv}
use astro_api_gateway.Draft.Proposals.{
  UpdateDraftProposal, is_closed, edited, update_proposal, delete, view, save, remove_save, close,
  close_internal,
}

-- What a later version of a draft shares with an earlier one; a closed draft is not opened again.
abbrev pub Continues : DraftProposal → DraftProposal → Type 0
Continues d e =
    (e.proposer ≡ d.proposer)
    × (e.dao_id ≡ d.dao_id)
    × (is_closed d.state ≡ true → is_closed e.state ≡ true)

module _ (s : DraftStores) (env : DraftEnv) where
  -- A draft changes to a related one, or is removed while it is open.
  abbrev pub DraftChange :
      (DraftProposal → DraftProposal → Type 0) → String → s.drafts.Table → s.drafts.Table → Type 0
  DraftChange Related id old new =
      (new ≡ old)
      ⊎ ((change : DraftProposal → DraftProposal) × ((d : DraftProposal) → Related d (change d))
          × (new ≡ update s.drafts id change old))
      ⊎ ((d : DraftProposal) × (s.drafts.find_one id old ≡ some d)
          × (is_closed d.state ≡ false)
          × (new ≡ s.drafts.erase id old))

  -- The comments stay.
  abbrev pub DraftEffect : String → DraftDb s → DraftDb s → Type 0
  DraftEffect id db after =
      (after.comments ≡ db.comments)
      × DraftChange (λ d e. Continues d e × (e.replies ≡ d.replies)) id db.drafts after.drafts

  pub view-DraftEffect :
      (id account : String) (db : DraftDb s) → DraftEffect id db (view s env id account db).1
  unfolding view
  view-DraftEffect id account db = elim (Option-cases (s.drafts.find_one id db.drafts)) [
    | inl missing ↦ (ground arith, inl (ground arith))
    | inr (d, found) ↦ elim (Bool-cases (includes d.view_accounts account)) [
      | inl old ↦ (ground arith, inl (ground arith))
      | inr new ↦ (
        ground arith,
        inr (
            inl (
              λ e. record e { view_accounts = d.view_accounts ++ account ∷ [] },
              λ e. ((refl, refl, λ c. c), refl),
              ground arith,
            )),
      )
    ]
  ]

  pub save-DraftEffect :
      (id account : String) (db : DraftDb s) → DraftEffect id db (save s env id account db).1
  unfolding save
  save-DraftEffect id account db = elim (Option-cases (s.drafts.find_one id db.drafts)) [
    | inl missing ↦ (ground arith, inl (ground arith))
    | inr (d, found) ↦ elim (Bool-cases (includes d.save_accounts account)) [
      | inl old ↦ (ground arith, inl (ground arith))
      | inr new ↦ (
        ground arith,
        inr (
            inl (
              λ e. record e { save_accounts = d.save_accounts ++ account ∷ [] },
              λ e. ((refl, refl, λ c. c), refl),
              ground arith,
            )),
      )
    ]
  ]

  pub remove_save-DraftEffect :
      (id account : String) (db : DraftDb s) → DraftEffect id db (remove_save s env id account db).1
  unfolding remove_save
  remove_save-DraftEffect id account db = elim (Option-cases (s.drafts.find_one id db.drafts)) [
    | inl missing ↦ (ground arith, inl (ground arith))
    | inr (d, found) ↦ elim (Bool-cases (includes d.save_accounts account)) [
      | inl old ↦ (
        ground arith,
        inr (
            inl (
              λ e. record e { save_accounts = without account d.save_accounts },
              λ e. ((refl, refl, λ c. c), refl),
              ground arith,
            )),
      )
      | inr new ↦ (ground arith, inl (ground arith))
    ]
  ]

  pub close-DraftEffect :
      (id account proposal_id : String) (db : DraftDb s)
      → DraftEffect id db (close s env id account proposal_id db).1
  unfolding close
  close-DraftEffect id account proposal_id db =
      elim (Option-cases (s.drafts.find_one id db.drafts)) [
        | inl missing ↦ (ground arith, inl (ground arith))
        | inr (d, found) ↦ elim (Option-cases (env.dao_roles d.dao_id)) [
          | inl offline ↦ (ground arith, inl (ground arith))
          | inr (roles, answer) ↦
              elim (Option-cases
                (get_account_permissions roles (some d.type) (some account) none)) [
                  | inl thrown ↦ (ground arith, inl (ground arith))
                  | inr (rights, computed) ↦ elim (Bool-cases rights.can_add) [
                    | inl allowed ↦ elim (Bool-cases (is_closed d.state)) [
                      | inl already ↦ (ground arith, inl (ground arith))
                      | inr still_open ↦ (
                        ground arith,
                        inr (
                            inl (
                              λ e. record e { state = closed; proposal_id = some proposal_id },
                              λ e. ((refl, refl, λ c. refl), refl),
                              ground arith,
                            )),
                      )
                    ]
                    | inr refused ↦ (ground arith, inl (ground arith))
                  ]
                ]
        ]
      ]

  pub close_internal-DraftEffect :
      (id proposal_id : String) (db : DraftDb s)
      → DraftEffect id db (close_internal s env id proposal_id db).1
  unfolding close_internal
  close_internal-DraftEffect id proposal_id db = (
    refl,
    inr (
        inl (
          λ e. record e { state = closed; proposal_id = some proposal_id },
          λ e. ((refl, refl, λ c. refl), refl),
          refl,
        )),
  )

  pub update_proposal-DraftEffect :
      (history_id : String) (now : ℕ) (id account : String) (dto : UpdateDraftProposal)
      (db : DraftDb s)
      → DraftEffect id db (update_proposal s env history_id now id account dto db).1
  unfolding update_proposal update
  update_proposal-DraftEffect history_id now id account dto db =
      elim (Option-cases (s.drafts.find_one id db.drafts)) [
        | inl missing ↦ (ground arith, inl (ground arith))
        | inr (d, found) ↦ elim (Option-cases (env.dao_roles d.dao_id)) [
          | inl offline ↦ (ground arith, inl (ground arith))
          | inr (roles, answer) ↦
              elim (Option-cases
                (get_account_permissions roles (some dto.type) (some account) none)) [
                  | inl thrown ↦ (ground arith, inl (ground arith))
                  | inr (rights, computed) ↦
                      elim (Bool-cases (not (d.proposer == account) && not rights.is_council)) [
                        | inl refused ↦ (ground arith, inl (ground arith))
                        | inr allowed ↦ (
                          ground arith,
                          inr (
                              inl
                                (edited now dto, λ e. ((refl, refl, λ c. c), refl), ground arith)),
                        )
                      ]
                ]
        ]
      ]

  pub delete-DraftEffect :
      (id account : String) (db : DraftDb s) → DraftEffect id db (delete s env id account db).1
  unfolding delete
  delete-DraftEffect id account db = elim (Option-cases (s.drafts.find_one id db.drafts)) [
    | inl missing ↦ (ground arith, inl (ground arith))
    | inr (d, found) ↦ elim (Option-cases (env.dao_roles d.dao_id)) [
      | inl offline ↦ (ground arith, inl (ground arith))
      | inr (roles, answer) ↦
          elim (Option-cases (get_account_permissions roles (some d.type) (some account) none)) [
            | inl thrown ↦ (ground arith, inl (ground arith))
            | inr (rights, computed) ↦
                elim (Bool-cases (not (d.proposer == account) && not rights.is_council)) [
                  | inl refused ↦ (ground arith, inl (ground arith))
                  | inr allowed ↦ elim (Bool-cases (is_closed d.state)) [
                    | inl already ↦ (ground arith, inl (ground arith))
                    | inr still_open ↦
                        (ground arith, inr (inr (d, found, still_open, ground arith)))
                  ]
                ]
          ]
    ]
  ]
