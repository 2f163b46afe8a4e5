-- ===== src/Draft/Proposals/Rights.antt =====
-- Who may change, close and delete a draft proposal, and what the calls then leave.
use astro_api_gateway.Common.{
  ℕ, ◌≡◌, refl, ◌≢◌, ◌↔◌, ◌⊎◌, inl, inr, Bool, true, false, not, ◌&&◌, none, some, List, [], ◌∷◌,
  ◌++◌, String, ◌==◌, arith, ok, if◌then◌else◌, holds, eq_iff, eq_refl, Option-cases,
}
use astro_api_gateway.Common.Repository.{erase_where}
use astro_api_gateway.Common.Repository.Every.{find_one-erase_all, find_one-update}
use astro_api_gateway.Permissions.{Role, ProposalType, get_account_permissions}
use astro_api_gateway.Permissions.Grants.{Grants, get_account_permissions-Grants}
use astro_api_gateway.Permissions.Council.{OnCouncil, get_account_permissions-OnCouncil}
use astro_api_gateway.Draft.Entities.{closed, DraftProposal, DraftStores, DraftDb, DraftEnv}
use astro_api_gateway.Draft.Proposals.{
  UpdateDraftProposal, is_closed, edited, history_of, map_draft_proposal_to_opensearch_dto,
  update_proposal, delete, close,
}

module _ (s : DraftStores) (env : DraftEnv) where
  -- The account proposed the draft, or is on the council of the draft's DAO.
  abbrev pub MayEdit : String → List Role → DraftProposal → Type 0
  MayEdit account roles d = (d.proposer ≡ account) ⊎ OnCouncil account roles

  may_edit :
      (account : String) (roles : List Role) (type : ProposalType) (d : DraftProposal)
      (council : Bool)
      → (council ≡ true) ↔ OnCouncil account roles
      → (not (d.proposer == account) && not council) ≡ false
      → MayEdit account roles d
  may_edit account roles type d true exact h = inr (exact.0 refl)
  may_edit account roles type d false exact h = inl (ground (arith, eq_iff d.proposer account))

  -- A deletion that succeeds, by an account that is not the empty text, was of an open draft, by its
  -- proposer or a member of the council of its DAO. It leaves no draft under the id and no history
  -- entry of the draft, and every other draft and history entry as it was.
  pub delete_lem :
      (id account : String) (db : DraftDb s)
      → account ≢ ""
      → (delete s env id account db).0 ≡ ok true
      → let after = (delete s env id account db).1 in
        (d : DraftProposal) × (roles : List Role) × (s.drafts.find_one id db.drafts ≡ some d)
        × (env.dao_roles d.dao_id ≡ some roles)
        × (is_closed d.state ≡ false)
        × MayEdit account roles d
        × ((k : String)
            → s.drafts.find_one k after.drafts
              ≡ (if id == k then none else s.drafts.find_one k db.drafts))
        × ((k : String)
            → s.history.find_one k after.history ≡ (
                if holds (λ h. h.draft_proposal_id == id) (s.history.find_one k db.history)
                then none
                else s.history.find_one k db.history))
  unfolding delete erase_where
  delete_lem id account db named success = elim (Option-cases (s.drafts.find_one id db.drafts)) [
    | inl missing ↦ absurd (ground arith)
    | inr (d, found) ↦ elim (Option-cases (env.dao_roles d.dao_id)) [
      | inl offline ↦ absurd (ground arith)
      | inr (roles, answer) ↦
          elim (Option-cases (get_account_permissions roles (some d.type) (some account) none)) [
            | inl thrown ↦ absurd (ground arith)
            | inr (rights, computed) ↦
                let exact =
                  get_account_permissions-OnCouncil roles (some d.type) account none rights named
                    computed in
                let allowed : (not (d.proposer == account) && not rights.is_council) ≡ false =
                  ground arith in
                (
                  d,
                  roles,
                  found,
                  answer,
                  ground arith,
                  may_edit account roles d.type d rights.is_council exact allowed,
                  λ k. ground (arith, s.drafts.find_one-erase k id db.drafts),
                  λ k. ground (
                    arith,
                    find_one-erase_all s.history k
                        (s.history.ids (λ h. h.draft_proposal_id == id) db.history) db.history,
                    s.history.includes-ids (λ h. h.draft_proposal_id == id) k db.history,
                  ),
                )
          ]
    ]
  ]

  -- A call of `close` that succeeds, by an account that is not the empty text, was by an account to
  -- which a role of the draft's DAO gives the right to add proposals of the draft's type. Afterwards
  -- the draft is closed; one that was closed before is as it was, with the proposal that it had.
  pub close_lem :
      (id account proposal_id : String) (db : DraftDb s)
      → account ≢ ""
      → (close s env id account proposal_id db).0 ≡ ok true
      → let after = (close s env id account proposal_id db).1 in
        (d : DraftProposal) × (roles : List Role) × (s.drafts.find_one id db.drafts ≡ some d)
        × (env.dao_roles d.dao_id ≡ some roles)
        × Grants account none (some d.type) "AddProposal" roles
        × (s.drafts.find_one id after.drafts
            ≡ some (
                if is_closed d.state
                then d
                else record d { state = closed; proposal_id = some proposal_id }))
  unfolding close
  close_lem id account proposal_id db named success =
      elim (Option-cases (s.drafts.find_one id db.drafts)) [
        | inl missing ↦ absurd (ground arith)
        | inr (d, found) ↦ elim (Option-cases (env.dao_roles d.dao_id)) [
          | inl offline ↦ absurd (ground arith)
          | inr (roles, answer) ↦
              elim (Option-cases
                (get_account_permissions roles (some d.type) (some account) none)) [
                  | inl thrown ↦ absurd (ground arith)
                  | inr (rights, computed) ↦
                      let exact =
                        get_account_permissions-Grants roles (some d.type) account none rights named
                          computed in
                      (
                        d,
                        roles,
                        found,
                        answer,
                        exact.3.0 (ground arith),
                        ground (
                          arith,
                          eq_refl id,
                          find_one-update s.drafts id id
                              (λ e. record e { state = closed; proposal_id = some proposal_id })
                              db.drafts,
                        ),
                      )
                ]
        ]
      ]

  -- An update that succeeds while drafts are indexed stores the new version of the draft and an entry
  -- of the old one in its history, but sends the old version to the search index.
  pub update_proposal-indexed :
      (history_id : String) (now : ℕ) (id account : String) (dto : UpdateDraftProposal)
      (db : DraftDb s)
      → env.index_drafts ≡ true
      → (update_proposal s env history_id now id account dto db).0 ≡ ok id
      → let after = (update_proposal s env history_id now id account dto db).1 in
        (d : DraftProposal) × (s.drafts.find_one id db.drafts ≡ some d)
        × (s.drafts.find_one id after.drafts ≡ some (edited now dto d))
        × (s.history.find_one history_id after.history ≡ some (history_of id d))
        × (after.indexed ≡ db.indexed ++ map_draft_proposal_to_opensearch_dto id d ∷ [])
  unfolding update_proposal
  update_proposal-indexed history_id now id account dto db on success =
      elim (Option-cases (s.drafts.find_one id db.drafts)) [
        | inl missing ↦ absurd (ground arith)
        | inr (d, found) ↦ (
          d,
          found,
          ground (arith, eq_refl id, s.drafts.find_one-put id id (edited now dto d) db.drafts),
          ground (
            arith,
            eq_refl history_id,
            s.history.find_one-put history_id history_id (history_of id d) db.history,
          ),
          ground arith,
        )
      ]
