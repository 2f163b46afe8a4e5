-- ===== src/Draft/Proposals/Readers.antt =====
-- The accounts that viewed and that saved a draft proposal.
use astro_api_gateway.Common.{
  ◌≡◌, ◌⊎◌, inl, inr, some, [], ◌∷◌, ◌++◌, String, arith, includes, without, IsUnique,
  IsUnique-concat, IsUnique-without, Option-cases, Bool-cases,
}
use astro_api_gateway.Common.Repository.{update}
use astro_api_gateway.Common.Repository.Every.{Every, update-Every}
use astro_api_gateway.Draft.Entities.{DraftProposal, DraftStores, DraftDb, DraftEnv}
use astro_api_gateway.Draft.Proposals.{view, save, remove_save}

-- No account is counted twice.
abbrev pub HasReaders : DraftProposal → Type 0
HasReaders d = IsUnique d.view_accounts × IsUnique d.save_accounts

module _ (s : DraftStores) (env : DraftEnv) where
  abbrev pub AllHaveReaders : DraftDb s → Type 0
  AllHaveReaders db = Every s.drafts (λ id d. HasReaders d) db.drafts

  -- Nothing is written, or one draft, whose readers stay unique.
  abbrev Writes : String → DraftDb s → DraftDb s → Type 0
  Writes id db after =
      (after.drafts ≡ db.drafts)
      ⊎ ((d : DraftProposal) × (change : DraftProposal → DraftProposal) × (s.drafts.find_one id
              db.drafts
            ≡ some d)
          × (HasReaders d → HasReaders (change d))
          × (after.drafts ≡ update s.drafts id change db.drafts))

  Writes-AllHaveReaders :
      (id : String) (db after : DraftDb s)
      → Writes id db after
      → AllHaveReaders db
      → AllHaveReaders after
  Writes-AllHaveReaders id db after (inl same) h = rw same h
  Writes-AllHaveReaders id db after (inr (d, change, found, keep, written)) h = rw written (
      update-Every s.drafts (λ id d. HasReaders d) id change db.drafts
        (λ e at readers.
          let same : d ≡ e = ground arith in rw same at (keep (rw (← same) at readers)))
        h)

  view-Writes : (id account : String) (db : DraftDb s) → Writes id db (view s env id account db).1
  unfolding view
  view-Writes id account db = elim (Option-cases (s.drafts.find_one id db.drafts)) [
    | inl missing ↦ inl (ground arith)
    | inr (d, found) ↦ elim (Bool-cases (includes d.view_accounts account)) [
      | inl before ↦ inl (ground arith)
      | inr new ↦ inr (
        d,
        λ e. record e { view_accounts = d.view_accounts ++ account ∷ [] },
        found,
        λ readers. (IsUnique-concat d.view_accounts account readers.0 new, readers.1),
        ground arith,
      )
    ]
  ]

  save-Writes : (id account : String) (db : DraftDb s) → Writes id db (save s env id account db).1
  unfolding save
  save-Writes id account db = elim (Option-cases (s.drafts.find_one id db.drafts)) [
    | inl missing ↦ inl (ground arith)
    | inr (d, found) ↦ elim (Bool-cases (includes d.save_accounts account)) [
      | inl before ↦ inl (ground arith)
      | inr new ↦ inr (
        d,
        λ e. record e { save_accounts = d.save_accounts ++ account ∷ [] },
        found,
        λ readers. (readers.0, IsUnique-concat d.save_accounts account readers.1 new),
        ground arith,
      )
    ]
  ]

  remove_save-Writes :
      (id account : String) (db : DraftDb s) → Writes id db (remove_save s env id account db).1
  unfolding remove_save
  remove_save-Writes id account db = elim (Option-cases (s.drafts.find_one id db.drafts)) [
    | inl missing ↦ inl (ground arith)
    | inr (d, found) ↦ elim (Bool-cases (includes d.save_accounts account)) [
      | inr absent ↦ inl (ground arith)
      | inl saved ↦ inr (
        d,
        λ e. record e { save_accounts = without account d.save_accounts },
        found,
        λ readers. (readers.0, IsUnique-without d.save_accounts account readers.1),
        ground arith,
      )
    ]
  ]

  -- Viewing and saving a draft, and taking the latter back, list no account twice among the viewers or
  -- the savers of any draft, where none was.
  pub readers-AllHaveReaders :
      (id account : String) (db : DraftDb s)
      → AllHaveReaders db
      → AllHaveReaders (view s env id account db).1
        × AllHaveReaders (save s env id account db).1
        × AllHaveReaders (remove_save s env id account db).1
  readers-AllHaveReaders id account db h = (
    Writes-AllHaveReaders id db (view s env id account db).1 (view-Writes id account db) h,
    Writes-AllHaveReaders id db (save s env id account db).1 (save-Writes id account db) h,
    Writes-AllHaveReaders id db (remove_save s env id account db).1
        (remove_save-Writes id account db) h,
  )
