-- ===== src/Draft/Replies/OfDrafts.antt =====
-- The operations of the draft service leave the counts of replies right.
use astro_api_gateway.Common.{ℕ, ◌≡◌, none, inl, inr, String, ◌==◌, arith, eq_iff, Bool-cases}
use astro_api_gateway.Draft.Entities.{DraftStores, DraftDb, DraftEnv}
use astro_api_gateway.Draft.Comments.{is_on}
use astro_api_gateway.Draft.Proposals.{CreateDraftProposal, new_draft, create}
use astro_api_gateway.Draft.Proposals.Effects.{DraftEffect}
use astro_api_gateway.Draft.Replies.{Counted, IsConsistent, update-Counted}

module _ (s : DraftStores) (env : DraftEnv) where
  pub DraftEffect-IsConsistent :
      (id : String) (db after : DraftDb s)
      → DraftEffect s env id db after
      → IsConsistent s db
      → IsConsistent s after
  DraftEffect-IsConsistent id db after (same, inl kept) h = record {
    counted = rw (same, kept) h.counted;
    threaded = rw same h.threaded;
  }
  DraftEffect-IsConsistent id db after (same, inr (inl (change, continues, written))) h = record {
    counted =
        rw (same, written)
          (update-Counted s db.drafts db.comments id change (λ d. (continues d).1) h.counted);
    threaded = rw same h.threaded;
  }
  DraftEffect-IsConsistent id db after (same, inr (inr (d, found, opened, erased))) h = record {
    counted =
        rw (same, erased)
          (λ k e at. h.counted k e (ground (arith, s.drafts.find_one-erase k id db.drafts)));
    threaded = rw same h.threaded;
  }

  -- The id of a new draft is not in use, and no comment is on it.
  abbrev pub IsFreshDraft : String → DraftDb s → Type 0
  IsFreshDraft id db =
      (s.drafts.find_one id db.drafts ≡ none) × (s.comments.count (is_on id) db.comments ≡ 0)

  pub create_writes :
      (id : String) (now : ℕ) (account : String) (dto : CreateDraftProposal) (db : DraftDb s)
      → let after = (create s env id now account dto db).1 in
        (after.drafts ≡ s.drafts.put id (new_draft now account dto) db.drafts)
        × (after.comments ≡ db.comments)
  unfolding create
  create_writes id now account dto db = ground arith

  pub create-IsConsistent :
      (id : String) (now : ℕ) (account : String) (dto : CreateDraftProposal) (db : DraftDb s)
      → IsFreshDraft id db
      → IsConsistent s db
      → IsConsistent s (create s env id now account dto db).1
  create-IsConsistent id now account dto db (unused, empty) h =
      let (written, same) = create_writes id now account dto db in
      record { counted = rw (written, same) fresh; threaded = rw same h.threaded }
    where
      fresh : Counted s (s.drafts.put id (new_draft now account dto) db.drafts) db.comments
      fresh k d found = elim (Bool-cases (id == k)) [
        | inl here ↦
            rw (← (eq_iff id k).0 here, empty)
              (ground (arith, s.drafts.find_one-put k id (new_draft now account dto) db.drafts))
        | inr elsewhere ↦
            h.counted k d
              (ground (arith, s.drafts.find_one-put k id (new_draft now account dto) db.drafts))
      ]
