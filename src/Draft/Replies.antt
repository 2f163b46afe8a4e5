-- ===== src/Draft/Replies.antt =====
-- The number of replies that a draft proposal shows, and the comments that are on it: what ties the
-- two services of libs/draft-proposal and libs/draft-comment together.
pub mod OfDrafts
pub mod OfComments
pub mod Operations
use astro_api_gateway.Common.{
  ℕ, ◌≡◌, refl, sym, ◌≢◌, Bool, true, false, Option, none, some, inl, inr, List, String, ◌==◌,
  arith, if◌then◌else◌, eq_iff, Option-cases, Bool-cases,
}
use astro_api_gateway.Common.Repository.{Repository, update}
use astro_api_gateway.Common.Repository.Every.{Every, find_one-update}
use astro_api_gateway.Draft.Entities.{DraftProposal, DraftComment, DraftStores, DraftDb, DraftEnv}
use astro_api_gateway.Draft.Comments.{is_on}

module _ (s : DraftStores) where
  -- Every draft shows the number of the comments on it.
  abbrev pub Counted : s.drafts.Table → s.comments.Table → Type 0
  Counted drafts comments =
      (k : String) (d : DraftProposal)
      → s.drafts.find_one k drafts ≡ some d
      → d.replies ≡ s.comments.count (is_on k) comments

  -- A reply is on the same draft as the comment that it answers, while that is there.
  abbrev pub Threaded : s.comments.Table → Type 0
  Threaded comments =
      (j k : String) (r c : DraftComment)
      → s.comments.find_one j comments ≡ some r
      → r.reply_to ≡ some k
      → s.comments.find_one k comments ≡ some c
      → r.context_id ≡ c.context_id

  pub record IsConsistent (db : DraftDb s) : Type 0 where
    pub counted : Counted db.drafts db.comments
    pub threaded : Threaded db.comments

  -- Counting anew makes up for a write that concerns one draft only.
  pub recount-Counted :
      (drafts : s.drafts.Table) (old new : s.comments.Table) (context_id : String)
      → ((k : String)
          → k ≢ context_id
          → s.comments.count (is_on k) new ≡ s.comments.count (is_on k) old)
      → Counted drafts old
      → Counted
          (update s.drafts context_id
            (λ d. record d { replies = s.comments.count (is_on context_id) new })
            drafts)
          new
  recount-Counted drafts old new context_id others h k d found =
      let at =
        find_one-update s.drafts k context_id
          (λ d. record d { replies = s.comments.count (is_on context_id) new }) drafts in
      elim (Bool-cases (context_id == k)) [
        | inl same ↦ elim (Option-cases (s.drafts.find_one k drafts)) [
          | inl missing ↦ absurd (ground (arith, at))
          | inr (e, before) ↦ rw (← (eq_iff context_id k).0 same) (ground (arith, at))
        ]
        | inr other ↦
            let apart : k ≢ context_id = λ e. cc ((eq_iff context_id k).1 (sym e)) in
            rw (others k apart) (h k d (ground (arith, at)))
      ]

  -- A write to a draft that leaves its replies alone.
  pub update-Counted :
      (drafts : s.drafts.Table) (comments : s.comments.Table) (id : String)
      (change : DraftProposal → DraftProposal)
      → ((d : DraftProposal) → (change d).replies ≡ d.replies)
      → Counted drafts comments
      → Counted (update s.drafts id change drafts) comments
  update-Counted drafts comments id change keep h k d found = elim (Bool-cases (id == k)) [
    | inl same ↦ elim (Option-cases (s.drafts.find_one k drafts)) [
      | inl missing ↦ absurd (ground (arith, find_one-update s.drafts k id change drafts))
      | inr (e, before) ↦
          let stored : change e ≡ d = ground (arith, find_one-update s.drafts k id change drafts) in
          rw (← stored, keep e) (h k e before)
    ]
    | inr other ↦ h k d (ground (arith, find_one-update s.drafts k id change drafts))
  ]
