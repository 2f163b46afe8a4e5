-- ===== src/Draft/Replies/OfComments.antt =====
-- The operations of the comment service leave the counts of replies right.
use astro_api_gateway.Common.{
  ◌≡◌, sym, ◌∙◌, ◌≢◌, none, some, inl, inr, String, ◌==◌, arith, eq_iff, Option-cases, Bool-cases,
}
use astro_api_gateway.Common.Repository.{update}
use astro_api_gateway.Common.Repository.Every.{find_one-update}
use astro_api_gateway.Common.Repository.Counting.{count-put_new, count-update_same}
use astro_api_gateway.Draft.Entities.{DraftComment, DraftStores, DraftDb}
use astro_api_gateway.Draft.Comments.{is_on}
use astro_api_gateway.Draft.Replies.{Threaded, IsConsistent, recount-Counted}

-- On the same draft, and answering the same comment.
abbrev SamePlace : DraftComment → DraftComment → Type 0
SamePlace c d = (d.context_id ≡ c.context_id) × (d.reply_to ≡ c.reply_to)

module _ (s : DraftStores) where
  -- The id of a new comment is not in use, and nothing answers it.
  abbrev pub IsFreshComment : String → DraftDb s → Type 0
  IsFreshComment id db =
      (s.comments.find_one id db.comments ≡ none)
      × ((j : String) (r : DraftComment)
          → s.comments.find_one j db.comments ≡ some r
          → r.reply_to ≢ some id)

  -- Every comment that is found afterwards stood in the same place before.
  abbrev StayInPlace : s.comments.Table → s.comments.Table → Type 0
  StayInPlace old new =
      (k : String) (d : DraftComment)
      → s.comments.find_one k new ≡ some d
      → (c : DraftComment) × (s.comments.find_one k old ≡ some c) × SamePlace c d

  StayInPlace-Threaded :
      (old new : s.comments.Table) → StayInPlace old new → Threaded s old → Threaded s new
  StayInPlace-Threaded old new stay h j k r c at_j answers at_k =
      let (r', was_j, (context_r, reply_r)) = stay j r at_j in
      let (c', was_k, (context_c, reply_c)) = stay k c at_k in
      context_r ∙ h j k r' c' was_j (sym reply_r ∙ answers) was_k ∙ sym context_c

  update-StayInPlace :
      (t : s.comments.Table) (id : String) (change : DraftComment → DraftComment)
      → ((c : DraftComment) → SamePlace c (change c))
      → StayInPlace t (update s.comments id change t)
  update-StayInPlace t id change keep k d found = elim (Option-cases (s.comments.find_one k t)) [
    | inl missing ↦ absurd (ground (arith, find_one-update s.comments k id change t))
    | inr (c, was) ↦ elim (Bool-cases (id == k)) [
      | inl same ↦
          let stored : change c ≡ d = ground (arith, find_one-update s.comments k id change t) in
          (c, was, rw stored at (keep c))
      | inr other ↦
          let stored : c ≡ d = ground (arith, find_one-update s.comments k id change t) in
          (c, was, (rw (← stored), rw (← stored)))
    ]
  ]

  -- A change of one comment in place leaves the counts and the threads.
  pub update-IsConsistent :
      (db after : DraftDb s) (id : String) (change : DraftComment → DraftComment)
      → ((c : DraftComment) → SamePlace c (change c))
      → after.drafts ≡ db.drafts
      → after.comments ≡ update s.comments id change db.comments
      → IsConsistent s db
      → IsConsistent s after
  update-IsConsistent db after id change keep same written h =
      let counts = λ (k : String).
        count-update_same s.comments (is_on k) id change db.comments (λ c. rw (keep c).0) in
      record {
        counted = rw (same, written) (λ k d found. h.counted k d found ∙ sym (counts k));
        threaded = rw written (
            StayInPlace-Threaded db.comments (update s.comments id change db.comments)
              (update-StayInPlace db.comments id change keep) h.threaded);
      }

  pub same-IsConsistent :
      (db after : DraftDb s)
      → after.drafts ≡ db.drafts
      → after.comments ≡ db.comments
      → IsConsistent s db
      → IsConsistent s after
  same-IsConsistent db after drafts comments h = record {
    counted = rw (drafts, comments) h.counted;
    threaded = rw comments h.threaded;
  }

  -- A new comment under a fresh id: only the count of its own draft changes, which is made anew.
  pub new-IsConsistent :
      (db after : DraftDb s) (id : String) (comment : DraftComment)
      → IsFreshComment id db
      → ((k : String) (c : DraftComment)
          → comment.reply_to ≡ some k
          → s.comments.find_one k db.comments ≡ some c
          → comment.context_id ≡ c.context_id)
      → after.comments ≡ s.comments.put id comment db.comments
      → after.drafts
        ≡ update s.drafts comment.context_id
            (λ d. record d {
              replies =
                  s.comments.count
                    (is_on comment.context_id)
                    (s.comments.put id comment db.comments);
            })
            db.drafts
      → IsConsistent s db
      → IsConsistent s after
  new-IsConsistent db after id comment (unused, unanswered) parent written recounted h = record {
    counted =
        rw (written, recounted)
          (recount-Counted s db.drafts db.comments (s.comments.put id comment db.comments)
            comment.context_id
            (λ k apart.
              count-put_new s.comments (is_on k) id comment db.comments unused
              ∙ ground (arith, eq_iff comment.context_id k))
            h.counted);
    threaded = rw written threads;
  }
    where
      threads : Threaded s (s.comments.put id comment db.comments)
      threads j k r c at_j answers at_k = elim (Bool-cases (id == j)) [
        | inl new_j ↦ elim (Bool-cases (id == k)) [
          | inl new_k ↦ ground (
            arith,
            s.comments.find_one-put j id comment db.comments,
            s.comments.find_one-put k id comment db.comments,
          )
          | inr old_k ↦
              let stored : comment ≡ r =
                ground (arith, s.comments.find_one-put j id comment db.comments) in
              rw (← stored) (
                parent k c (rw (← stored) at answers)
                  (ground (arith, s.comments.find_one-put k id comment db.comments)))
        ]
        | inr old_j ↦ elim (Bool-cases (id == k)) [
          | inl new_k ↦ absurd (
              unanswered j r (ground (arith, s.comments.find_one-put j id comment db.comments))
                (rw (← (eq_iff id k).0 new_k) at answers))
          | inr old_k ↦
              h.threaded j k r c (ground (arith, s.comments.find_one-put j id comment db.comments))
                answers (ground (arith, s.comments.find_one-put k id comment db.comments))
        ]
      ]
