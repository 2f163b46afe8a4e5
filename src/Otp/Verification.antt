-- ===== src/Otp/Verification.antt =====
-- How long a one-time password is accepted.
use astro_api_gateway.Common.{
  ℕ, ◌+◌, ◌≤◌, ◌<◌, ◌≡◌, ◌⊎◌, inl, inr, Bool, true, false, refl, none, some, List, [], ◌∷◌, String,
  ◌==◌, eq_refl, eq_iff, ap, not, ◌||◌, ◌&&◌, includes, filter, ltb, Bool-cases, All, arith,
}
use astro_api_gateway.Common.Repository.{Repository, erase_all, erase_where}
use astro_api_gateway.Common.Repository.Every.{find_one-erase_all}
use astro_api_gateway.Otp.{
  Bcrypt, Otp, OtpDb, lifetime, build_key, new_otp, create_otp, is_expired, fresh_one, matches,
  get_otp, is_expired_id, query_fails, stops_after, deletes_page, verify_otp, delete_expired, Call,
  create_call, expire_call, run_calls,
}

module _ (r : Repository Otp) (b : Bcrypt) (now : ℕ) (key : String) where
  -- The call is made for another key, or deletes what expired no later than now.
  abbrev pub IsApart : Call → Type 0
  IsApart (create_call otp salt at other) = build_key other == build_key key ≡ false
  IsApart (expire_call at page) = at ≤ now

  -- The item stands under the key, or is gone after its lifetime.
  abbrev Stands : Otp → r.Table → Type 0
  Stands item t =
      (r.find_one (build_key key) t ≡ some item)
      ⊎ ((r.find_one (build_key key) t ≡ none) × (item.created_at + lifetime < now))

  erase_where-Stands :
      (item : Otp) (at : ℕ) (t : r.Table)
      → at ≤ now
      → Stands item t
      → Stands item (erase_where r (is_expired r b at) t)
  unfolding erase_where
  erase_where-Stands item at t early (inl there) =
      let law = find_one-erase_all r (build_key key) (r.ids (is_expired r b at) t) t in
      let listed = r.includes-ids (is_expired r b at) (build_key key) t in
      elim (Bool-cases (is_expired r b at item)) [
        | inl over ↦ inr (ground arith, ground arith)
        | inr fresh ↦ inl (ground arith)
      ]
  erase_where-Stands item at t early (inr (gone, over)) =
      let law = find_one-erase_all r (build_key key) (r.ids (is_expired r b at) t) t in
      inr (ground arith, over)

  includes-filter :
      (p : String → Bool) (ids : List String) (id : String)
      → includes (filter p ids) id ≡ (p id && includes ids id)
  includes-filter p [] id = ground arith
  includes-filter p (x ∷ ids) id =
      ground (arith, includes-filter p ids id, eq_iff x id, same_test x)
    where
      same_test : (x : String) → (x == id ≡ true) → p x ≡ p id
      same_test x e = ap p ((eq_iff x id).0 e)

  -- The deletion of a page leaves what is not expired.
  erase_all-Stands :
      (item : Otp) (at : ℕ) (ids : List String) (t : r.Table)
      → at ≤ now
      → Stands item t
      → Stands item (erase_all r (filter (is_expired_id r b at t) ids) t)
  erase_all-Stands item at ids t early (inl there) =
      let law = find_one-erase_all r (build_key key) (filter (is_expired_id r b at t) ids) t in
      let listed = includes-filter (is_expired_id r b at t) ids (build_key key) in
      elim (Bool-cases (is_expired r b at item)) [
        | inl over ↦ elim (Bool-cases (includes ids (build_key key))) [
          | inl paged ↦ inr (ground arith, ground arith)
          | inr other ↦ inl (ground arith)
        ]
        | inr fresh ↦ inl (ground arith)
      ]
  erase_all-Stands item at ids t early (inr (gone, over)) =
      let law = find_one-erase_all r (build_key key) (filter (is_expired_id r b at t) ids) t in
      inr (ground arith, over)

  put-Stands :
      (item new : Otp) (other : String) (t : r.Table)
      → build_key other == build_key key ≡ false
      → Stands item t
      → Stands item (r.put (build_key other) new t)
  put-Stands item new other t apart (inl there) =
      inl (ground (arith, r.find_one-put (build_key key) (build_key other) new t))
  put-Stands item new other t apart (inr (gone, over)) =
      inr (ground (arith, r.find_one-put (build_key key) (build_key other) new t), over)

  run_calls-Stands :
      (item : Otp) (calls : List Call) (db : OtpDb r)
      → All IsApart calls
      → Stands item db.dynamo × Stands item db.otps
      → Stands item (run_calls r b calls db).dynamo × Stands item (run_calls r b calls db).otps
  unfolding create_otp delete_expired
  run_calls-Stands item [] db apart h = h
  run_calls-Stands item (create_call otp salt at other ∷ calls) db (a, apart) h =
      let mid = run_calls r b calls db in
      let (one, two) = run_calls-Stands item calls db apart h in
      (
        put-Stands item (new_otp r b otp salt at) other mid.dynamo a one,
        put-Stands item (new_otp r b otp salt at) other mid.otps a two,
      )
  run_calls-Stands item (expire_call at query_fails ∷ calls) db (a, apart) h =
      run_calls-Stands item calls db apart h
  run_calls-Stands item (expire_call at (stops_after ids) ∷ calls) db (a, apart) h =
      let mid = run_calls r b calls db in
      let (one, two) = run_calls-Stands item calls db apart h in
      (erase_all-Stands item at ids mid.dynamo a one, two)
  run_calls-Stands item (expire_call at (deletes_page ids) ∷ calls) db (a, apart) h =
      let mid = run_calls r b calls db in
      let (one, two) = run_calls-Stands item calls db apart h in
      (erase_all-Stands item at ids mid.dynamo a one, erase_where-Stands item at mid.otps a two)

  matches-Stands :
      (otp salt : String) (created : ℕ) (t : r.Table)
      → Stands (new_otp r b otp salt created) t
      → matches r b otp (fresh_one r b now (r.find_one (build_key key) t))
        ≡ ltb now (created + lifetime)
  matches-Stands otp salt created t (inl there) =
      rw (there) (ground (arith, b.compare-hash salt otp))
  matches-Stands otp salt created t (inr (gone, over)) = rw (gone) (ground arith)

  -- After a password was created for a key, and after any calls that create passwords for other keys or
  -- delete what expired no later than now, the password is accepted now exactly when less than its
  -- lifetime has passed since its creation and the store that is asked can be read: DynamoDB may fail, and
  -- rejects it then.
  pub verify_otp-create_otp :
      (use_dynamo readable : Bool) (otp salt : String) (created : ℕ) (calls : List Call)
      (db : OtpDb r)
      → All IsApart calls
      → verify_otp r b use_dynamo readable now key otp
          (run_calls r b calls (create_otp r b otp salt created key db))
        ≡ ((not use_dynamo || readable) && ltb now (created + lifetime))
  unfolding verify_otp get_otp create_otp
  verify_otp-create_otp use_dynamo readable otp salt created calls db apart =
      let item = new_otp r b otp salt created in
      let start = create_otp r b otp salt created key db in
      let law = λ (t : r.Table). r.find_one-put (build_key key) (build_key key) item t in
      let one : Stands item start.dynamo =
        inl (ground (arith, law db.dynamo, eq_refl (build_key key))) in
      let two : Stands item start.otps =
        inl (ground (arith, law db.otps, eq_refl (build_key key))) in
      let (dynamo, otps) = run_calls-Stands item calls start apart (one, two) in
      elim (Bool-cases use_dynamo) [
        | inl yes_dynamo ↦ elim (Bool-cases readable) [
          | inl reads ↦
              rw (yes_dynamo, reads)
                (matches-Stands otp salt created (run_calls r b calls start).dynamo dynamo)
          | inr fails ↦ rw (yes_dynamo, fails) refl
        ]
        | inr sql ↦ rw (sql) (matches-Stands otp salt created (run_calls r b calls start).otps otps)
      ]
