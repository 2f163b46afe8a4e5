-- ===== src/Otp.antt =====
-- libs/otp/src/otp.service.ts: one-time passwords, stored in DynamoDB and in SQL. The time is an
-- argument, in milliseconds; so are the random digits and the salt.
pub mod Verification
use astro_api_gateway.Common.{
  ℕ, ◌+◌, ◌*◌, ◌/◌, ◌≡◌, Bool, true, false, ◌&&◌, Option, none, some, List, [], ◌∷◌, String,
  str_append, ltb, holds, filter, if◌then◌else◌,
}
use astro_api_gateway.Common.Repository.{Repository, erase_all, erase_where}

-- `bcrypt.hash` with its salt, and `bcrypt.compare`.
pub record Bcrypt : Type 0 where
  pub hash : String → String → String
  pub compare : String → String → Bool
  pub compare-hash : (salt otp : String) → compare otp (hash salt otp) ≡ true

pub record Otp : Type 0 where
  pub hash : String
  pub created_at : ℕ
  pub ttl : ℕ

-- `OTP_TTL`, in seconds
abbrev pub otp_ttl : ℕ
otp_ttl = 900

abbrev pub lifetime : ℕ
lifetime = otp_ttl * 1000

-- How the scheduled deletion ends in DynamoDB: its query fails; the deletion stops after some ids of the
-- page that was answered; or all ids of the page are deleted.
pub data QueryPage : Type 0 where
  query_fails : QueryPage
  stops_after deletes_page : List String → QueryPage

pub record OtpDb (r : Repository Otp) : Type 0 where
  pub dynamo : r.Table
  pub otps : r.Table

abbrev pub build_key : String → String
build_key key = str_append "otp:" key

-- `Math.round(createdAt / 1000)`
abbrev round_seconds : ℕ → ℕ
round_seconds created_at = (created_at + 500) / 1000

module _ (r : Repository Otp) (b : Bcrypt) where
  abbrev pub new_otp : String → String → ℕ → Otp
  new_otp otp salt now = record {
    hash = b.hash salt otp;
    created_at = now;
    ttl = round_seconds now + otp_ttl;
  }

  unfoldable pub create_otp : String → String → ℕ → String → OtpDb r → OtpDb r
  create_otp otp salt now key db = record {
    dynamo = r.put (build_key key) (new_otp otp salt now) db.dynamo;
    otps = r.put (build_key key) (new_otp otp salt now) db.otps;
  }

  -- `createdAt > expireTime`, where the latter is the time less the lifetime
  abbrev pub is_fresh : ℕ → Otp → Bool
  is_fresh now otp = ltb now (otp.created_at + lifetime)

  -- `createdAt < expireTime`
  abbrev pub is_expired : ℕ → Otp → Bool
  is_expired now otp = ltb (otp.created_at + lifetime) now

  abbrev pub fresh_one : ℕ → Option Otp → Option Otp
  fresh_one now none = none
  fresh_one now (some otp) = if is_fresh now otp then some otp else none

  -- Both stores answer the item under the key where it is fresh. A read of DynamoDB that fails is answered
  -- as a missing item; `readable` says whether it succeeds.
  unfoldable pub get_otp : Bool → Bool → ℕ → String → OtpDb r → Option Otp
  get_otp use_dynamo readable now key db =
      if use_dynamo
      then if readable then fresh_one now (r.find_one (build_key key) db.dynamo) else none
      else fresh_one now (r.find_one (build_key key) db.otps)

  abbrev pub matches : String → Option Otp → Bool
  matches otp none = false
  matches otp (some item) = b.compare otp item.hash

  unfoldable pub verify_otp : Bool → Bool → ℕ → String → String → OtpDb r → Bool
  unfolding get_otp
  verify_otp use_dynamo readable now key otp db =
      matches otp (get_otp use_dynamo readable now key db)

  abbrev pub is_expired_id : ℕ → r.Table → String → Bool
  is_expired_id now t id = holds (is_expired now) (r.find_one id t)

  -- The query's filter keeps the expired items alone. From DynamoDB only those of its first page are
  -- deleted, from SQL all.
  unfoldable pub delete_expired : ℕ → QueryPage → OtpDb r → OtpDb r
  delete_expired now query_fails db = db
  delete_expired now (stops_after ids) db = record db {
    dynamo = erase_all r (filter (is_expired_id now db.dynamo) ids) db.dynamo;
  }
  delete_expired now (deletes_page ids) db = record {
    dynamo = erase_all r (filter (is_expired_id now db.dynamo) ids) db.dynamo;
    otps = erase_where r (is_expired now) db.otps;
  }

-- A call that changes the stores, and its time.
pub data Call : Type 0 where
  create_call : String → String → ℕ → String → Call
  expire_call : ℕ → QueryPage → Call

module _ (r : Repository Otp) (b : Bcrypt) where
  abbrev pub run_call : Call → OtpDb r → OtpDb r
  run_call (create_call otp salt now key) db = create_otp r b otp salt now key db
  run_call (expire_call now page) db = delete_expired r b now page db

  -- The first call of the list is the last one that is made.
  abbrev pub run_calls : List Call → OtpDb r → OtpDb r
  run_calls [] db = db
  run_calls (call ∷ earlier) db = run_call call (run_calls earlier db)
