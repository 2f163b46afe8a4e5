-- ===== src/Tests/Passwords.antt =====
-- One-time passwords of two keys.
use astro_api_gateway.Common.{◌≡◌, refl, true, [], ◌∷◌, List, ltb, ◌+◌, ◌==◌, eq_refl, arith}
use astro_api_gateway.Common.Repository.{Repository}
use astro_api_gateway.Common.Repository.InMemory.{in_memory}
use astro_api_gateway.Otp.{
  Bcrypt, Otp, OtpDb, lifetime, create_otp, verify_otp, Call, create_call, expire_call,
  deletes_page, run_calls,
}
use astro_api_gateway.Otp.Verification.{verify_otp-create_otp}

-- No hashing at all.
abbrev plain : Bcrypt
plain = record {
  hash = λ salt otp. otp;
  compare = λ otp text. otp == text;
  compare-hash = λ salt. eq_refl;
}

abbrev store : Repository Otp
store = in_memory Otp

abbrev empty : OtpDb store
empty = record { dynamo = ([], tt); otps = ([], tt) }

abbrev calls : List Call
calls = expire_call 5000 (deletes_page []) ∷ create_call "222222" "salt" 3000 "bob.near" ∷ []

verify_otp-create_otp_example :
    verify_otp store plain true true 6000 "alice.near" "111111"
      (run_calls store plain calls (create_otp store plain "111111" "salt" 1000 "alice.near" empty))
    ≡ ltb 6000 (1000 + lifetime)
verify_otp-create_otp_example =
    verify_otp-create_otp store plain 6000 "alice.near" true true "111111" "salt" 1000 calls empty
      (omega arith, (refl, tt))
