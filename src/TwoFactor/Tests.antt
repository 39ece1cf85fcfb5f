-- ===== src/TwoFactor/Tests.antt =====
-- Concrete cases of the one-time codes.
use lan_qin_email.Prelude.{◌≡◌, refl, true, some, [], ◌∷◌, ◌++◌, arith}
use lan_qin_email.Prelude.Text.{codes, trim_space}
use lan_qin_email.TwoFactor.{
  TotpLib, generate_totp, generate_totp_for_counter, decode_totp_secret, six_digits, big_endian_4,
  big_endian_8, verify_totp,
}
use lan_qin_email.TwoFactor.Replay.{Attempt, IsRising, accepted, accepted-IsRising}
use lan_qin_email.TwoFactor.Codes.{verify-generate}

-- a sum of twenty bytes that ends with the low byte of the counter in the first four
abbrev lib : TotpLib
lib = record {
  upper = λ c. c;
  base32_decode = λ s. some s;
  hmac_sha1 = λ key message. message ++ 0 ∷ 0 ∷ 0 ∷ 0 ∷ 0 ∷ 0 ∷ 0 ∷ 0 ∷ 0 ∷ 0 ∷ 0 ∷ 4 ∷ [];
}

code_example : generate_totp lib (codes "KEY") 90 ≡ some (codes "000003")
unfolding generate_totp decode_totp_secret trim_space generate_totp_for_counter big_endian_8
    big_endian_4 six_digits
code_example = refl

verify-generate_example : verify_totp lib (codes "KEY") (codes "000003") 120 ≡ true
verify-generate_example =
    verify-generate lib (codes "KEY") (codes "000003") 90 120 code_example (omega arith)
      (omega arith)

abbrev attempt : Attempt
attempt = record { user = codes "ann"; secret = codes "KEY"; code = codes "000003"; now = 120 }

accepted-IsRising_example :
    IsRising 2 (accepted lib (codes "ann") (attempt ∷ attempt ∷ []) (λ user. some 2))
accepted-IsRising_example =
    accepted-IsRising lib (codes "ann") (attempt ∷ attempt ∷ []) 2 (λ user. some 2) refl
