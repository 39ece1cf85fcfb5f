-- ===== src/TwoFactor/Codes.antt =====
-- The codes that `generateTOTP` gives, as `verifyTOTP` reads them.
use lan_qin_email.Prelude.{
  ℕ, ◌+◌, ◌-◌, ◌/◌, ◌%◌, ◌≤◌, ◌≡◌, refl, ◌∙◌, ◌⊎◌, inl, inr, true, false, Option, none, some, List,
  [], ◌∷◌, length, arith, ◌==◌, Bool-cases, ==_iff,
}
use lan_qin_email.Prelude.Text.{Text, text_eq, text_eq_refl, is_space, trim_space}
use lan_qin_email.Prelude.Trim.{trim_space-ends}
use lan_qin_email.TwoFactor.{
  TotpLib, six_digits, is_digit, all_digits, generate_totp, generate_totp_for_counter, first_step,
  steps_around, decode_totp_secret, match_totp_counter, verify_totp,
}

digit-is_digit : (n : ℕ) → is_digit (b'0' + n % 10) ≡ true
digit-is_digit n = ground arith

digit-is_space : (n : ℕ) → is_space (b'0' + n % 10) ≡ false
unfolding is_space
digit-is_space n = ground arith

IsCode : Text → Type 0
IsCode s = (trim_space s ≡ s) × (length s ≡ 6) × (all_digits s ≡ true)

six_digits-IsCode : (n : ℕ) → IsCode (six_digits n)
unfolding six_digits IsCode all_digits
six_digits-IsCode n = (
  trim_space-ends (b'0' + n / 100_000 % 10) (b'0' + n % 10)
      ((b'0' + n / 10_000 % 10)
        ∷ (b'0' + n / 1_000 % 10)
        ∷ (b'0' + n / 100 % 10)
        ∷ (b'0' + n / 10 % 10)
        ∷ [])
      (digit-is_space (n / 100_000)) (digit-is_space n),
  refl,
  rw
      (
        digit-is_digit (n / 100_000),
        digit-is_digit (n / 10_000),
        digit-is_digit (n / 1_000),
        digit-is_digit (n / 100),
        digit-is_digit (n / 10),
        digit-is_digit n,
      )
      refl,
)

-- a code is found in steps that hold one that gives it
Gives : TotpLib → List ℕ → Text → List ℕ → Type 0
Gives lib key code [] = ⊥
Gives lib key code (step ∷ steps) =
    (text_eq (generate_totp_for_counter lib key step) code ≡ true) ⊎ Gives lib key code steps

first_step-Gives :
    (lib : TotpLib) (key : List ℕ) (code : Text) (steps : List ℕ)
    → Gives lib key code steps
    → (step : ℕ) × (first_step lib key code steps ≡ some step)
unfolding first_step Gives
first_step-Gives lib key code [] g = elim g [ ]
first_step-Gives lib key code (step ∷ steps) (inl h) = (step, rw h refl)
first_step-Gives lib key code (step ∷ steps) (inr g) =
    let (found, e) = first_step-Gives lib key code steps g in
    elim (Bool-cases (text_eq (generate_totp_for_counter lib key step) code)) [
      | inl here ↦ (step, rw here refl)
      | inr past ↦ (found, rw past e)
    ]

near : (a b : ℕ) → a ≤ b + 1 → b ≤ a + 1 → (a ≡ b - 1) ⊎ ((a ≡ b) ⊎ (a ≡ b + 1))
near a b h k = elim (Bool-cases (a == b)) [
  | inl same ↦ inr (inl ((==_iff a b).0 same))
  | inr differ ↦ elim (Bool-cases (a == b + 1)) [
    | inl above ↦ inr (inr ((==_iff a (b + 1)).0 above))
    | inr not_above ↦ inl (ground arith)
  ]
]

match_code :
    (lib : TotpLib) (secret code : Text) (key : List ℕ) (now : ℕ)
    → IsCode code
    → decode_totp_secret lib secret ≡ some key
    → match_totp_counter lib secret code now ≡ first_step lib key code (steps_around (now / 30))
unfolding match_totp_counter IsCode
match_code lib secret code key now (trimmed, six, digits) found =
    rw (trimmed, six, digits, found) refl

-- one of the steps around the clock gives a code of a step next to it
near-Gives :
    (lib : TotpLib) (key : List ℕ) (step counter : ℕ)
    → step ≤ counter + 1
    → counter ≤ step + 1
    → Gives lib key (generate_totp_for_counter lib key step) (steps_around counter)
unfolding Gives
near-Gives lib key step counter early late =
    let same : (n : ℕ)
        → step ≡ n
        → text_eq (generate_totp_for_counter lib key n) (generate_totp_for_counter lib key step)
          ≡ true =
      λ n e. rw e (text_eq_refl (generate_totp_for_counter lib key n)) in
    elim (near step counter early late) [
      | inl below ↦ inl (same (counter - 1) below)
      | inr (inl at_clock) ↦ inr (inl (same counter at_clock))
      | inr (inr above) ↦ inr (inr (inl (same (counter + 1) above)))
    ]

verify-some :
    (lib : TotpLib) (secret code : Text) (now step : ℕ)
    → match_totp_counter lib secret code now ≡ some step
    → verify_totp lib secret code now ≡ true
unfolding verify_totp
verify-some lib secret code now step h = rw (verify_totp, h) refl

generated_code :
    (lib : TotpLib) (secret code : Text) (made : ℕ)
    → generate_totp lib secret made ≡ some code
    → (key : List ℕ) × (decode_totp_secret lib secret ≡ some key)
      × (generate_totp_for_counter lib key (made / 30) ≡ code)
unfolding generate_totp
generated_code lib secret code made h = with_secret (decode_totp_secret lib secret) h
  where
    with_secret :
        (o : Option (List ℕ))
        → Path
            (Option Text)
            (elim o [
              | none ↦ none
              | some key ↦ some (generate_totp_for_counter lib key (made / 30))
            ])
            (some code)
        → (key : List ℕ) × (o ≡ some key) × (generate_totp_for_counter lib key (made / 30) ≡ code)
    with_secret none k = absurd (cc)
    with_secret (some key) k = (key, refl, cc)

generated-IsCode :
    (lib : TotpLib) (key : List ℕ) (step : ℕ) → IsCode (generate_totp_for_counter lib key step)
unfolding generate_totp_for_counter
generated-IsCode lib key step = six_digits-IsCode _

-- The code that is generated at one second is accepted at another, as long as their 30-second steps
-- are equal or next to each other.
pub verify-generate :
    (lib : TotpLib) (secret code : Text) (made now : ℕ)
    → generate_totp lib secret made ≡ some code
    → made / 30 ≤ now / 30 + 1
    → now / 30 ≤ made / 30 + 1
    → verify_totp lib secret code now ≡ true
verify-generate lib secret code made now h early late =
    let (key, found, gives) = generated_code lib secret code made h in
    let is_code : IsCode code = rw (← gives) (generated-IsCode lib key (made / 30)) in
    let near_clock : Gives lib key code (steps_around (now / 30)) =
      rw (← gives) (near-Gives lib key (made / 30) (now / 30) early late) in
    let (step, first) = first_step-Gives lib key code (steps_around (now / 30)) near_clock in
    verify-some lib secret code now step (match_code lib secret code key now is_code found ∙ first)
