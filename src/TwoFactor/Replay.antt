-- ===== src/TwoFactor/Replay.antt =====
-- Sequences of attempts with one-time codes, and the steps that the accepted ones burn.
use lan_qin_email.Prelude.{
  ℕ, ◌<◌, ◌≡◌, refl, inl, inr, Bool, true, false, Option, none, some, List, [], ◌∷◌, arith, ltb,
  Bool-cases, ltb→lt,
}
use lan_qin_email.Prelude.Text.{Text, text_eq, text_eq_refl, text_eq_iff}
use lan_qin_email.TwoFactor.{TotpLib, Users, burn, burn_match, consume_totp, match_totp_counter}

pub record Attempt : Type 0 where
  pub user : Text
  pub secret : Text
  pub code : Text
  pub now : ℕ

-- each number is above the one before it, the first above a bound
abbrev pub IsRising : ℕ → List ℕ → Type 0
IsRising n [] = Unit
IsRising n (x ∷ xs) = n < x × IsRising x xs

-- a step that an attempt of the user has burnt, in front of later ones
abbrev pub note : Option ℕ → Bool → Bool → List ℕ → List ℕ
note none mine accepted rest = rest
note (some step) false accepted rest = rest
note (some step) true false rest = rest
note (some step) true true rest = step ∷ rest

text_eq-apart : (s t : Text) → text_eq s t ≡ false → text_eq t s ≡ false
text_eq-apart s t h = ground (arith, text_eq_iff s t, text_eq_iff t s)

-- an attempt of somebody else leaves a user's step
burn-other :
    (user other : Text) (step last : ℕ) (o : Option ℕ) (users : Users)
    → text_eq other user ≡ false
    → users user ≡ some last
    → (burn other step o users).1 user ≡ some last
burn-other user other step last none users apart here = here
burn-other user other step last (some l) users apart here = elim (Bool-cases (ltb l step)) [
  | inl newer ↦ rw (newer, text_eq-apart other user apart) here
  | inr old ↦ rw old here
]

module _ (user : Text) (rest : Users → List ℕ) where
  -- what is left of a sequence of attempts rises from the step it finds
  abbrev Rises : Type 0
  Rises = (last : ℕ) (users : Users) → users user ≡ some last → IsRising last (rest users)

  mine-IsRising :
      (step last : ℕ) (users : Users)
      → Rises
      → users user ≡ some last
      → IsRising last (
          note
            (some step)
            true
            (burn user step (some last) users).0
            (rest (burn user step (some last) users).1))
  mine-IsRising step last users rises here = elim (Bool-cases (ltb last step)) [
    | inl newer ↦ rw newer (ltb→lt last step newer, rises step _ (rw (text_eq_refl user) refl))
    | inr old ↦ rw old (rises last users here)
  ]

  attempt-IsRising :
      (by : Text) (o : Option ℕ) (last : ℕ) (users : Users)
      → Rises
      → users user ≡ some last
      → IsRising last
          (note o (text_eq by user) (burn_match by o users).0 (rest (burn_match by o users).1))
  attempt-IsRising by none last users rises here = rises last users here
  attempt-IsRising by (some step) last users rises here = elim (Bool-cases (text_eq by user)) [
    | inl same ↦
        let e : by ≡ user = (text_eq_iff by user).0 same in
        rw (same, e, here) (mine-IsRising step last users rises here)
    | inr other ↦ rw other (rises last _ (burn-other user by step last (users by) users other here))
  ]

module _ (lib : TotpLib) where
  -- the steps that a user's accepted attempts burn, in the order of the attempts
  unfoldable pub accepted : Text → List Attempt → Users → List ℕ
  accepted user [] users = []
  accepted user (a ∷ attempts) users =
      let result = consume_totp lib a.user a.secret a.code a.now users in
      note (match_totp_counter lib a.secret a.code a.now) (text_eq a.user user) result.0
        (accepted user attempts result.1)

  -- Whatever codes are presented in whatever order, by the user or by others, the steps of the codes
  -- that are accepted for the user rise strictly from the step stored for him: no code is accepted
  -- a second time, and none of an earlier step after it.
  pub accepted-IsRising :
      (user : Text) (attempts : List Attempt) (last : ℕ) (users : Users)
      → users user ≡ some last
      → IsRising last (accepted user attempts users)
  unfolding accepted consume_totp
  accepted-IsRising user [] last users here = tt
  accepted-IsRising user (a ∷ attempts) last users here =
      attempt-IsRising user (accepted user attempts) a.user
        (match_totp_counter lib a.secret a.code a.now) last users
        (λ l us h. accepted-IsRising user attempts l us h) here
