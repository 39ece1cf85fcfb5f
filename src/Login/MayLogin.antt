-- ===== src/Login/MayLogin.antt =====
-- Who is given a session, against `handleLogin`.
use lan_qin_email.Prelude.{
  ◌≡◌, refl, sym, ap, ◌∙◌, true, false, not, none, some, [], ltb, if◌then◌else◌, arith, ◌↔◌, inl,
  inr, Bool-cases, Option-cases,
}
use lan_qin_email.Prelude.Text.{Text, text_eq_iff, is_empty, trim_space}
use lan_qin_email.Prelude.Rows.{select_first}
use lan_qin_email.Prelude.Members.{IsKey-eq, Memᴰ-select_first, select_first-only}
use mathlib.Core.List.{Memᴰ}
use lan_qin_email.Address.{normalize_email}
use lan_qin_email.Login.{
  LoginLib, Config, Account, Token, State, Request, Answer, rate_limited, turnstile_failed, expired,
  wrong_password, hash_token, decrypt_totp_secret, verify_turnstile, email_is, id_is,
  delete_login_challenge, login_challenge_by_token, hash_is,
}
use lan_qin_email.Login.Stages.{
  load_user_auth_by_id, wait, failed, code_for, code_with, code_stage, password_for, password_stage,
  handle_login,
}
use lan_qin_email.Login.Conditions.{
  user_logged_in, MayLogin, by_password, by_code, IsLogin, after_password, after_code, IsWellFormed,
  usable-enabled, Gives, else_only, failed-user_logged_in, code_for_iff, password_for_iff,
}

module _ (lib : LoginLib) (cfg : Config) (req : Request) where
  module _ (s : State) (user : Text) where
    password_tests :
        (email : Text)
        → Gives
            (if ltb 0 (wait lib req email s)
              then (rate_limited (wait lib req email s), s)
              else if not (verify_turnstile lib cfg req.turnstile_token req.client_ip)
              then (turnstile_failed, s)
              else password_for lib cfg req email (select_first (email_is email) s.users) s)
            user
          ↔ ((ltb 0 (wait lib req email s) ≡ false)
              × (verify_turnstile lib cfg req.turnstile_token req.client_ip ≡ true)
              × Gives
                  (password_for lib cfg req email (select_first (email_is email) s.users) s)
                  user)
    password_tests email =
        let checked = password_for lib cfg req email (select_first (email_is email) s.users) s in
        let human = verify_turnstile lib cfg req.turnstile_token req.client_ip in
        let outer =
          else_only (ltb 0 (wait lib req email s)) (rate_limited (wait lib req email s), s)
            (if not human then (turnstile_failed, s) else checked) user refl in
        let inner = else_only (not human) (turnstile_failed, s) checked user refl in
        (
          λ g. let (a, g1) = outer.0 g in let (b, g2) = inner.0 g1 in (a, ground arith, g2),
          λ (a, b, g). outer.1 (a, inner.1 (rw b refl, g)),
        )

    password_sound :
        is_empty (trim_space req.challenge_token) ≡ true
        → Gives (password_stage lib cfg req s) user
        → MayLogin lib cfg req s user
    unfolding password_stage
    password_sound blank g =
        let email = normalize_email lib.std req.email in
        let (a, b, g1) = (password_tests email).0 g in
        elim (Option-cases (select_first (email_is email) s.users)) [
          | inl nobody ↦ absurd (
              let n = failed-user_logged_in lib cfg req email wrong_password s refl in
              let k : Gives (password_for lib cfg req email none s) user = rw nobody at g1 in cc)
          | inr (u, found) ↦
              let (m, h) = Memᴰ-select_first (email_is email) s.users u found in
              let (d, p, f, e) = (password_for_iff lib cfg req email u s user).0 (rw found at g1) in
              by_password u blank m ((text_eq_iff u.email email).0 h) e d p f b a
        ]

    not_failed :
        (account : Text) (refusal : Answer) (t : State)
        → user_logged_in refusal ≡ none
        → Gives (failed lib cfg req account refusal t) user
        → MayLogin lib cfg req s user
    not_failed account refusal t h g =
        absurd (let n = failed-user_logged_in lib cfg req account refusal t h in cc)

    code_for_sound :
        (c : Token)
        → is_empty (trim_space req.challenge_token) ≡ false
        → ltb 0 (wait lib req [] s) ≡ false
        → Memᴰ c s.challenges
        → c.token_hash ≡ hash_token lib req.challenge_token
        → ltb req.now c.expires_at ≡ true
        → Gives (code_for lib cfg req c (load_user_auth_by_id lib cfg c.user_id s) s) user
        → MayLogin lib cfg req s user
    unfolding load_user_auth_by_id
    code_for_sound c given a m e live g =
        elim (Option-cases (select_first (id_is c.user_id) s.users)) [
          | inl nobody ↦ not_failed [] expired (delete_login_challenge c.id s) refl (rw nobody at g)
          | inr (u, found) ↦ elim (Option-cases (decrypt_totp_secret lib cfg u.two_factor_secret)) [
            | inl closed ↦
                not_failed [] expired (delete_login_challenge c.id s) refl (rw (found, closed) at g)
            | inr (secret, opened) ↦
                let (n, h) = Memᴰ-select_first (id_is c.user_id) s.users u found in
                let (b, w, d, f) =
                  (code_for_iff lib cfg req c u secret s user).0 (rw (found, opened) at g) in
                by_code c u secret given m e live n ((text_eq_iff u.id c.user_id).0 h) f opened b d
                  a w
          ]
        ]

    code_sound :
        is_empty (trim_space req.challenge_token) ≡ false
        → Gives (code_stage lib cfg req s) user
        → MayLogin lib cfg req s user
    unfolding code_stage login_challenge_by_token load_user_auth_by_id
    code_sound given g =
        let hash = hash_token lib req.challenge_token in
        let outer =
          else_only (ltb 0 (wait lib req [] s)) (rate_limited (wait lib req [] s), s)
            (code_with lib cfg req (login_challenge_by_token lib req.now req.challenge_token s))
            user refl in
        let (a, g1) = outer.0 g in
        elim (Option-cases (select_first (hash_is hash) s.challenges)) [
          | inl nothing ↦ not_failed [] expired s refl (rw nothing at g1)
          | inr (c, found) ↦ elim (Bool-cases (ltb req.now c.expires_at)) [
            | inr over ↦
                not_failed [] expired (delete_login_challenge c.id s) refl (rw (found, over) at g1)
            | inl live ↦
                let (m, h) = Memᴰ-select_first (hash_is hash) s.challenges c found in
                code_for_sound c given a m ((text_eq_iff c.token_hash hash).0 h) live
                  (rw (found, live) at g1)
          ]
        ]

    -- the end of a login that the conditions allow
    pub MayLogin-handle_login :
        IsWellFormed s
        → MayLogin lib cfg req s user
        → IsLogin lib cfg req s user (handle_login lib cfg req s)
    unfolding handle_login password_stage code_stage login_challenge_by_token load_user_auth_by_id
    MayLogin-handle_login w (by_password u blank m e f d p t v a) =
        let email = normalize_email lib.std req.email in
        let found =
          select_first-only (email_is email) s.users u m ((text_eq_iff u.email email).1 e) (λ z n h.
            IsKey-eq (λ (y : Account). y.email) s.users z u w.emails n m
              ((text_eq_iff z.email email).0 h ∙ sym e)) in
        after_password u blank m d f (rw (blank, a, v, found, d, p, t) refl)
    MayLogin-handle_login w (by_code c u secret given m e live n f g o b d a v) =
        let hash = hash_token lib req.challenge_token in
        let challenge =
          select_first-only (hash_is hash) s.challenges c m ((text_eq_iff c.token_hash hash).1 e)
            (λ z k h.
              IsKey-eq (λ (y : Token). y.token_hash) s.challenges z c w.hashes k m
                ((text_eq_iff z.token_hash hash).0 h ∙ sym e)) in
        let found =
          select_first-only (id_is c.user_id) s.users u n ((text_eq_iff u.id c.user_id).1 f)
            (λ z k h.
              IsKey-eq (λ (y : Account). y.id) s.users z u w.ids k n
                ((text_eq_iff z.id c.user_id).0 h ∙ sym f)) in
        after_code c u secret m e n (usable-enabled u secret b) g
          (rw (given, a, challenge, live, found, o, b, v, d) refl)

    complete :
        IsWellFormed s → MayLogin lib cfg req s user → Gives (handle_login lib cfg req s) user
    complete w h = elim (MayLogin-handle_login w h) [
      | after_password u blank m d f e ↦
          ap (λ (r : Answer × State). user_logged_in r.0) e ∙ ap some f
      | after_code c u secret m k n d f e ↦
          ap (λ (r : Answer × State). user_logged_in r.0) e ∙ ap some f
    ]

pub login_sound :
    (lib : LoginLib) (cfg : Config) (req : Request) (s : State) (user : Text)
    → user_logged_in (handle_login lib cfg req s).0 ≡ some user
    → MayLogin lib cfg req s user
unfolding handle_login
login_sound lib cfg req s user g = elim (Bool-cases (is_empty (trim_space req.challenge_token))) [
  | inl blank ↦ password_sound lib cfg req s user blank (rw blank at g)
  | inr given ↦ code_sound lib cfg req s user given (rw given at g)
]

-- A login gives a session to a user exactly when the user may log in: without a challenge, with the
-- password of an account that is not disabled, that no limit blocks, behind the check for robots, and
-- whose second factor is off; or with a live challenge of such an account, its second factor on, and a
-- code that is matched and was not used before. The unique columns of the tables hold no value twice.
pub login-MayLogin :
    (lib : LoginLib) (cfg : Config) (req : Request) (s : State) (user : Text)
    → IsWellFormed s
    → (user_logged_in (handle_login lib cfg req s).0 ≡ some user) ↔ MayLogin lib cfg req s user
login-MayLogin lib cfg req s user w =
    (login_sound lib cfg req s user, complete lib cfg req s user w)
