-- ===== src/Login/Conditions.antt =====
-- The conditions of a login, and the tests of both stages of `handleLogin` against them.
use lan_qin_email.Prelude.{
  ◌/◌, ◌≡◌, refl, ap, Bool, true, false, ◌&&◌, ◌||◌, not, Option, none, some, [], ltb,
  if◌then◌else◌, arith, ◌↔◌, if_keeps,
}
use lan_qin_email.Prelude.Text.{Text, is_empty, trim_space}
use lan_qin_email.Prelude.Members.{IsKey}
use mathlib.Core.List.{Memᴰ}
use lan_qin_email.Address.{normalize_email}
use lan_qin_email.Queue.{second}
use lan_qin_email.LoginRateLimit.{record_login_failure}
use lan_qin_email.TwoFactor.{consume_totp}
use lan_qin_email.Login.{
  LoginLib, Config, Account, Token, State, Request, Answer, rate_limited, expired, wrong_code,
  wrong_password, two_factor_required, logged_in, hash_token, decrypt_totp_secret, verify_turnstile,
  create_login_challenge, delete_login_challenge,
}
use lan_qin_email.Login.Stages.{
  wait, failed, log_in, code_used, consume_code, usable, code_for, password_right, password_for,
}

-- the user to whom an answer gives a session
abbrev pub user_logged_in : Answer → Option Text
user_logged_in (logged_in user) = some user
user_logged_in _ = none

-- The conditions of a login, for each of the two ways to a session.
pub data MayLogin (lib : LoginLib) (cfg : Config) (req : Request) (s : State) (user : Text)
    : Type 0 where
  by_password :
      (u : Account)
      → is_empty (trim_space req.challenge_token) ≡ true
      → Memᴰ u s.users
      → u.email ≡ normalize_email lib.std req.email
      → u.id ≡ user
      → u.disabled ≡ false
      → lib.bcrypt_matches u.password_hash req.password ≡ true
      → (cfg.two_factor_enabled && u.two_factor_enabled) ≡ false
      → verify_turnstile lib cfg req.turnstile_token req.client_ip ≡ true
      → ltb 0 (wait lib req (normalize_email lib.std req.email) s) ≡ false
      → MayLogin lib cfg req s user
  by_code :
      (c : Token) (u : Account) (secret : Text)
      → is_empty (trim_space req.challenge_token) ≡ false
      → Memᴰ c s.challenges
      → c.token_hash ≡ hash_token lib req.challenge_token
      → ltb req.now c.expires_at ≡ true
      → Memᴰ u s.users
      → u.id ≡ c.user_id
      → u.id ≡ user
      → decrypt_totp_secret lib cfg u.two_factor_secret ≡ some secret
      → usable u secret ≡ true
      → (consume_totp lib.totp u.id secret req.two_factor_code (req.now / second) s.counters).0
        ≡ true
      → ltb 0 (wait lib req [] s) ≡ false
      → ltb 0 (wait lib req u.email s) ≡ false
      → MayLogin lib cfg req s user

-- the result of a login that gives a session, for each of the two ways
pub data IsLogin (lib : LoginLib) (cfg : Config) (req : Request) (s : State) (user : Text)
    (r : Answer × State) : Type 0 where
  after_password :
      (u : Account)
      → is_empty (trim_space req.challenge_token) ≡ true
      → Memᴰ u s.users
      → u.disabled ≡ false
      → u.id ≡ user
      → r ≡ log_in lib cfg req u s
      → IsLogin lib cfg req s user r
  after_code :
      (c : Token) (u : Account) (secret : Text)
      → Memᴰ c s.challenges
      → c.token_hash ≡ hash_token lib req.challenge_token
      → Memᴰ u s.users
      → u.disabled ≡ false
      → u.id ≡ user
      → r ≡ log_in lib cfg req u (delete_login_challenge c.id (consume_code lib req u secret s).1)
      → IsLogin lib cfg req s user r

-- the unique columns of `users` and `login_challenges`
pub record IsWellFormed (s : State) : Type 0 where
  pub emails : IsKey (λ (u : Account). u.email) s.users
  pub ids : IsKey (λ (u : Account). u.id) s.users
  pub hashes : IsKey (λ (c : Token). c.token_hash) s.challenges

pub usable-enabled : (u : Account) (secret : Text) → usable u secret ≡ true → u.disabled ≡ false
usable-enabled u secret h = ground arith

-- whether a result gives a session to a user
abbrev pub Gives : Answer × State → Text → Type 0
Gives r user = user_logged_in r.0 ≡ some user

-- a test whose first branch gives no session
pub else_only :
    (b : Bool) (x y : Answer × State) (user : Text)
    → user_logged_in x.0 ≡ none
    → Gives (if b then x else y) user ↔ ((b ≡ false) × Gives y user)
else_only true x y user h = (λ g. absurd (cc), λ (e, g). absurd (cc))
else_only false x y user h = (λ g. (refl, g), λ (e, g). g)

module _ (lib : LoginLib) (cfg : Config) (req : Request) where
  pub failed-user_logged_in :
      (account : Text) (refusal : Answer) (s : State)
      → user_logged_in refusal ≡ none
      → user_logged_in (failed lib cfg req account refusal s).0 ≡ none
  failed-user_logged_in account refusal s h =
      if_keeps (λ a. user_logged_in a ≡ none)
        (ltb 0
          (record_login_failure lib.std lib.net cfg.driver req.now account req.client_ip
            s.limits).1)
        (λ k. refl) (λ k. h)

  code_used_iff :
      (c : Token) (u : Account) (b : Bool) (s : State) (user : Text)
      → Gives (code_used lib cfg req c u b s) user ↔ ((b ≡ true) × (u.id ≡ user))
  code_used_iff c u true s user = (λ g. (refl, cc g), λ (e, g). ap some g)
  code_used_iff c u false s user = (
    λ g. absurd (let n = failed-user_logged_in u.email wrong_code s refl in cc),
    λ (e, g). absurd (cc),
  )

  pub code_for_iff :
      (c : Token) (u : Account) (secret : Text) (s : State) (user : Text)
      → Gives (code_for lib cfg req c (some (u, secret)) s) user ↔ (
          (usable u secret ≡ true)
          × (ltb 0 (wait lib req u.email s) ≡ false)
          × ((consume_code lib req u secret s).0 ≡ true)
          × (u.id ≡ user))
  code_for_iff c u secret s user =
      let checked =
        if ltb 0 (wait lib req u.email s)
        then (rate_limited (wait lib req u.email s), s)
        else code_used lib cfg req c u (consume_code lib req u secret s).0
            (consume_code lib req u secret s).1 in
      let refused = failed lib cfg req u.email expired (delete_login_challenge c.id s) in
      let outer =
        else_only (not (usable u secret)) refused checked user
          (failed-user_logged_in u.email expired (delete_login_challenge c.id s) refl) in
      let inner =
        else_only (ltb 0 (wait lib req u.email s)) (rate_limited (wait lib req u.email s), s)
          (code_used lib cfg req c u (consume_code lib req u secret s).0
            (consume_code lib req u secret s).1)
          user refl in
      let last =
        code_used_iff c u (consume_code lib req u secret s).0 (consume_code lib req u secret s).1
          user in
      (
        λ g.
            let (a, g1) = outer.0 g in
            let (b, g2) = inner.0 g1 in let (d, e) = last.0 g2 in (ground arith, b, d, e),
        λ (a, b, d, e). outer.1 (rw a refl, inner.1 (b, last.1 (d, e))),
      )

  pub password_for_iff :
      (email : Text) (u : Account) (s : State) (user : Text)
      → Gives (password_for lib cfg req email (some u) s) user ↔ (
          (u.disabled ≡ false)
          × (lib.bcrypt_matches u.password_hash req.password ≡ true)
          × ((cfg.two_factor_enabled && u.two_factor_enabled) ≡ false)
          × (u.id ≡ user))
  password_for_iff email u s user =
      let wrong = not (not u.disabled) || not (lib.bcrypt_matches u.password_hash req.password) in
      let outer =
        else_only wrong (failed lib cfg req email wrong_password s) (password_right lib cfg req u s)
          user (failed-user_logged_in email wrong_password s refl) in
      let inner =
        else_only (cfg.two_factor_enabled && u.two_factor_enabled)
          (two_factor_required req.random_token, create_login_challenge lib req u.id s)
          (log_in lib cfg req u s) user refl in
      (
        λ g.
            let (a, g1) = outer.0 g in
            let (b, g2) = inner.0 g1 in
            let (c, d) = right u.disabled (lib.bcrypt_matches u.password_hash req.password) a in
            (c, d, b, cc g2),
        λ (a, b, d, e). outer.1 (rw (a, b) refl, inner.1 (d, ap some e)),
      )
    where
      right : (d m : Bool) → (not (not d) || not m) ≡ false → (d ≡ false) × (m ≡ true)
      right d m h = ground arith
