-- ===== src/Login/Stages.antt =====
-- The two stages of `handleLogin`: the password, and the code for a challenge.
use lan_qin_email.Prelude.{
  ℕ, ◌/◌, Bool, true, false, ◌&&◌, ◌||◌, not, Option, none, some, List, [], ltb, if◌then◌else◌,
}
use lan_qin_email.Prelude.Text.{Text, is_empty, trim_space}
use lan_qin_email.Prelude.Rows.{select_first, keep_rows}
use lan_qin_email.Address.{normalize_email}
use lan_qin_email.Queue.{second}
use lan_qin_email.LoginRateLimit.{
  check_login_rate_limit, record_login_failure, clear_login_account_failures,
}
use lan_qin_email.TwoFactor.{consume_totp}
use lan_qin_email.Login.{
  LoginLib, Config, Account, Token, State, Request, Answer, rate_limited, turnstile_failed, expired,
  wrong_code, wrong_password, two_factor_required, logged_in, hash_token, decrypt_totp_secret,
  verify_turnstile, email_is, id_is, issue_session, create_login_challenge, delete_login_challenge,
  login_challenge_by_token, hash_is,
}

-- `loadUserAuthByID`: the user with the decrypted secret
abbrev pub with_secret : Account → Option Text → Option (Account × Text)
with_secret u none = none
with_secret u (some secret) = some (u, secret)

abbrev pub load_secret : LoginLib → Config → Option Account → Option (Account × Text)
load_secret lib cfg none = none
load_secret lib cfg (some u) = with_secret u (decrypt_totp_secret lib cfg u.two_factor_secret)

unfoldable pub load_user_auth_by_id : LoginLib → Config → Text → State → Option (Account × Text)
load_user_auth_by_id lib cfg id s = load_secret lib cfg (select_first (id_is id) s.users)

-- the wait before a login of an account from a client
abbrev pub wait : LoginLib → Request → Text → State → ℕ
wait lib req account s =
    check_login_rate_limit lib.std lib.net req.now account req.client_ip s.limits

-- a failure is recorded, and answered by the wait where there is one
abbrev pub failed : LoginLib → Config → Request → Text → Answer → State → Answer × State
failed lib cfg req account refusal s =
    let r =
      record_login_failure lib.std lib.net cfg.driver req.now account req.client_ip s.limits in
    (if ltb 0 r.1 then rate_limited r.1 else refusal, record s { limits = r.0 })

abbrev pub clear_failures : LoginLib → Text → State → State
clear_failures lib account s = record s {
  limits = clear_login_account_failures lib.std lib.net account s.limits;
}

-- the session and the end of both stages
abbrev pub log_in : LoginLib → Config → Request → Account → State → Answer × State
log_in lib cfg req u s =
    (logged_in u.id, clear_failures lib u.email (issue_session lib cfg req u.id s))

-- `consumeTOTP` and what follows it
abbrev pub code_used : LoginLib → Config → Request → Token → Account → Bool → State → Answer × State
code_used lib cfg req c u true s = log_in lib cfg req u (delete_login_challenge c.id s)
code_used lib cfg req c u false s = failed lib cfg req u.email wrong_code s

abbrev pub consume_code : LoginLib → Request → Account → Text → State → Bool × State
consume_code lib req u secret s =
    let used =
      consume_totp lib.totp u.id secret req.two_factor_code (req.now / second) s.counters in
    (used.0, record s { counters = used.1 })

abbrev pub usable : Account → Text → Bool
usable u secret = not u.disabled && (u.two_factor_enabled && not (is_empty (trim_space secret)))

abbrev pub code_for :
    LoginLib → Config → Request → Token → Option (Account × Text) → State → Answer × State
code_for lib cfg req c none s = failed lib cfg req [] expired (delete_login_challenge c.id s)
code_for lib cfg req c (some (u, secret)) s =
    if not (usable u secret)
    then failed lib cfg req u.email expired (delete_login_challenge c.id s)
    else if ltb 0 (wait lib req u.email s)
    then (rate_limited (wait lib req u.email s), s)
    else code_used lib cfg req c u (consume_code lib req u secret s).0
        (consume_code lib req u secret s).1

abbrev pub code_with : LoginLib → Config → Request → Option Token × State → Answer × State
code_with lib cfg req (none, s) = failed lib cfg req [] expired s
code_with lib cfg req (some c, s) =
    code_for lib cfg req c (load_user_auth_by_id lib cfg c.user_id s) s

-- the stage of the code
unfoldable pub code_stage : LoginLib → Config → Request → State → Answer × State
code_stage lib cfg req s =
    if ltb 0 (wait lib req [] s)
    then (rate_limited (wait lib req [] s), s)
    else code_with lib cfg req (login_challenge_by_token lib req.now req.challenge_token s)

-- the end of the stage of the password
abbrev pub password_right : LoginLib → Config → Request → Account → State → Answer × State
password_right lib cfg req u s =
    if cfg.two_factor_enabled && u.two_factor_enabled
    then (two_factor_required req.random_token, create_login_challenge lib req u.id s)
    else log_in lib cfg req u s

-- without a user, the password is compared with a hash of no use, and the login fails as well
abbrev pub password_for :
    LoginLib → Config → Request → Text → Option Account → State → Answer × State
password_for lib cfg req email none s = failed lib cfg req email wrong_password s
password_for lib cfg req email (some u) s =
    if not (not u.disabled) || not (lib.bcrypt_matches u.password_hash req.password)
    then failed lib cfg req email wrong_password s
    else password_right lib cfg req u s

-- the stage of the password
unfoldable pub password_stage : LoginLib → Config → Request → State → Answer × State
password_stage lib cfg req s =
    let email = normalize_email lib.std req.email in
    if ltb 0 (wait lib req email s)
    then (rate_limited (wait lib req email s), s)
    else if not (verify_turnstile lib cfg req.turnstile_token req.client_ip)
    then (turnstile_failed, s)
    else password_for lib cfg req email (select_first (email_is email) s.users) s

-- `handleLogin`
unfoldable pub handle_login : LoginLib → Config → Request → State → Answer × State
handle_login lib cfg req s =
    if not (is_empty (trim_space req.challenge_token))
    then code_stage lib cfg req s
    else password_stage lib cfg req s

-- `handleLogout` for the cookie of a session
unfoldable pub handle_logout : LoginLib → Text → State → State
handle_logout lib cookie s = record s {
  sessions = keep_rows (λ t. not (hash_is (hash_token lib cookie) t)) s.sessions;
}

-- the row of the `SELECT` of `authenticateRequest`
abbrev pub live_session : LoginLib → ℕ → Text → Token → Bool
live_session lib now cookie t = hash_is (hash_token lib cookie) t && ltb now t.expires_at

abbrev pub enabled : Option Account → Option Account
enabled none = none
enabled (some u) = if u.disabled then none else some u

abbrev pub user_of : List Account → Option Token → Option Account
user_of users none = none
user_of users (some t) = enabled (select_first (id_is t.user_id) users)

-- `authenticateRequest` for a cookie
unfoldable pub authenticate_request : LoginLib → ℕ → Text → State → Option Account
authenticate_request lib now cookie s =
    if is_empty cookie
    then none
    else user_of s.users (select_first (live_session lib now cookie) s.sessions)
