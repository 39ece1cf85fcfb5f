-- ===== src/Login/Tests.antt =====
-- Concrete logins: ann has a password only, and bob a second factor as well.
use lan_qin_email.Prelude.{
  ◌*◌, ◌+◌, ltb, if◌then◌else◌, ◌≡◌, ◌≢◌, refl, sym, ◌∙◌, Bool, true, false, none, some, [], ◌∷◌,
  ◌++◌, ◌↔◌,
}
use lan_qin_email.Prelude.Text.{
  Text, codes, text_eq, text_eq_iff, trim_space, trim_by, trim_left, trim_right, is_space,
  starts_with,
}
use lan_qin_email.Prelude.Rows.{select_first}
use lan_qin_email.Std.Ascii.{ascii}
use lan_qin_email.Address.{normalize_email}
use lan_qin_email.Queue.{second, minute, hour}
use lan_qin_email.LoginRateLimit
use lan_qin_email.LoginRateLimit.{
  NetLib, check_login_rate_limit, check_loop, login_rate_limit_subjects, login_rate_limit_hash,
  normalize_login_client_ip, lookup,
}
use lan_qin_email.TwoFactor.{
  consume_totp, match_totp_counter, all_digits, first_step, decode_totp_secret,
  generate_totp_for_counter, six_digits, big_endian_4, big_endian_8,
}
use lan_qin_email.Login.{
  LoginLib, Config, Account, State, Request, decrypt_totp_secret, verify_turnstile,
  login_challenge_by_token,
}
use lan_qin_email.Login.Stages.{
  load_user_auth_by_id, code_stage, password_stage, handle_login, handle_logout,
  authenticate_request,
}
use lan_qin_email.Login.Conditions.{IsWellFormed, MayLogin, user_logged_in}
use lan_qin_email.Login.MayLogin.{login-MayLogin}
use lan_qin_email.Login.Once.{challenge-spent, session-authenticate_request}

abbrev lib : LoginLib
lib = record {
  std = ascii;
  net = record { split_host_port = λ addr. none; parse_ip = λ addr. none; sha256_hex = λ s. s };
  totp = record {
    upper = λ c. c;
    base32_decode = λ s. some s;
    hmac_sha1 = λ key message. message ++ 0 ∷ 0 ∷ 0 ∷ 0 ∷ 0 ∷ 0 ∷ 0 ∷ 0 ∷ 0 ∷ 0 ∷ 0 ∷ 4 ∷ [];
  };
  bcrypt_matches = text_eq;
  sha256 = λ s. s;
  gcm_open = λ key raw. none;
  turnstile_accepts = λ token client. false;
}

abbrev cfg : Config
cfg = record {
  driver = LoginRateLimit.Driver.sqlite;
  two_factor_enabled = true;
  turnstile_enabled = false;
  turnstile_secret_key = [];
  notification_secret_key = [];
  session_ttl_hours = 24;
}

abbrev ann : Account
ann = record {
  id = codes "ann";
  email = codes "ann@b.c";
  password_hash = codes "pw";
  disabled = false;
  two_factor_enabled = false;
  two_factor_secret = [];
}

abbrev bob : Account
bob = record {
  id = codes "bob";
  email = codes "bob@b.c";
  password_hash = codes "pw";
  disabled = false;
  two_factor_enabled = true;
  two_factor_secret = codes "KEY";
}

abbrev state : State
state = record {
  users = ann ∷ bob ∷ [];
  counters = λ id. some 2;
  sessions = [];
  challenges =
      record {
        id = codes "c1";
        user_id = codes "bob";
        token_hash = codes "t1";
        expires_at = 400 * second;
      }
      ∷ [];
  limits = [];
}

abbrev request : Request
request = record {
  email = codes "ann@b.c";
  password = codes "pw";
  turnstile_token = [];
  challenge_token = [];
  two_factor_code = [];
  client_ip = codes "::1";
  now = 120 * second;
  new_id = codes "new";
  random_token = codes "random";
}

abbrev code_request : Request
code_request = record request { challenge_token = codes "t1"; two_factor_code = codes "000003" }

apart : (s t : Text) → text_eq s t ≡ false → s ≢ t
apart s t h e = absurd (let k : ◌≡◌ {A = Bool} true false = sym ((text_eq_iff s t).1 e) ∙ h in cc)

state-IsWellFormed : IsWellFormed state
unfolding text_eq
state-IsWellFormed = record {
  emails = ((apart (codes "bob@b.c") (codes "ann@b.c") refl, tt), (tt, tt));
  ids = ((apart (codes "bob") (codes "ann") refl, tt), (tt, tt));
  hashes = (tt, tt);
}

ann_logs_in : user_logged_in (handle_login lib cfg request state).0 ≡ some (codes "ann")
unfolding handle_login password_stage trim_space trim_by trim_left trim_right is_space
    normalize_email check_login_rate_limit check_loop login_rate_limit_subjects
    login_rate_limit_hash normalize_login_client_ip lookup verify_turnstile select_first text_eq
ann_logs_in = refl

bob_logs_in : user_logged_in (handle_login lib cfg code_request state).0 ≡ some (codes "bob")
unfolding handle_login code_stage trim_space trim_by trim_left trim_right is_space normalize_email
    check_login_rate_limit check_loop login_rate_limit_subjects login_rate_limit_hash
    normalize_login_client_ip lookup select_first text_eq login_challenge_by_token
    load_user_auth_by_id decrypt_totp_secret starts_with consume_totp match_totp_counter all_digits
    first_step decode_totp_secret generate_totp_for_counter six_digits big_endian_4 big_endian_8
bob_logs_in = refl

login-MayLogin_example :
    (user_logged_in (handle_login lib cfg request state).0 ≡ some (codes "ann"))
    ↔ MayLogin lib cfg request state (codes "ann")
login-MayLogin_example = login-MayLogin lib cfg request state (codes "ann") state-IsWellFormed

challenge-spent_example :
    user_logged_in (handle_login lib cfg code_request (handle_login lib cfg code_request state).1).0
    ≡ none
unfolding trim_space trim_by trim_left trim_right is_space
challenge-spent_example =
    challenge-spent lib cfg code_request code_request state (codes "bob") state-IsWellFormed refl
      refl bob_logs_in

session-authenticate_request_example :
    let s' = (handle_login lib cfg request state).1 in
    (u : Account) × (u.id ≡ codes "ann")
    × (authenticate_request lib (60 * minute) (codes "random") s'
        ≡ (if ltb (60 * minute) (request.now + cfg.session_ttl_hours * hour) then some u else none))
    × (authenticate_request lib
          (60 * minute)
          (codes "random")
          (handle_logout lib (codes "random") s')
        ≡ none)
session-authenticate_request_example =
    session-authenticate_request lib cfg request state (codes "ann") (60 * minute)
      state-IsWellFormed refl refl ann_logs_in
