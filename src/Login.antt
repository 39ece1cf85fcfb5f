-- ===== src/Login.antt =====
-- Logging in: `handleLogin` of auth_handlers.go in both of its stages, the challenges between them, the
-- sessions that it issues, and the authentication of a request by its session. An instant is a number
-- of nanoseconds. A failing database call ends a handler with a server error and is not modelled, nor
-- is the load of a user's permissions. A handler reads the clock once.
pub mod Stages
pub mod Conditions
pub mod MayLogin
pub mod Once
mod Tests
use lan_qin_email.Prelude.{
  ℕ, ◌+◌, ◌*◌, ◌/◌, Bool, true, false, ◌&&◌, ◌||◌, not, Option, none, some, List, [], ◌∷◌, ◌++◌,
  ltb, if◌then◌else◌, length, drop,
}
use lan_qin_email.Prelude.Text.{Text, codes, text_eq, is_empty, trim_space, starts_with}
use lan_qin_email.Prelude.Rows.{select_first, keep_rows}
use lan_qin_email.Std.{Std}
use lan_qin_email.Address.{normalize_email}
use lan_qin_email.Queue.{second, minute, hour}
use lan_qin_email.LoginRateLimit
use lan_qin_email.TwoFactor.{TotpLib, Users, consume_totp}

-- what is taken from other libraries: `bcrypt.CompareHashAndPassword`, SHA-256, the opening of AES-GCM
-- behind its nonce, and the answer of the Turnstile service for a token and a client
pub record LoginLib : Type 0 where
  pub std : Std
  pub net : LoginRateLimit.NetLib
  pub totp : TotpLib
  pub bcrypt_matches : Text → Text → Bool
  pub sha256 : Text → Text
  pub gcm_open : Text → Text → Option Text
  pub turnstile_accepts : Text → Text → Bool

pub record Config : Type 0 where
  pub driver : LoginRateLimit.Driver
  pub two_factor_enabled : Bool
  pub turnstile_enabled : Bool
  pub turnstile_secret_key : Text
  pub notification_secret_key : Text
  pub session_ttl_hours : ℕ

-- what the login reads of a row of `users`
pub record Account : Type 0 where
  pub id : Text
  pub email : Text
  pub password_hash : Text
  pub disabled : Bool
  pub two_factor_enabled : Bool
  pub two_factor_secret : Text

-- a row of `sessions` or of `login_challenges`
pub record Token : Type 0 where
  pub id : Text
  pub user_id : Text
  pub token_hash : Text
  pub expires_at : ℕ

pub record State : Type 0 where
  pub users : List Account
  pub counters : Users
  pub sessions : List Token
  pub challenges : List Token
  pub limits : List LoginRateLimit.Row

-- the request, with its client, its instant, and the id and the token that are drawn for it
pub record Request : Type 0 where
  pub email : Text
  pub password : Text
  pub turnstile_token : Text
  pub challenge_token : Text
  pub two_factor_code : Text
  pub client_ip : Text
  pub now : ℕ
  pub new_id : Text
  pub random_token : Text

pub data Answer : Type 0 where
  rate_limited : ℕ → Answer
  turnstile_failed expired wrong_code wrong_password : Answer
  -- the token of a challenge, and the user of a session
  two_factor_required logged_in : Text → Answer

-- `hashToken`
abbrev pub hash_token : LoginLib → Text → Text
hash_token lib token = lib.net.sha256_hex token

abbrev pub totp_secret_encryption_prefix : Text
totp_secret_encryption_prefix = codes "enc:v1:"

-- `totpSecretEncryptionKey`
abbrev pub totp_secret_encryption_key : LoginLib → Config → Option Text
totp_secret_encryption_key lib cfg =
    let trimmed = trim_space cfg.notification_secret_key in
    if is_empty trimmed then none else some (lib.sha256 (codes "lanqin-totp-seed" ++ 0 ∷ trimmed))

abbrev pub open_secret : LoginLib → Option Text → Option Text → Option Text
open_secret lib none raw = none
open_secret lib (some key) none = none
open_secret lib (some key) (some raw) = lib.gcm_open key raw

-- `decryptTOTPSecret`
unfoldable pub decrypt_totp_secret : LoginLib → Config → Text → Option Text
decrypt_totp_secret lib cfg stored =
    if not (starts_with totp_secret_encryption_prefix stored)
    then some stored
    else open_secret lib (totp_secret_encryption_key lib cfg)
        (lib.std.base64_decode (drop (length totp_secret_encryption_prefix) stored))

-- `verifyTurnstile`
unfoldable pub verify_turnstile : LoginLib → Config → Text → Text → Bool
verify_turnstile lib cfg raw client_ip =
    let token = trim_space raw in
    if not cfg.turnstile_enabled
    then true
    else if is_empty (trim_space cfg.turnstile_secret_key) || is_empty token
    then false
    else lib.turnstile_accepts token client_ip

abbrev pub email_is : Text → Account → Bool
email_is email u = text_eq u.email email

abbrev pub id_is : Text → Account → Bool
id_is id u = text_eq u.id id

abbrev pub hash_is : Text → Token → Bool
hash_is hash t = text_eq t.token_hash hash

abbrev pub other_id : Text → Token → Bool
other_id id t = not (text_eq t.id id)

-- `issueSession`: a token hash that is taken breaks a constraint, which is not modelled
abbrev pub issue_session : LoginLib → Config → Request → Text → State → State
issue_session lib cfg req user s = record s {
  sessions =
      s.sessions
      ++ record {
        id = req.new_id;
        user_id = user;
        token_hash = hash_token lib req.random_token;
        expires_at = req.now + cfg.session_ttl_hours * hour;
      }
        ∷ [];
}

-- `createLoginChallenge`
abbrev pub create_login_challenge : LoginLib → Request → Text → State → State
create_login_challenge lib req user s = record s {
  challenges =
      s.challenges
      ++ record {
        id = req.new_id;
        user_id = user;
        token_hash = hash_token lib req.random_token;
        expires_at = req.now + 5 * minute;
      }
        ∷ [];
}

-- `deleteLoginChallenge`
abbrev pub delete_login_challenge : Text → State → State
delete_login_challenge id s = record s { challenges = keep_rows (other_id id) s.challenges }

abbrev pub unexpired_or_deleted : ℕ → Option Token → State → Option Token × State
unexpired_or_deleted now none s = (none, s)
unexpired_or_deleted now (some c) s =
    if not (ltb now c.expires_at) then (none, delete_login_challenge c.id s) else (some c, s)

-- `loginChallengeByToken`; the expiry of a row is never the zero instant
unfoldable pub login_challenge_by_token : LoginLib → ℕ → Text → State → Option Token × State
login_challenge_by_token lib now token s =
    unexpired_or_deleted now (select_first (hash_is (hash_token lib token)) s.challenges) s
