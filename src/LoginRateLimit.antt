-- ===== src/LoginRateLimit.antt =====
-- The limits on failed logins of login_rate_limit.go: the table `login_rate_limits`, the subjects
-- that a login counts for, recording a failure, the wait before the next attempt and its clearing.
-- An instant is a number of nanoseconds since 1970, more than a day of them; SQL compares the stored
-- instants. A failing database call ends each function with its error; it is not modelled.
pub mod Table
pub mod Lock
mod Tests
use lan_qin_email.Prelude.{
  ℕ, ◌+◌, ◌-◌, ◌*◌, ◌/◌, Bool, true, false, ◌&&◌, Option, none, some, List, [], ◌∷◌, ◌++◌, ◌||◌,
  ◌==◌, leb, ltb, if◌then◌else◌,
}
use lan_qin_email.Prelude.Text.{Text, codes, text_eq, is_empty, trim_space, trim_by}
use lan_qin_email.Std.{Std}
use lan_qin_email.Address.{normalize_email, to_lower}
use lan_qin_email.Queue.{second, minute, hour}

-- what else is taken from Go's library: the host of `net.SplitHostPort`, `net.ParseIP` followed by
-- `String`, and the hexadecimal SHA-256 of a text
pub record NetLib : Type 0 where
  pub split_host_port : Text → Option Text
  pub parse_ip : Text → Option Text
  pub sha256_hex : Text → Text

abbrev pub account_scope : Text
account_scope = codes "account"

abbrev pub ip_scope : Text
ip_scope = codes "ip"

abbrev pub account_failures : ℕ
account_failures = 5

abbrev pub ip_failures : ℕ
ip_failures = 20

abbrev pub window : ℕ
window = 15 * minute

abbrev pub lock_duration : ℕ
lock_duration = 15 * minute

abbrev pub retention : ℕ
retention = 24 * hour

pub record Subject : Type 0 where
  pub scope : Text
  pub hash : Text
  pub limit : ℕ

-- a row of `login_rate_limits`, whose key is its first two columns; an empty `blocked_until` is
-- `none`
pub record Row : Type 0 where
  pub scope : Text
  pub subject_hash : Text
  pub failure_count : ℕ
  pub window_started_at : ℕ
  pub blocked_until : Option ℕ
  pub updated_at : ℕ

pub data Driver : Type 0 where
  sqlite mysql postgres : Driver

abbrev is_bracket : ℕ → Bool
is_bracket c = c == b'[' || c == b']'

-- the address behind the port and the brackets
abbrev host_of : Option Text → Text → Text
host_of none addr = addr
host_of (some host) addr = host

-- the end of `normalizeLoginClientIP`
abbrev canonical_ip : Std → Option Text → Text → Text
canonical_ip std (some ip) addr = ip
canonical_ip std none addr = if is_empty addr then codes "unknown" else to_lower std addr

unfoldable pub normalize_login_client_ip : Std → NetLib → Text → Text
normalize_login_client_ip std net remote =
    let addr = trim_space remote in
    let host = trim_by is_bracket (host_of (net.split_host_port addr) addr) in
    canonical_ip std (net.parse_ip host) host

unfoldable pub login_rate_limit_hash : NetLib → Text → Text → Text
login_rate_limit_hash net scope value =
    net.sha256_hex (codes "lanqin-login-rate-limit" ++ 0 ∷ scope ++ 0 ∷ value)

unfoldable pub login_rate_limit_subjects : Std → NetLib → Text → Text → List Subject
login_rate_limit_subjects std net account client_ip =
    let name = normalize_email std account in
    (if is_empty name
      then []
      else record {
        scope = account_scope;
        hash = login_rate_limit_hash net account_scope name;
        limit = account_failures;
      }
        ∷ [])
    ++ record {
      scope = ip_scope;
      hash = login_rate_limit_hash net ip_scope (normalize_login_client_ip std net client_ip);
      limit = ip_failures;
    }
      ∷ []

abbrev pub key_is : Subject → Row → Bool
key_is s r = text_eq r.scope s.scope && text_eq r.subject_hash s.hash

-- `SELECT … WHERE scope=? AND subject_hash=?`
unfoldable pub lookup : Subject → List Row → Option Row
lookup s [] = none
lookup s (r ∷ rs) = let rest = lookup s rs in if key_is s r then some r else rest

-- the time that is left of a block; an empty `blocked_until` is parsed as the zero instant, and a
-- negative rest is never above the wait found so far
abbrev pub remaining : ℕ → Option Row → ℕ
remaining now none = 0
remaining now (some r) = elim r.blocked_until [ none ↦ 0 | some t ↦ t - now ]

-- the loop of `checkLoginRateLimit`
unfoldable pub check_loop : ℕ → List Row → List Subject → ℕ → ℕ
check_loop now rows [] retry_after = retry_after
check_loop now rows (s ∷ ss) retry_after =
    let rest = remaining now (lookup s rows) in
    check_loop now rows ss (if ltb retry_after rest then rest else retry_after)

unfoldable pub check_login_rate_limit : Std → NetLib → ℕ → Text → Text → List Row → ℕ
check_login_rate_limit std net now account client_ip rows =
    check_loop now rows (login_rate_limit_subjects std net account client_ip) 0

-- the inserted row of `upsertLoginFailure`
abbrev pub fresh_row : ℕ → Subject → Row
fresh_row now s = record {
  scope = s.scope;
  subject_hash = s.hash;
  failure_count = 1;
  window_started_at = now;
  blocked_until = none;
  updated_at = now;
}

-- `ON CONFLICT … DO UPDATE SET`: every right side reads the row as it was
unfoldable pub conflict_row : ℕ → ℕ → ℕ → ℕ → Row → Row
conflict_row now cutoff limit blocked r = record r {
  blocked_until =
      if ltb r.window_started_at cutoff
      then none
      else if leb limit (r.failure_count + 1)
      then some blocked
      else r.blocked_until;
  failure_count = if ltb r.window_started_at cutoff then 1 else r.failure_count + 1;
  window_started_at = if ltb r.window_started_at cutoff then now else r.window_started_at;
  updated_at = now;
}

-- the assignments of MySQL's `ON DUPLICATE KEY UPDATE`, each of which reads what the ones before it
-- have written
unfoldable pub set_blocked : ℕ → ℕ → ℕ → Row → Row
set_blocked cutoff limit blocked r = record r {
  blocked_until =
      if ltb r.window_started_at cutoff
      then none
      else if leb limit (r.failure_count + 1)
      then some blocked
      else r.blocked_until;
}

unfoldable pub set_count : ℕ → Row → Row
set_count cutoff r = record r {
  failure_count = if ltb r.window_started_at cutoff then 1 else r.failure_count + 1;
}

unfoldable pub set_window : ℕ → ℕ → Row → Row
set_window now cutoff r = record r {
  window_started_at = if ltb r.window_started_at cutoff then now else r.window_started_at;
}

unfoldable pub duplicate_row : ℕ → ℕ → ℕ → ℕ → Row → Row
duplicate_row now cutoff limit blocked r =
    record (set_window now cutoff (set_count cutoff (set_blocked cutoff limit blocked r))) {
      updated_at = now;
    }

unfoldable pub updated_row : Driver → ℕ → ℕ → ℕ → ℕ → Row → Row
updated_row Driver.mysql now cutoff limit blocked r = duplicate_row now cutoff limit blocked r
updated_row Driver.sqlite now cutoff limit blocked r = conflict_row now cutoff limit blocked r
updated_row Driver.postgres now cutoff limit blocked r = conflict_row now cutoff limit blocked r

-- insert a row, or update the one with its key
unfoldable pub upsert : Subject → Row → (Row → Row) → List Row → List Row
upsert s new f [] = new ∷ []
upsert s new f (r ∷ rs) = let rest = upsert s new f rs in if key_is s r then f r ∷ rs else r ∷ rest

unfoldable pub upsert_login_failure : Driver → ℕ → Subject → List Row → List Row
upsert_login_failure driver now s rows =
    upsert s (fresh_row now s) (updated_row driver now (now - window) s.limit (now + lock_duration))
      rows

-- the loop of `recordLoginFailure`
unfoldable pub record_loop : Driver → ℕ → List Subject → List Row → List Row
record_loop driver now [] rows = rows
record_loop driver now (s ∷ ss) rows =
    record_loop driver now ss (upsert_login_failure driver now s rows)

-- `DELETE … WHERE updated_at<?`
unfoldable pub delete_older : ℕ → List Row → List Row
delete_older bound [] = []
delete_older bound (r ∷ rs) =
    let rest = delete_older bound rs in if ltb r.updated_at bound then rest else r ∷ rest

-- `recordLoginFailure`: the table, and the wait that it reports
unfoldable pub record_login_failure :
    Std → NetLib → Driver → ℕ → Text → Text → List Row → List Row × ℕ
record_login_failure std net driver now account client_ip rows =
    let ss = login_rate_limit_subjects std net account client_ip in
    let after = delete_older (now - retention) (record_loop driver now ss rows) in
    (after, check_login_rate_limit std net now account client_ip after)

unfoldable pub delete_subject : Subject → List Row → List Row
delete_subject s [] = []
delete_subject s (r ∷ rs) = let rest = delete_subject s rs in if key_is s r then rest else r ∷ rest

unfoldable pub clear_login_account_failures : Std → NetLib → Text → List Row → List Row
clear_login_account_failures std net account rows =
    let name = normalize_email std account in
    if is_empty name
    then rows
    else delete_subject
        (record {
          scope = account_scope;
          hash = login_rate_limit_hash net account_scope name;
          limit = account_failures;
        })
        rows

-- the seconds of the `Retry-After` header: the wait rounded up, at least one
unfoldable pub retry_after_seconds : ℕ → ℕ
retry_after_seconds retry_after =
    let seconds = (retry_after + (second - 1)) / second in if ltb seconds 1 then 1 else seconds
