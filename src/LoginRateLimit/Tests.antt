-- ===== src/LoginRateLimit/Tests.antt =====
-- Concrete cases of the login limits.
use lan_qin_email.Prelude.{
  ◌+◌, ◌-◌, ◌*◌, ◌≤◌, ◌≡◌, refl, inl, none, some, [], ◌∷◌, ◌++◌, arith, All, if◌then◌else◌,
}
use lan_qin_email.Prelude.Text.{Text, codes, text_eq}
use lan_qin_email.Std.Ascii.{ascii}
use lan_qin_email.Address.{normalize_email}
use lan_qin_email.Queue.{second, minute}
use lan_qin_email.LoginRateLimit.{
  clear_login_account_failures, fresh_row, retry_after_seconds, NetLib, Subject, Driver, lookup,
  check_login_rate_limit, record_login_failure, login_rate_limit_subjects, login_rate_limit_hash,
  lock_duration, ip_scope, ip_failures, account_scope, account_failures, normalize_login_client_ip,
}
use lan_qin_email.LoginRateLimit.Table.{next}
use lan_qin_email.LoginRateLimit.Lock.{
  In, record_exact, failures_lock, failures, clear_exact, retry_after_bounds,
}

-- addresses without a port, each of which stands for its own hash
abbrev net : NetLib
net = record { split_host_port = λ addr. none; parse_ip = λ addr. none; sha256_hex = λ s. s }

abbrev account : Text
account = codes "a@b.c"

abbrev account_subject : Subject
account_subject = record {
  scope = account_scope;
  hash = codes "lanqin-login-rate-limit" ++ 0 ∷ codes "account" ++ 0 ∷ account;
  limit = account_failures;
}

abbrev client : Subject
client = record {
  scope = ip_scope;
  hash = codes "lanqin-login-rate-limit" ++ 0 ∷ codes "ip" ++ 0 ∷ codes "::1";
  limit = ip_failures;
}

subjects_example :
    login_rate_limit_subjects ascii net account (codes " ::1 ") ≡ account_subject ∷ client ∷ []
unfolding login_rate_limit_subjects normalize_email login_rate_limit_hash normalize_login_client_ip
subjects_example = refl

account_subject-In :
    In account_subject (login_rate_limit_subjects ascii net account (codes " ::1 "))
account_subject-In = rw subjects_example (inl refl)

record_exact_example :
    lookup account_subject
      (record_login_failure ascii net Driver.mysql (60 * minute) account (codes " ::1 ") []).0
    ≡ some (next (60 * minute) account_subject (lookup account_subject []))
record_exact_example =
    record_exact ascii net Driver.mysql (60 * minute) account (codes " ::1 ") [] account_subject
      account_subject-In

failures_lock_example :
    (64 * minute + lock_duration) - 70 * minute
    ≤ check_login_rate_limit ascii net
        (70 * minute)
        account
        (codes " ::1 ")
        (record_login_failure ascii net Driver.mysql (64 * minute) account (codes " ::1 ") (
          failures ascii net Driver.mysql account
            (codes " ::1 ")
            (60 * minute ∷ 61 * minute ∷ 62 * minute ∷ 63 * minute ∷ [])
            [])).0
failures_lock_example =
    failures_lock ascii net Driver.mysql account (codes " ::1 ") account_subject (60 * minute)
      (61 * minute ∷ 62 * minute ∷ 63 * minute ∷ []) (64 * minute) (70 * minute) []
      account_subject-In (unfold lookup in refl) (omega arith, (omega arith, (omega arith, tt)))
      (omega arith) (omega arith)

clear_exact_example :
    All
      (λ s.
        lookup s (clear_login_account_failures ascii net account (fresh_row 0 client ∷ []))
        ≡ (if text_eq s.scope account_scope then none else lookup s (fresh_row 0 client ∷ [])))
      (login_rate_limit_subjects ascii net account (codes " ::1 "))
clear_exact_example = clear_exact ascii net account (codes " ::1 ") (fresh_row 0 client ∷ [])

retry_after_bounds_example :
    (1 ≤ retry_after_seconds (minute + 1))
    × (minute + 1 ≤ retry_after_seconds (minute + 1) * second)
    × (retry_after_seconds (minute + 1) * second ≤ (minute + 1) - 1 + second)
retry_after_bounds_example = retry_after_bounds (minute + 1)
