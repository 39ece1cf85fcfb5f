-- ===== src/LoginRateLimit/Lock.antt =====
-- When a subject is locked: the count of its failures, the lock, and what a check then answers.
use lan_qin_email.Prelude.{
  ℕ, suc, ◌+◌, ◌-◌, ◌*◌, ◌≤◌, ◌≡◌, refl, ap, ◌∙◌, ◌⊎◌, inl, inr, true, false, Option, none, some,
  List, [], ◌∷◌, arith, leb, ltb, if◌then◌else◌, All, Bool-cases, length, le→leb,
}
use lan_qin_email.Prelude.Text.{Text, text_eq, is_empty}
use lan_qin_email.Std.{Std}
use lan_qin_email.Address.{normalize_email}
use lan_qin_email.Queue.{second}
use lan_qin_email.LoginRateLimit.{
  NetLib, Subject, Row, Driver, lookup, remaining, check_loop, check_login_rate_limit, conflict_row,
  record_loop, record_login_failure, upsert_login_failure, login_rate_limit_subjects,
  clear_login_account_failures, retry_after_seconds, window, lock_duration, retention,
  account_scope,
}
use lan_qin_email.LoginRateLimit.Table.{
  next, same_key, lookup-upsert_login_failure, lookup-upsert_login_failure_other,
  lookup-delete_older, lookup-delete_subject, lookup-delete_subject_other,
}

-- a subject is one of a list
abbrev pub In : Subject → List Subject → Type 0
In s [] = ⊥
In s (t ∷ ts) = (s ≡ t) ⊎ In s ts

abbrev Apart : Subject → List Subject → Type 0
Apart s ts = All (λ t. (same_key t s ≡ false) × (same_key s t ≡ false)) ts

abbrev IsDistinct : List Subject → Type 0
IsDistinct [] = Unit
IsDistinct (t ∷ ts) = Apart t ts × IsDistinct ts

Apart-In : (s t : Subject) (ts : List Subject) → Apart t ts → In s ts → same_key t s ≡ false
Apart-In s t [] a i = elim i [ ]
Apart-In s t (u ∷ ts) ((_, h), a) (inl e) = rw e h
Apart-In s t (u ∷ ts) (h, a) (inr i) = Apart-In s t ts a i

subjects-IsDistinct :
    (std : Std) (net : NetLib) (account ip : Text)
    → IsDistinct (login_rate_limit_subjects std net account ip)
unfolding login_rate_limit_subjects text_eq
subjects-IsDistinct std net account ip =
    elim (Bool-cases (is_empty (normalize_email std account))) [
      | inl anonymous ↦ rw anonymous (tt, tt)
      | inr named ↦ rw named (((refl, refl), tt), (tt, tt))
    ]

lookup-record_outside :
    (driver : Driver) (now : ℕ) (s : Subject) (ts : List Subject) (rows : List Row)
    → Apart s ts
    → lookup s (record_loop driver now ts rows) ≡ lookup s rows
unfolding record_loop
lookup-record_outside driver now s [] rows a = refl
lookup-record_outside driver now s (t ∷ ts) rows ((h, _), a) =
    lookup-record_outside driver now s ts (upsert_login_failure driver now t rows) a
    ∙ lookup-upsert_login_failure_other driver now t s rows h

lookup-record :
    (driver : Driver) (now : ℕ) (s : Subject) (ts : List Subject) (rows : List Row)
    → IsDistinct ts
    → In s ts
    → lookup s (record_loop driver now ts rows) ≡ some (next now s (lookup s rows))
unfolding record_loop
lookup-record driver now s [] rows d i = elim i [ ]
lookup-record driver now s (t ∷ ts) rows (a, d) (inl e) = rw e (
    lookup-record_outside driver now t ts (upsert_login_failure driver now t rows) a
    ∙ lookup-upsert_login_failure driver now t rows)
lookup-record driver now s (t ∷ ts) rows (a, d) (inr i) =
    lookup-record driver now s ts (upsert_login_failure driver now t rows) d i
    ∙ ap (λ o. some (next now s o))
        (lookup-upsert_login_failure_other driver now t s rows (Apart-In s t ts a i))

-- Recording a failure, under each database driver, leaves for either subject of the login the row
-- that the general form of the statement gives: a fresh one where there was none, else the count
-- and the block with every right side reading the old row.
pub record_exact :
    (std : Std) (net : NetLib) (driver : Driver) (now : ℕ) (account ip : Text) (rows : List Row)
    (s : Subject)
    → In s (login_rate_limit_subjects std net account ip)
    → lookup s (record_login_failure std net driver now account ip rows).0
      ≡ some (next now s (lookup s rows))
unfolding record_login_failure
record_exact std net driver now account ip rows s i =
    lookup-delete_older (now - retention) s
      (record_loop driver now (login_rate_limit_subjects std net account ip) rows)
      (next now s (lookup s rows))
      (lookup-record driver now s (login_rate_limit_subjects std net account ip) rows
        (subjects-IsDistinct std net account ip) i)
      (young (lookup s rows))
  where
    not_older : (a b : ℕ) → ltb a (a - b) ≡ false
    not_older a b = ground arith

    young : (o : Option Row) → ltb (next now s o).updated_at (now - retention) ≡ false
    young none = not_older now retention
    young (some r) = unfold conflict_row in not_older now retention

choose_max : (m k : ℕ) → m ≤ (if ltb m k then k else m)
choose_max m k = ground arith

choose_max_right : (m k : ℕ) → k ≤ (if ltb m k then k else m)
choose_max_right m k = ground arith

check_loop-start :
    (now : ℕ) (rows : List Row) (ss : List Subject) (m : ℕ) → m ≤ check_loop now rows ss m
unfolding check_loop
check_loop-start now rows [] m = omega arith
check_loop-start now rows (s ∷ ss) m =
    let k = remaining now (lookup s rows) in
    omega (arith, choose_max m k, check_loop-start now rows ss (if ltb m k then k else m))

check_loop-In :
    (now : ℕ) (rows : List Row) (s : Subject) (ss : List Subject) (m : ℕ)
    → In s ss
    → remaining now (lookup s rows) ≤ check_loop now rows ss m
check_loop-In now rows s [] m i = elim i [ ]
check_loop-In now rows s (t ∷ ss) m (inl e) =
    let k = remaining now (lookup t rows) in
    let below : k ≤ check_loop now rows (t ∷ ss) m =
      unfold check_loop in
      omega
        (arith, choose_max_right m k, check_loop-start now rows ss (if ltb m k then k else m)) in
    rw e below
check_loop-In now rows s (t ∷ ss) m (inr i) =
    let k = remaining now (lookup t rows) in
    check_loop-In-tail (check_loop-In now rows s ss (if ltb m k then k else m) i)
  where
    check_loop-In-tail :
        remaining now (lookup s rows)
          ≤ check_loop now rows ss
              (if ltb m (remaining now (lookup t rows)) then remaining now (lookup t rows) else m)
        → remaining now (lookup s rows) ≤ check_loop now rows (t ∷ ss) m
    check_loop-In-tail h = unfold check_loop in h

in_window : (start now width : ℕ) → now ≤ start + width → ltb start (now - width) ≡ false
in_window start now width h = ground arith

-- a row that has counted failures since a start
abbrev Counted : ℕ → ℕ → Option Row → Type 0
Counted start n none = ⊥
Counted start n (some r) = (r.window_started_at ≡ start) × (r.failure_count ≡ n)

next-Counted :
    (start now n : ℕ) (s : Subject) (o : Option Row)
    → now ≤ start + window
    → Counted start n o
    → Counted start (suc n) (some (next now s o))
next-Counted start now n s none h c = elim c [ ]
next-Counted start now n s (some r) h (at_start, count) =
    let inside : ltb r.window_started_at (now - window) ≡ false =
      rw at_start (in_window start now window h) in
    unfold conflict_row in rw inside (at_start, rw count (omega arith))

-- a failure beyond the limit blocks
next-blocked :
    (start now n : ℕ) (s : Subject) (o : Option Row)
    → now ≤ start + window
    → Counted start n o
    → s.limit ≤ suc n
    → (next now s o).blocked_until ≡ some (now + lock_duration)
next-blocked start now n s none h c over = elim c [ ]
next-blocked start now n s (some r) h (at_start, count) over =
    let inside : ltb r.window_started_at (now - window) ≡ false =
      rw at_start (in_window start now window h) in
    let reached : leb s.limit (r.failure_count + 1) ≡ true =
      rw count (le→leb s.limit (n + 1) (omega (arith, over))) in
    unfold conflict_row in rw (inside, reached) refl

module _ (std : Std) (net : NetLib) (driver : Driver) (account ip : Text) where
  -- the table after failures of one login at some instants
  unfoldable pub failures : List ℕ → List Row → List Row
  failures [] rows = rows
  failures (t ∷ ts) rows = failures ts (record_login_failure std net driver t account ip rows).0

  failures-Counted :
      (s : Subject) (start n : ℕ) (ts : List ℕ) (rows : List Row)
      → In s (login_rate_limit_subjects std net account ip)
      → All (λ t. t ≤ start + window) ts
      → Counted start n (lookup s rows)
      → Counted start (n + length ts) (lookup s (failures ts rows))
  unfolding failures
  failures-Counted s start n [] rows i h c = rw (add_zero n) c
    where
      add_zero : (n : ℕ) → n + 0 ≡ n
      add_zero n = omega arith
  failures-Counted s start n (t ∷ ts) rows i (now, h) c = rw (add_suc n (length ts)) (
      failures-Counted s start (suc n) ts _ i h (
        rw (record_exact std net driver t account ip rows s i)
          (next-Counted start t n s (lookup s rows) now c)))
    where
      add_suc : (n m : ℕ) → n + suc m ≡ suc n + m
      add_suc n m = omega arith

  -- A subject of a login that has no entry, fails first at a start and then, within fifteen minutes of
  -- it, at further instants, is locked by the failure that reaches its limit: a check of that login at
  -- any later time answers at least the rest of fifteen minutes from that failure.
  pub failures_lock :
      (s : Subject) (start : ℕ) (ts : List ℕ) (last now : ℕ) (rows : List Row)
      → In s (login_rate_limit_subjects std net account ip)
      → lookup s rows ≡ none
      → All (λ t. t ≤ start + window) ts
      → last ≤ start + window
      → s.limit ≤ 2 + length ts
      → (last + lock_duration) - now
        ≤ check_login_rate_limit std net now account ip
            (record_login_failure std net driver last account ip (failures (start ∷ ts) rows)).0
  unfolding check_login_rate_limit
  failures_lock s start ts last now rows i new within end over =
      let before = failures (start ∷ ts) rows in
      let counted : Counted start (1 + length ts) (lookup s before) =
        unfold failures in
        failures-Counted s start 1 ts (record_login_failure std net driver start account ip rows).0
          i within (rw (record_exact std net driver start account ip rows s i, new) (refl, refl)) in
      let after = (record_login_failure std net driver last account ip before).0 in
      let blocked =
        next-blocked start last (1 + length ts) s (lookup s before) end counted
          (omega (arith, over)) in
      locked after (next last s (lookup s before))
        (record_exact std net driver last account ip before s i) blocked
    where
      locked :
          (after : List Row) (r : Row)
          → lookup s after ≡ some r
          → r.blocked_until ≡ some (last + lock_duration)
          → (last + lock_duration) - now
            ≤ check_loop now after (login_rate_limit_subjects std net account ip) 0
      locked after r found blocked =
          let rest : remaining now (lookup s after) ≡ (last + lock_duration) - now =
            rw (found, blocked) refl in
          rw (← rest) (check_loop-In now after s (login_rate_limit_subjects std net account ip) 0 i)

-- Clearing the failures of an account removes the account's entry and leaves the entry of the
-- client's address as it is.
pub clear_exact :
    (std : Std) (net : NetLib) (account ip : Text) (rows : List Row)
    → All
        (λ s.
          lookup s (clear_login_account_failures std net account rows)
          ≡ (if text_eq s.scope account_scope then none else lookup s rows))
        (login_rate_limit_subjects std net account ip)
unfolding clear_login_account_failures login_rate_limit_subjects text_eq
clear_exact std net account ip rows = elim (Bool-cases (is_empty (normalize_email std account))) [
  | inl anonymous ↦ rw anonymous (refl, tt)
  | inr named ↦
      rw named (lookup-delete_subject _ rows, (lookup-delete_subject_other _ _ rows refl, tt))
]

-- The `Retry-After` header holds at least one second, and it is the wait rounded up to whole seconds
-- wherever there is a wait.
pub retry_after_bounds :
    (wait : ℕ)
    → (1 ≤ retry_after_seconds wait)
      × (wait ≤ retry_after_seconds wait * second)
      × (retry_after_seconds wait * second ≤ wait - 1 + second)
unfolding retry_after_seconds
retry_after_bounds wait = (ground arith, ground arith, ground arith)
