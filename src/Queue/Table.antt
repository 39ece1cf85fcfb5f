-- ===== src/Queue/Table.antt =====
-- Tables under `UPDATE`, `DELETE` and `INSERT`: what becomes of the row with a given id.
use lan_qin_email.Prelude.{
  ◌≡◌, refl, ap, sym, ◌∙◌, Bool, true, false, ◌||◌, some, List, [], ◌∷◌, ◌++◌, arith, if◌then◌else◌,
  All, All-append, any, Bool-cases, inl, inr, ◌==◌,
}
use lan_qin_email.Prelude.Text.{Text, text_eq_iff}
use lan_qin_email.Queue.{Row, update_where, affected, select_row, delete_where, by_id}

-- the table has a row with this id, and each such row is `r`
pub record IsAt (id : Text) (r : Row) (rows : List Row) : Type 0 where
  pub there : any (by_id id) rows ≡ true
  pub only : All (λ x. by_id id x ≡ true → x ≡ r) rows

-- an assignment that leaves the primary key alone
abbrev pub KeepsId : (Row → Row) → Type 0
KeepsId f = (r : Row) → (f r).id ≡ r.id

abbrev pub after_update : (Row → Bool) → (Row → Row) → Row → Row
after_update p f r = if p r then f r else r

after_update-id :
    (p : Row → Bool) (f : Row → Row)
    → KeepsId f
    → (id : Text) (r : Row) → by_id id (after_update p f r) ≡ by_id id r
after_update-id p f keeps id r = elim (Bool-cases (p r)) [
  | inl yes_p ↦ rw (yes_p, keeps r)
  | inr no_p ↦ rw no_p
]

module _ (p : Row → Bool) (f : Row → Row) (keeps : KeepsId f) (id : Text) where
  any-update_where :
      (rows : List Row) → any (by_id id) (update_where p f rows) ≡ any (by_id id) rows
  unfolding update_where
  any-update_where [] = refl
  any-update_where (r ∷ rows) = rw (after_update-id p f keeps id r, any-update_where rows)

  only-update_where :
      (r : Row) (rows : List Row)
      → All (λ x. by_id id x ≡ true → x ≡ r) rows
      → All (λ x. by_id id x ≡ true → x ≡ after_update p f r) (update_where p f rows)
  unfolding update_where
  only-update_where r [] h = tt
  only-update_where r (x ∷ rows) (hx, hs) = (
    λ e. ap (after_update p f) (hx (sym (after_update-id p f keeps id x) ∙ e)),
    only-update_where r rows hs,
  )

  -- an `UPDATE` changes the row exactly when it meets the condition
  pub IsAt-update :
      {r : Row} (rows : List Row)
      → IsAt id r rows
      → IsAt id (after_update p f r) (update_where p f rows)
  IsAt-update rows h = record {
    there = any-update_where rows ∙ h.there;
    only = only-update_where _ rows h.only;
  }

pub update_where-none :
    (p : Row → Bool) (f : Row → Row) (rows : List Row)
    → (affected p rows == 0) ≡ true
    → update_where p f rows ≡ rows
unfolding update_where affected
update_where-none p f [] h = refl
update_where-none p f (r ∷ rows) h = elim (Bool-cases (p r)) [
  | inl yes_p ↦ ground arith
  | inr no_p ↦ rw (no_p, update_where-none p f rows (ground arith))
]

-- a `SELECT` by the id, and by more that the row meets, finds the row
pub select-IsAt :
    (p : Row → Bool) (id : Text) {r : Row} (rows : List Row)
    → p r ≡ true
    → ((x : Row) → p x ≡ true → by_id id x ≡ true)
    → IsAt id r rows
    → select_row p rows ≡ some r
unfolding select_row
select-IsAt p id [] meets narrow h = cc (h.there)
select-IsAt p id {r} (x ∷ rows) meets narrow h = elim (Bool-cases (p x)) [
  | inl here ↦ rw here (ap some (h.only.0 (narrow x here)))
  | inr past ↦
      let other : by_id id x ≡ false = elim (Bool-cases (by_id id x)) [
        | inl same ↦ cc (past, meets, ap p (h.only.0 same))
        | inr differs ↦ differs
      ] in
      rw past (
        select-IsAt p id rows meets narrow
          (record { there = rw other at h.there; only = h.only.1 }))
]

-- an `UPDATE` whose condition the row meets affects some row
pub affected-IsAt :
    (p : Row → Bool) (id : Text) {r : Row} (rows : List Row)
    → p r ≡ true
    → IsAt id r rows
    → (affected p rows == 0) ≡ false
unfolding affected
affected-IsAt p id [] meets h = cc (h.there)
affected-IsAt p id {r} (x ∷ rows) meets h = elim (Bool-cases (by_id id x)) [
  | inl here ↦ let e : p x ≡ true = ap p (h.only.0 here) ∙ meets in rw e (ground arith)
  | inr past ↦
      let later =
        affected-IsAt p id rows meets (record { there = rw past at h.there; only = h.only.1 }) in
      ground (arith, later)
]

-- one whose condition asks for the id, and that the row does not meet, affects none
pub affected-IsAt_false :
    (p : Row → Bool) (id : Text) {r : Row} (rows : List Row)
    → p r ≡ false
    → ((x : Row) → p x ≡ true → by_id id x ≡ true)
    → All (λ x. by_id id x ≡ true → x ≡ r) rows
    → (affected p rows == 0) ≡ true
unfolding affected
affected-IsAt_false p id [] misses narrow only = refl
affected-IsAt_false p id {r} (x ∷ rows) misses narrow (hx, hs) = elim (Bool-cases (p x)) [
  | inl here ↦ cc (here, misses, ap p (hx (narrow x here)))
  | inr past ↦ ground (arith, affected-IsAt_false p id rows misses narrow hs)
]

pub IsAt-by_id : (id : Text) {r : Row} (rows : List Row) → IsAt id r rows → by_id id r ≡ true
IsAt-by_id id [] h = cc (h.there)
IsAt-by_id id (x ∷ rows) h = elim (Bool-cases (by_id id x)) [
  | inl here ↦ sym (ap (by_id id) (h.only.0 here)) ∙ here
  | inr past ↦ IsAt-by_id id rows (record { there = rw past at h.there; only = h.only.1 })
]

pub by_id_iff : (id : Text) (r : Row) → by_id id r ≡ true → r.id ≡ id
by_id_iff id r h = (text_eq_iff r.id id).0 h

-- where nothing meets the condition, or the row itself does not, the row stays
pub IsAt-update_false :
    (p : Row → Bool) (f : Row → Row) (id : Text) {r : Row} (rows : List Row)
    → KeepsId f
    → p r ≡ false
    → IsAt id r rows
    → IsAt id r (update_where p f rows)
IsAt-update_false p f id {r} rows keeps out h =
    let moved = IsAt-update p f keeps id rows h in
    let same : after_update p f r ≡ r = rw out in rw same at moved

any-append : (q : Row → Bool) (xs ys : List Row) → any q (xs ++ ys) ≡ (any q xs || any q ys)
any-append q [] ys = refl
any-append q (x ∷ xs) ys = ground (arith, any-append q xs ys)

-- a row with another id may be added
pub IsAt-append :
    (id : Text) {r : Row} (rows : List Row) (x : Row)
    → by_id id x ≡ false
    → IsAt id r rows
    → IsAt id r (rows ++ x ∷ [])
IsAt-append id rows x other h = record {
  there = ground (arith, any-append (by_id id) rows (x ∷ []), h.there);
  only = All-append _ rows (x ∷ []) h.only ((λ e. cc), tt);
}

any-delete_where :
    (p : Row → Bool) (id : Text) (r : Row) (rows : List Row)
    → p r ≡ false
    → All (λ x. by_id id x ≡ true → x ≡ r) rows
    → any (by_id id) (delete_where p rows) ≡ any (by_id id) rows
unfolding delete_where
any-delete_where p id r [] out h = refl
any-delete_where p id r (x ∷ rows) out (hx, hs) = elim (Bool-cases (p x)) [
  | inl gone ↦
      let other : by_id id x ≡ false = elim (Bool-cases (by_id id x)) [
        | inl same ↦ cc (gone, out, ap p (hx same))
        | inr differs ↦ differs
      ] in
      rw (gone, other) (any-delete_where p id r rows out hs)
  | inr stays ↦ rw (stays, any-delete_where p id r rows out hs)
]

only-delete_where :
    (p : Row → Bool) (P : Row → Type 0) (rows : List Row) → All P rows → All P (delete_where p rows)
unfolding delete_where
only-delete_where p P [] h = tt
only-delete_where p P (x ∷ rows) (hx, hs) = elim (Bool-cases (p x)) [
  | inl gone ↦ rw gone (only-delete_where p P rows hs)
  | inr stays ↦ rw stays (hx, only-delete_where p P rows hs)
]

-- a `DELETE` whose condition the row does not meet keeps it
pub IsAt-delete :
    (p : Row → Bool) (id : Text) {r : Row} (rows : List Row)
    → p r ≡ false
    → IsAt id r rows
    → IsAt id r (delete_where p rows)
IsAt-delete p id {r} rows out h = record {
  there = any-delete_where p id r rows out h.only ∙ h.there;
  only = only-delete_where p _ rows h.only;
}

-- what holds of all rows holds after an `UPDATE` that establishes it where its condition is met
pub All-update_where :
    (P : Row → Type 0) (p : Row → Bool) (f : Row → Row)
    → ((r : Row) → p r ≡ true → P r → P (f r))
    → (rows : List Row) → All P rows
    → All P (update_where p f rows)
unfolding update_where
All-update_where P p f step [] h = tt
All-update_where P p f step (x ∷ rows) (hx, hs) = elim (Bool-cases (p x)) [
  | inl meets ↦ rw meets (step x meets hx, All-update_where P p f step rows hs)
  | inr not_met ↦ rw not_met (hx, All-update_where P p f step rows hs)
]

pub All-delete_where :
    (P : Row → Type 0) (p : Row → Bool) (rows : List Row) → All P rows → All P (delete_where p rows)
All-delete_where P p = only-delete_where p P
