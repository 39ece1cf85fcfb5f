-- ===== src/Invite/Validity.antt =====
-- What every operation keeps of the table, and when a code is refused.
use lan_qin_email.Prelude.{
  ℕ, ◌+◌, ◌≤◌, ◌≡◌, refl, ◌∙◌, inl, inr, Bool, true, false, ◌||◌, not, Option, none, some, List, [],
  ◌∷◌, arith, ltb, ◌==◌, Bool-cases, if_keeps, any, and_true,
}
use lan_qin_email.Prelude.Text.{Text, text_eq, text_eq_iff}
use lan_qin_email.Permissions.Groups.{Db, Outcome, done, error, validate_assignable_group_ids}
use lan_qin_email.Address.{unique_non_empty}
use lan_qin_email.Invite.{
  Invite, available, spend, spent, Consumed, granted, invalid, group_unavailable, failed,
  check_groups, grant, groups_of, consume_code, consume_registration_invite, commit, create_invite,
  create_checked, is_available, insert_invite, delete_invite, Created,
  normalize_registration_invite_code, validate_registration_invite,
}

-- no two rows have a code in common, and none is used more often than it may be
abbrev pub IsValid : List Invite → Type 0
IsValid [] = Unit
IsValid (i ∷ is) =
    (any (λ j. text_eq j.code i.code) is ≡ false) × (i.used_count ≤ i.max_uses) × IsValid is

spent-none :
    (code : Text) (is : List Invite) → any (λ j. text_eq j.code code) is ≡ false → spent code is ≡ 0
unfolding spent
spent-none code [] h = refl
spent-none code (i ∷ is) h = ground (arith, spent-none code is)

any-spent :
    (code : Text) (is : List Invite) → IsValid is → any (available code) is ≡ (spent code is == 1)
unfolding spent
any-spent code [] v = refl
any-spent code (i ∷ is) (new, _, v) = elim (Bool-cases (available code i)) [
  | inl here ↦
      let e : i.code ≡ code =
        (text_eq_iff i.code code).0
          (and_true (text_eq i.code code) (ltb i.used_count i.max_uses) here).0 in
      let new' : any (λ j. text_eq j.code code) is ≡ false = rw (← e) new in
      rw (here, spent-none code is new') refl
  | inr not_here ↦ rw not_here (any-spent code is v ∙ zero_plus (spent code is))
]
  where
    zero_plus : (n : ℕ) → (n == 1) ≡ ((0 + n) == 1)
    zero_plus n = ground arith

abbrev pub is_invalid : Consumed → Bool
is_invalid invalid = true
is_invalid _ = false

grant-is_invalid : (o : Outcome (Unit {0})) (ids : List Text) → is_invalid (grant o ids) ≡ false
grant-is_invalid (done u) ids = refl
grant-is_invalid (error e) ids = refl

check_groups-is_invalid :
    (db : Db) (o : Option (List Text)) → is_invalid (check_groups db o) ≡ false
check_groups-is_invalid db none = refl
check_groups-is_invalid db (some raw) =
    grant-is_invalid (validate_assignable_group_ids db (unique_non_empty raw))
      (unique_non_empty raw)

consume_code-is_invalid :
    (db : Db) (o : Option Text) (is : List Invite)
    → IsValid is
    → is_available o is ≡ not (is_invalid (consume_code db o is).0)
consume_code-is_invalid db none is v = refl
consume_code-is_invalid db (some code) is v = elim (Bool-cases (spent code is == 1)) [
  | inl once ↦
      rw (any-spent code is v, once, check_groups-is_invalid db (groups_of code (spend code is)))
        refl
  | inr not_once ↦ rw (any-spent code is v, not_once) refl
]

-- In a table where no two invites have a code in common, a registration is refused for its code
-- exactly when the check that precedes it fails.
pub validate_exact :
    (upper : ℕ → ℕ) (db : Db) (raw : Text) (is : List Invite)
    → IsValid is
    → validate_registration_invite upper raw is
      ≡ not (is_invalid (consume_registration_invite upper db raw is).0)
unfolding consume_registration_invite validate_registration_invite
validate_exact upper db raw is v =
    consume_code-is_invalid db (normalize_registration_invite_code upper raw) is v

any-spend :
    (code : Text) (p : Text) (is : List Invite)
    → any (λ j. text_eq j.code p) (spend code is) ≡ any (λ j. text_eq j.code p) is
unfolding spend
any-spend code p [] = refl
any-spend code p (i ∷ is) = elim (Bool-cases (available code i)) [
  | inl here ↦ rw (here, any-spend code p is) refl
  | inr not_here ↦ rw (not_here, any-spend code p is) refl
]

spend-IsValid : (code : Text) (is : List Invite) → IsValid is → IsValid (spend code is)
unfolding spend
spend-IsValid code [] v = tt
spend-IsValid code (i ∷ is) (new, fits, v) = elim (Bool-cases (available code i)) [
  | inl here ↦
      let more : (i.used_count + 1) ≤ i.max_uses = ground (arith, here) in
      rw here (any-spend code i.code is ∙ new, more, spend-IsValid code is v)
  | inr not_here ↦ rw not_here (any-spend code i.code is ∙ new, fits, spend-IsValid code is v)
]

any-delete :
    (id p : Text) (is : List Invite)
    → any (λ j. text_eq j.code p) is ≡ false
    → any (λ j. text_eq j.code p) (delete_invite id is) ≡ false
unfolding delete_invite
any-delete id p [] h = refl
any-delete id p (i ∷ is) h = ground (arith, any-delete id p is)

delete-IsValid : (id : Text) (is : List Invite) → IsValid is → IsValid (delete_invite id is)
unfolding delete_invite
delete-IsValid id [] v = tt
delete-IsValid id (i ∷ is) (new, fits, v) =
    if_keeps IsValid (text_eq i.id id) (λ _. delete-IsValid id is v)
      (λ _. (any-delete id i.code is new, fits, delete-IsValid id is v))

insert-IsValid :
    (id : Text) (max_uses : ℕ) (ids : List Text) (o : Option Text) (is : List Invite)
    → IsValid is
    → IsValid (insert_invite id max_uses ids o is).1
insert-IsValid id max_uses ids none is v = v
insert-IsValid id max_uses ids (some code) is v =
    elim (Bool-cases (any (λ i. text_eq i.code code) is)) [
      | inl taken ↦ rw taken v
      | inr fresh ↦ rw fresh (fresh, omega arith, v)
    ]

create_checked-IsValid :
    (groups : Outcome (Unit {0})) (id : Text) (max_uses : ℕ) (ids : List Text) (o : Option Text)
    (is : List Invite)
    → IsValid is
    → IsValid (create_checked groups id max_uses ids o is).1
create_checked-IsValid (error e) id max_uses ids o is v = v
create_checked-IsValid (done u) id max_uses ids o is v = insert-IsValid id max_uses ids o is v

commit-IsValid :
    (x : Consumed) (after before : List Invite)
    → IsValid after
    → IsValid before
    → IsValid (commit (x, after) before).1
commit-IsValid (granted ids) after before va vb = va
commit-IsValid invalid after before va vb = vb
commit-IsValid group_unavailable after before va vb = vb
commit-IsValid failed after before va vb = vb

consume_code-IsValid :
    (db : Db) (o : Option Text) (is : List Invite)
    → IsValid is
    → IsValid (commit (consume_code db o is) is).1
consume_code-IsValid db none is v = v
consume_code-IsValid db (some code) is v =
    if_keeps (λ r. IsValid (commit r is).1) (spent code is == 1)
      {x = (check_groups db (groups_of code (spend code is)), spend code is)}
      {y = (invalid, spend code is)}
      (λ _.
        commit-IsValid (check_groups db (groups_of code (spend code is))) (spend code is) is
          (spend-IsValid code is v) v)
      (λ _. v)

-- Creating, spending and deleting invites keeps a table in which no two invites have a code in
-- common and none is used more often than it may be.
pub operations-IsValid :
    (upper : ℕ → ℕ) (db : Db) (id fresh raw : Text) (max_uses : ℕ) (groups : List Text)
    (is : List Invite)
    → IsValid is
    → IsValid (create_invite upper db id fresh raw max_uses groups is).1
      × IsValid (commit (consume_registration_invite upper db raw is) is).1
      × IsValid (delete_invite id is)
unfolding create_invite consume_registration_invite
operations-IsValid upper db id fresh raw max_uses groups is v = (
  if_keeps (λ (r : Created × List Invite). IsValid r.1) (ltb max_uses 1 || ltb 1_000_000 max_uses)
      (λ _. v) (λ _. create_checked-IsValid _ id max_uses _ _ is v),
  consume_code-IsValid db (normalize_registration_invite_code upper raw) is v,
  delete-IsValid id is v,
)
