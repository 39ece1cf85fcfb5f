-- ===== src/Invite/Spending.antt =====
-- How often a code is spent, over sequences of registrations.
use lan_qin_email.Prelude.{
  ℕ, ◌+◌, ◌-◌, ◌≤◌, ◌≡◌, refl, inl, inr, Bool, true, false, ◌&&◌, Option, none, some, List, [], ◌∷◌,
  arith, ◌==◌, if◌then◌else◌, Bool-cases, ==_iff,
}
use lan_qin_email.Prelude.Text.{Text, text_eq, text_eq_iff}
use lan_qin_email.Permissions.Groups.{Db}
use lan_qin_email.Invite.{
  Invite, spend, spent, Consumed, granted, invalid, group_unavailable, failed, check_groups,
  groups_of, consume_code, consume_registration_invite, commit, normalize_registration_invite_code,
}

-- the uses that are left of a code
unfoldable pub remaining : Text → List Invite → ℕ
remaining code [] = 0
remaining code (i ∷ is) =
    (if text_eq i.code code then i.max_uses - i.used_count else 0) + remaining code is

spend-remaining :
    (code : Text) (is : List Invite)
    → remaining code (spend code is) + spent code is ≡ remaining code is
unfolding spend spent remaining
spend-remaining code [] = refl
spend-remaining code (i ∷ is) = ground (arith, spend-remaining code is)

spend-remaining_other :
    (code other : Text) (is : List Invite)
    → text_eq code other ≡ false
    → remaining other (spend code is) ≡ remaining other is
unfolding spend remaining
spend-remaining_other code other [] apart = refl
spend-remaining_other code other (i ∷ is) apart = ground (
  arith,
  spend-remaining_other code other is apart,
  text_eq_iff i.code code,
  text_eq_iff i.code other,
  text_eq_iff code other,
)

abbrev pub is_granted : Consumed → Bool
is_granted (granted ids) = true
is_granted _ = false

abbrev pub is_code : Text → Option Text → Bool
is_code code none = false
is_code code (some c) = text_eq c code

-- what a transaction adds to a count is bounded if it is in either outcome
commit_bound :
    (x : Consumed) (mine : Bool) (after before : List Invite) (rest : List Invite → ℕ) (bound : ℕ)
    → (if mine then 1 else 0) + rest after ≤ bound
    → rest before ≤ bound
    → (if is_granted (commit (x, after) before).0 && mine then 1 else 0)
        + rest (commit (x, after) before).1
      ≤ bound
commit_bound (granted ids) mine after before rest bound kept undone = kept
commit_bound invalid mine after before rest bound kept undone = omega (arith, undone)
commit_bound group_unavailable mine after before rest bound kept undone = omega (arith, undone)
commit_bound failed mine after before rest bound kept undone = omega (arith, undone)

spent_bound :
    (code c : Text) (is : List Invite) (rest : List Invite → ℕ)
    → ((js : List Invite) → rest js ≤ remaining code js)
    → spent c is ≡ 1
    → (if text_eq c code then 1 else 0) + rest (spend c is) ≤ remaining code is
spent_bound code c is rest bounded once = elim (Bool-cases (text_eq c code)) [
  | inl mine ↦
      let e : c ≡ code = (text_eq_iff c code).0 mine in
      let once' : spent code is ≡ 1 = rw (← e) once in
      rw (mine, e) (omega (arith, bounded (spend code is), spend-remaining code is, once'))
  | inr other ↦
      rw other (omega (arith, bounded (spend c is), spend-remaining_other c code is other))
]

consume_bound :
    (db : Db) (code : Text) (o : Option Text) (is : List Invite) (rest : List Invite → ℕ)
    → ((js : List Invite) → rest js ≤ remaining code js)
    → (if is_granted (commit (consume_code db o is) is).0 && is_code code o then 1 else 0)
        + rest (commit (consume_code db o is) is).1
      ≤ remaining code is
consume_bound db code none is rest bounded = omega (arith, bounded is)
consume_bound db code (some c) is rest bounded = elim (Bool-cases (spent c is == 1)) [
  | inl once ↦ rw once (
      commit_bound (check_groups db (groups_of c (spend c is))) (text_eq c code) (spend c is) is
        rest (remaining code is)
        (spent_bound code c is rest bounded ((==_iff (spent c is) 1).0 once)) (bounded is))
  | inr not_once ↦ rw not_once (omega (arith, bounded is))
]

module _ (upper : ℕ → ℕ) (db : Db) where
  -- how many registrations of a sequence are granted the groups of a code
  unfoldable pub grants : Text → List Text → List Invite → ℕ
  grants code [] is = 0
  grants code (raw ∷ raws) is =
      let result = commit (consume_registration_invite upper db raw is) is in
      (if is_granted result.0 && is_code code (normalize_registration_invite_code upper raw)
        then 1
        else 0)
      + grants code raws result.1

  -- Of any sequence of registrations, whatever codes they give and in whatever spelling, no more
  -- are granted the groups of a code than uses are left of it.
  pub grants_bounded :
      (code : Text) (raws : List Text) (is : List Invite) → grants code raws is ≤ remaining code is
  unfolding grants consume_registration_invite
  grants_bounded code [] is = omega arith
  grants_bounded code (raw ∷ raws) is =
      consume_bound db code (normalize_registration_invite_code upper raw) is (grants code raws)
        (λ js. grants_bounded code raws js)
