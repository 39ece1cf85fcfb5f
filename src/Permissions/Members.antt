-- ===== src/Permissions/Members.antt =====
-- The rows of `user_permission_groups` that a write leaves, and what they authorise.
use lan_qin_email.Prelude.{
  ◌≡◌, refl, sym, ap, ◌∙◌, Bool, true, false, not, Option, none, some, List, [], ◌∷◌, ◌++◌, map,
  arith, if◌then◌else◌, Bool-cases, inl, inr, and_true, append_assoc, append-nil,
}
use lan_qin_email.Prelude.Text.{Text, text_eq, text_eq_refl}
use lan_qin_email.Permissions.{PermissionLimits, merge_permission_limits}
use lan_qin_email.Permissions.Keys.{permission_group_regular, permission_group_super_admin}
use lan_qin_email.Permissions.Catalog.{add_all, decode_stored_permissions}
use lan_qin_email.Permissions.Groups.{
  Db, Group, GroupError, Outcome, done, error, ◌>>=◌, require_group, permissions_loop, limits_loop,
  is_assignable_permission_group_id, without_user, member_ids, joined, Gathered, gather, gather_row,
  decode_stored_limits,
}

-- what a chain that succeeds has passed through
pub bind_done {ℓ κ} :
    {A : Type ℓ} {B : Type κ} (o : Outcome A) (f : A → Outcome B) (b : B)
    → (o >>= f) ≡ done b
    → (a : A) × (o ≡ done a) × (f a ≡ done b)
bind_done (done a) f b h = (a, refl, h)
bind_done (error e) f b h = absurd (cc)

pub done-injective {ℓ} : {A : Type ℓ} (a b : A) → Path (Outcome A) (done a) (done b) → a ≡ b
done-injective a b h = cc

member_ids-append :
    (user : Text) (ms ns : List (Text × Text))
    → member_ids user (ms ++ ns) ≡ member_ids user ms ++ member_ids user ns
unfolding member_ids
member_ids-append user [] ns = refl
member_ids-append user ((u, g) ∷ ms) ns = elim (Bool-cases (text_eq u user)) [
  | inl same ↦ rw (same, member_ids-append user ms ns) refl
  | inr other ↦ rw (other, member_ids-append user ms ns) refl
]

member_ids-without_user :
    (user : Text) (ms : List (Text × Text)) → member_ids user (without_user user ms) ≡ []
unfolding member_ids without_user
member_ids-without_user user [] = refl
member_ids-without_user user ((u, g) ∷ ms) = elim (Bool-cases (text_eq u user)) [
  | inl same ↦ rw same (member_ids-without_user user ms)
  | inr other ↦ rw (other, other) (member_ids-without_user user ms)
]

member_ids-map :
    (user : Text) (ids : List Text) → member_ids user (map (λ id. (user, id)) ids) ≡ ids
unfolding member_ids
member_ids-map user [] = refl
member_ids-map user (id ∷ ids) = rw (text_eq_refl user, member_ids-map user ids) refl

-- the rows of a user after `writeUserPermissionGroups`
pub members_written :
    (user : Text) (ms : List (Text × Text)) (ids : List Text)
    → member_ids user (without_user user ms ++ map (λ id. (user, id)) ids) ≡ ids
members_written user ms ids =
    rw
      (
        member_ids-append user (without_user user ms) (map (λ id. (user, id)) ids),
        member_ids-without_user user ms,
        member_ids-map user ids,
      )
      refl

require_group_done :
    (db : Db) (id : Text) (g : Group)
    → require_group db id ≡ done g
    → (is_assignable_permission_group_id id ≡ true) × (db.groups id ≡ some g)
unfolding require_group
require_group_done db id g h = passed (is_assignable_permission_group_id id) (db.groups id) h
  where
    passed :
        (ok : Bool) (o : Option Group)
        → Path
            (Outcome Group)
            (if ok
              then elim o [ none ↦ error (GroupError.not_found id) | some g ↦ done g ]
              else error (GroupError.not_assignable id))
            (done g)
        → (ok ≡ true) × (o ≡ some g)
    passed true (some g') k = (refl, ap some (done-injective g' g k))
    passed true none k = absurd (cc)
    passed false o k = absurd (cc)

not-true : (b : Bool) → not b ≡ true → b ≡ false
not-true b h = ground arith

-- an assignable id is none of the fixed two
pub assignable-fixed :
    (id : Text)
    → is_assignable_permission_group_id id ≡ true
    → (text_eq id permission_group_super_admin ≡ false)
      × (text_eq id permission_group_regular ≡ false)
unfolding is_assignable_permission_group_id
assignable-fixed id h =
    (not-true _ (and_true _ _ (and_true _ _ h).1).0, not-true _ (and_true _ _ (and_true _ _ h).1).1)

gather_row-assignable :
    (id : Text) (g : Group) (a : Gathered)
    → is_assignable_permission_group_id id ≡ true
    → gather_row id g a ≡ record {
      seen = add_all (decode_stored_permissions g.permissions) a.seen;
      limits = merge_permission_limits a.limits (decode_stored_limits g.limits);
      groups = a.groups ++ id ∷ [];
    }
unfolding gather_row
gather_row-assignable id g a ok = rw ((assignable-fixed id ok).1, ok) refl

joined-assignable :
    (db : Db) (id : Text) (ids : List Text) (g : Group)
    → is_assignable_permission_group_id id ≡ true
    → db.groups id ≡ some g
    → joined db (id ∷ ids) ≡ (id, g) ∷ joined db ids
unfolding joined
joined-assignable db id ids g ok here = rw ((assignable-fixed id ok).1, here) refl

pub permissions_loop-cons :
    (db : Db) (id : Text) (ids from seen : List Text)
    → permissions_loop db (id ∷ ids) from ≡ done seen
    → (g : Group) × (is_assignable_permission_group_id id ≡ true)
      × (db.groups id ≡ some g)
      × (permissions_loop db ids (add_all (decode_stored_permissions g.permissions) from)
          ≡ done seen)
permissions_loop-cons db id ids from seen h =
    let (g, found, rest) =
      bind_done (require_group db id)
        (λ g. permissions_loop db ids (add_all (decode_stored_permissions g.permissions) from)) seen
        (unfold permissions_loop in h) in
    let (ok, here) = require_group_done db id g found in (g, ok, here, rest)

limits_loop-cons :
    (db : Db) (id : Text) (ids : List Text) (l : PermissionLimits) (g : Group)
    → is_assignable_permission_group_id id ≡ true
    → db.groups id ≡ some g
    → limits_loop db (id ∷ ids) l
      ≡ limits_loop db ids (merge_permission_limits l (decode_stored_limits g.limits))
unfolding limits_loop require_group
limits_loop-cons db id ids l g ok here = rw (ok, here) refl

gather-cons :
    (id : Text) (g : Group) (rows : List (Text × Group)) (a : Gathered)
    → gather ((id, g) ∷ rows) a ≡ gather rows (gather_row id g a)
unfolding gather
gather-cons id g rows a = refl

-- the groups that pass both loops are the rows that `authorizationForUser` gathers
pub gather-joined :
    (db : Db) (ms : List (Text × Text)) (ids : List Text) (a : Gathered) (seen : List Text)
    (limits : PermissionLimits)
    → permissions_loop db ids a.seen ≡ done seen
    → limits_loop db ids a.limits ≡ done limits
    → gather (joined (record db { members = ms }) ids) a
      ≡ record { seen = seen; limits = limits; groups = a.groups ++ ids }
gather-joined db ms [] a seen limits hp hl =
    unfold gather joined in
    λ i. record {
      seen = done-injective a.seen seen (unfold permissions_loop in hp) i;
      limits = done-injective a.limits limits (unfold limits_loop in hl) i;
      groups = sym (append-nil a.groups) i;
    }
gather-joined db ms (id ∷ ids) a seen limits hp hl =
    let (g, ok, here, hp') = permissions_loop-cons db id ids a.seen seen hp in
    let b : Gathered = record {
      seen = add_all (decode_stored_permissions g.permissions) a.seen;
      limits = merge_permission_limits a.limits (decode_stored_limits g.limits);
      groups = a.groups ++ id ∷ [];
    } in
    rw
      (
        joined-assignable (record db { members = ms }) id ids g ok here,
        gather-cons id g (joined (record db { members = ms }) ids) a,
        gather_row-assignable id g a ok,
      )
      (gather-joined db ms ids b seen limits hp'
          (sym (limits_loop-cons db id ids a.limits g ok here) ∙ hl)
        ∙ ap (λ gs. record { seen = seen; limits = limits; groups = gs })
            (append_assoc a.groups (id ∷ []) ids))
