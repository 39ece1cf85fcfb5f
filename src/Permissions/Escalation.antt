-- ===== src/Permissions/Escalation.antt =====
-- What `setUserPermissionGroups` checks against what `authorizationForUser` grants afterwards.
use lan_qin_email.Prelude.{
  ◌≡◌, refl, sym, ap, ◌∙◌, Bool, true, false, Option, none, some, List, [], ◌∷◌, ◌++◌, map,
}
use lan_qin_email.Prelude.Text.{Text, codes, text_eq}
use lan_qin_email.Address.{unique_non_empty}
use lan_qin_email.Address.Fixed.{unique_non_empty_fixed}
use lan_qin_email.Permissions.{
  PermissionLimits, minimal_limits, User, actor_can_grant_limits, actor_can_grant_permissions,
}
use lan_qin_email.Permissions.Keys.{all_permission_keys, permission_group_regular}
use lan_qin_email.Permissions.Catalog.{in_order}
use lan_qin_email.Permissions.Groups.{
  Db, Group, GroupError, Outcome, done, error, ◌>>=◌, permissions_loop, limits_loop, require,
  first_unassignable, without_user, member_ids, joined, assigned, authorization_rows,
  UserAuthorization, gather, conclude, authorization_for_user, effective_permissions,
  effective_limits, permissions_for_group_ids, limits_for_group_ids, check_and_write,
  set_user_permission_groups, write_user_permission_groups, add_regular_group_permissions,
  regular_group_limits, is_assignable_permission_group_id, gather_row,
}
use lan_qin_email.Permissions.Members.{
  bind_done, done-injective, gather-joined, members_written, permissions_loop-cons,
  assignable-fixed,
}

-- what clean ids grant, the regular group standing in for none
abbrev permissions_of : Db → List Text → Outcome (List Text)
permissions_of db [] = done (
    in_order (add_regular_group_permissions (db.groups permission_group_regular) [])
      all_permission_keys)
permissions_of db (id ∷ ids) =
    permissions_loop db (id ∷ ids) [] >>= λ seen. done (in_order seen all_permission_keys)

abbrev limits_of : Db → List Text → Outcome PermissionLimits
limits_of db [] = done (regular_group_limits (db.groups permission_group_regular))
limits_of db (id ∷ ids) = limits_loop db (id ∷ ids) minimal_limits

permissions_for_clean :
    (db : Db) (ids : List Text)
    → unique_non_empty ids ≡ ids
    → effective_permissions db ids ≡ permissions_of db ids
unfolding effective_permissions permissions_for_group_ids
permissions_for_clean db [] clean = rw (effective_permissions, clean) refl
permissions_for_clean db (id ∷ ids) clean =
    rw (effective_permissions, clean)
      (ap (λ v. permissions_loop db v [] >>= λ seen. done (in_order seen all_permission_keys))
        clean)

limits_for_clean :
    (db : Db) (ids : List Text)
    → unique_non_empty ids ≡ ids
    → effective_limits db ids ≡ limits_of db ids
unfolding effective_limits limits_for_group_ids
limits_for_clean db [] clean = rw (effective_limits, clean) refl
limits_for_clean db (id ∷ ids) clean =
    rw (effective_limits, clean) (ap (λ v. limits_loop db v minimal_limits) clean)

assigned-true :
    (db : Db) (id : Text) (g : Group)
    → is_assignable_permission_group_id id ≡ true
    → db.groups id ≡ some g
    → assigned db id ≡ true
unfolding assigned
assigned-true db id g ok here =
    rw ((assignable-fixed id ok).0, (assignable-fixed id ok).1, here) refl

-- the authorisation of a user who is no administrator, from the rows of the query
granted : List (Text × Group) → UserAuthorization
granted rows = conclude (gather rows (record { seen = []; limits = minimal_limits; groups = [] }))

authorization_rows-regular :
    (db : Db) (user : Text) (o : Option Group)
    → member_ids user db.members ≡ []
    → db.groups permission_group_regular ≡ o
    → authorization_rows db user
      ≡ elim o [ none ↦ [] | some g ↦ (permission_group_regular, g) ∷ [] ]
unfolding authorization_rows joined
authorization_rows-regular db user none alone here = rw (alone, here) refl
authorization_rows-regular db user (some g) alone here = rw (alone, here) refl

authorization_rows-groups :
    (db : Db) (user id : Text) (ids : List Text)
    → member_ids user db.members ≡ id ∷ ids
    → assigned db id ≡ true
    → authorization_rows db user ≡ joined db (id ∷ ids)
unfolding authorization_rows
authorization_rows-groups db user id ids here exists = rw (here, exists) refl

granted-regular :
    (o : Option Group)
    → Path UserAuthorization
        (granted (elim o [ none ↦ [] | some g ↦ (permission_group_regular, g) ∷ [] ]))
        (record {
          permissions = in_order (add_regular_group_permissions o []) all_permission_keys;
          limits = regular_group_limits o;
          groups = permission_group_regular ∷ [];
        })
unfolding granted add_regular_group_permissions regular_group_limits gather gather_row conclude
    text_eq
granted-regular none = refl
granted-regular (some g) = refl

granted-groups :
    (db : Db) (ms : List (Text × Text)) (id : Text) (ids seen : List Text) (ls : PermissionLimits)
    → permissions_loop db (id ∷ ids) [] ≡ done seen
    → limits_loop db (id ∷ ids) minimal_limits ≡ done ls
    → Path UserAuthorization
        (granted (joined (record db { members = ms }) (id ∷ ids)))
        (record { permissions = in_order seen all_permission_keys; limits = ls; groups = id ∷ ids })
unfolding granted
granted-groups db ms id ids seen ls hp hl =
    ap conclude (
      gather-joined db ms (id ∷ ids) (record { seen = []; limits = minimal_limits; groups = [] })
        seen ls hp hl)
    ∙ unfold conclude in refl

granted-clean :
    (db : Db) (ms : List (Text × Text)) (user : Text) (ids ps : List Text) (ls : PermissionLimits)
    → member_ids user ms ≡ ids
    → permissions_of db ids ≡ done ps
    → limits_of db ids ≡ done ls
    → ((granted (authorization_rows (record db { members = ms }) user)).permissions ≡ ps)
      × ((granted (authorization_rows (record db { members = ms }) user)).limits ≡ ls)
granted-clean db ms user [] ps ls here hp hl =
    let o = db.groups permission_group_regular in
    rw (authorization_rows-regular (record db { members = ms }) user o here refl, granted-regular o)
      (done-injective _ ps hp, done-injective _ ls hl)
granted-clean db ms user (id ∷ ids) ps ls here hp hl =
    let (seen, found, same) =
      bind_done (permissions_loop db (id ∷ ids) [])
        (λ seen. done (in_order seen all_permission_keys)) ps hp in
    let (g, ok, exists, rest) = permissions_loop-cons db id ids [] seen found in
    rw
      (
        authorization_rows-groups (record db { members = ms }) user id ids here
            (assigned-true (record db { members = ms }) id g ok exists),
        granted-groups db ms id ids seen ls found hl,
      )
      (done-injective _ ps same, refl)

require_done : (b : Bool) (e : GroupError) (u : Unit {0}) → require b e ≡ done u → b ≡ true
unfolding require
require_done true e u h = refl
require_done false e u h = absurd (cc)

write-clean :
    (db : Db) (user : Text) (ids : List Text)
    → unique_non_empty ids ≡ ids
    → first_unassignable ids ≡ none
    → write_user_permission_groups db user ids
      ≡ done (record db { members = without_user user db.members ++ map (λ id. (user, id)) ids })
unfolding write_user_permission_groups
write-clean db user ids clean none_bad =
    rw (write_user_permission_groups, clean, none_bad)
      (ap
        (λ v.
          done (record db { members = without_user user db.members ++ map (λ id. (user, id)) v }))
        clean)

-- the first loop of `setUserPermissionGroups` has passed
set-passed :
    (db db' : Db) (user : Text) (raw : List Text) (actor : Option User)
    → set_user_permission_groups db user raw actor ≡ done db'
    → (first_unassignable (unique_non_empty raw) ≡ none)
      × (check_and_write db user (unique_non_empty raw) actor ≡ done db')
set-passed db db' user raw actor h =
    passed (first_unassignable (unique_non_empty raw)) (unfold set_user_permission_groups in h)
  where
    passed :
        (o : Option Text)
        → Path
            (Outcome Db)
            (elim o [
              | some id ↦ error (GroupError.not_assignable id)
              | none ↦ check_and_write db user (unique_non_empty raw) actor
            ])
            (done db')
        → (o ≡ none) × (check_and_write db user (unique_non_empty raw) actor ≡ done db')
    passed none k = (refl, k)
    passed (some id) k = absurd (cc)

-- what `check_and_write` has passed through
check-passed :
    (db db' : Db) (user : Text) (ids : List Text) (actor : Option User)
    → check_and_write db user ids actor ≡ done db'
    → (ps : List Text) × (ls : PermissionLimits) × (effective_permissions db ids ≡ done ps)
      × (actor_can_grant_permissions actor ps ≡ true)
      × (effective_limits db ids ≡ done ls)
      × (actor_can_grant_limits actor ls ≡ true)
      × (write_user_permission_groups db user ids ≡ done db')
unfolding check_and_write
check-passed db db' user ids actor h =
    let (ps, hp, h1) = bind_done (effective_permissions db ids) _ db' h in
    let (u, held, h2) = bind_done (require (actor_can_grant_permissions actor ps) _) _ db' h1 in
    let (ls, hl, h3) = bind_done (effective_limits db ids) _ db' h2 in
    let (v, below, h4) = bind_done (require (actor_can_grant_limits actor ls) _) _ db' h3 in
    (ps, ls, hp, require_done _ _ u held, hl, require_done _ _ v below, h4)

plain_authorization :
    (db : Db) (user role : Text)
    → text_eq role (codes "admin") ≡ false
    → authorization_for_user db user role ≡ granted (authorization_rows db user)
unfolding authorization_for_user granted
plain_authorization db user role plain = rw plain refl

-- Where `setUserPermissionGroups` succeeds for a user whose role is not the administrator's, the
-- permissions and limits that `authorizationForUser` then finds for the user are ones that the actor
-- can grant: nobody gives a user a permission that he lacks or a limit above his own.
pub set_groups_no_escalation :
    (db db' : Db) (user role : Text) (raw : List Text) (actor : Option User)
    → text_eq role (codes "admin") ≡ false
    → set_user_permission_groups db user raw actor ≡ done db'
    → (actor_can_grant_permissions actor (authorization_for_user db' user role).permissions ≡ true)
      × (actor_can_grant_limits actor (authorization_for_user db' user role).limits ≡ true)
set_groups_no_escalation db db' user role raw actor plain h =
    let ids = unique_non_empty raw in
    let clean = unique_non_empty_fixed raw in
    let (none_bad, passed) = set-passed db db' user raw actor h in
    let (ps, ls, hp, held, hl, below, written) = check-passed db db' user ids actor passed in
    let ms = without_user user db.members ++ map (λ id. (user, id)) ids in
    let e : record db { members = ms } ≡ db' =
      done-injective _ _ (sym (write-clean db user ids clean none_bad) ∙ written) in
    let (same_permissions, same_limits) =
      granted-clean db ms user ids ps ls (members_written user db.members ids)
        (sym (permissions_for_clean db ids clean) ∙ hp)
        (sym (limits_for_clean db ids clean) ∙ hl) in
    rw
      (
        ← e,
        plain_authorization (record db { members = ms }) user role plain,
        same_permissions,
        same_limits,
      )
      (held, below)
