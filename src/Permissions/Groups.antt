-- ===== src/Permissions/Groups.antt =====
-- Permission groups and their members: what a set of groups grants, who may assign it, and what a
-- user is authorised to do. A failing database call, which ends each of these functions with its
-- error inside the caller's transaction, is not modelled.
use lan_qin_email.Prelude.{
  Bool, true, false, ◌&&◌, ◌||◌, not, Option, none, some, List, [], ◌∷◌, ◌++◌, map, if◌then◌else◌,
  any,
}
use lan_qin_email.Prelude.Text.{Text, codes, text_eq, is_empty}
use lan_qin_email.Address.{unique_non_empty}
use lan_qin_email.Permissions.{
  PermissionLimits, RawLimits, default_permission_limits, minimal_limits,
  normalize_permission_limits, merge_permission_limits, User, actor_can_grant_limits,
  actor_can_grant_permissions,
}
use lan_qin_email.Permissions.Keys.{
  all_permission_keys, permission_group_super_admin, permission_group_regular,
}
use lan_qin_email.Permissions.Catalog.{add_all, in_order, decode_stored_permissions}

-- a row of `permission_groups`: its permissions are what `json.Unmarshal` makes of their text, its
-- limits what it makes of theirs over the defaults, `none` for a blank text
pub record Group : Type 0 where
  pub name : Text
  pub permissions : Option (List Text)
  pub limits : Option RawLimits

-- the tables `permission_groups`, by primary key, and `user_permission_groups`
pub record Db : Type 0 where
  pub groups : Text → Option Group
  pub members : List (Text × Text)

unfoldable pub decode_stored_limits : Option RawLimits → PermissionLimits
decode_stored_limits none = default_permission_limits
decode_stored_limits (some raw) = elim (normalize_permission_limits raw) [
  | none ↦ default_permission_limits
  | some normalized ↦ normalized
]

unfoldable pub is_assignable_permission_group_id : Text → Bool
is_assignable_permission_group_id id =
    not (is_empty id)
    && (not (text_eq id permission_group_super_admin) && not (text_eq id permission_group_regular))

pub data GroupError : Type 0 where
  not_assignable not_found : Text → GroupError
  permissions_not_held limits_above : GroupError

pub data Outcome {ℓ} (A : Type ℓ) : Type ℓ where
  done : A → Outcome A
  error : GroupError → Outcome A

infixl 5 ◌>>=◌
abbrev pub ◌>>=◌ {ℓ κ} : {A : Type ℓ} {B : Type κ} → Outcome A → (A → Outcome B) → Outcome B
done a >>= f = f a
error e >>= f = error e

-- the checks on one id: it is assignable, and the group exists
unfoldable pub require_group : Db → Text → Outcome Group
require_group db id =
    if is_assignable_permission_group_id id
    then elim (db.groups id) [ none ↦ error (not_found id) | some g ↦ done g ]
    else error (not_assignable id)

-- the loop of `permissionsForGroupIDs`
unfoldable pub permissions_loop : Db → List Text → List Text → Outcome (List Text)
permissions_loop db [] seen = done seen
permissions_loop db (id ∷ ids) seen = do
  g ← require_group db id
  permissions_loop db ids (add_all (decode_stored_permissions g.permissions) seen)

unfoldable pub permissions_for_group_ids : Db → List Text → Outcome (List Text)
permissions_for_group_ids db ids = do
  seen ← permissions_loop db (unique_non_empty ids) []
  done (in_order seen all_permission_keys)

-- the loop of `limitsForGroupIDs`
unfoldable pub limits_loop : Db → List Text → PermissionLimits → Outcome PermissionLimits
limits_loop db [] limits = done limits
limits_loop db (id ∷ ids) limits = do
  g ← require_group db id
  limits_loop db ids (merge_permission_limits limits (decode_stored_limits g.limits))

unfoldable pub limits_for_group_ids : Db → List Text → Outcome PermissionLimits
limits_for_group_ids db ids = limits_loop db (unique_non_empty ids) minimal_limits

-- `addRegularGroupPermissions`
unfoldable pub add_regular_group_permissions : Option Group → List Text → List Text
add_regular_group_permissions none seen = seen
add_regular_group_permissions (some g) seen = add_all (decode_stored_permissions g.permissions) seen

-- `regularGroupLimits`, with the defaults where the group is missing
unfoldable pub regular_group_limits : Option Group → PermissionLimits
regular_group_limits none = default_permission_limits
regular_group_limits (some g) = decode_stored_limits g.limits

unfoldable pub effective_permissions : Db → List Text → Outcome (List Text)
effective_permissions db raw = elim (unique_non_empty raw) [
  | [] ↦ done (
      in_order (add_regular_group_permissions (db.groups permission_group_regular) [])
        all_permission_keys)
  | id ∷ ids ↦ permissions_for_group_ids db (id ∷ ids)
]

unfoldable pub effective_limits : Db → List Text → Outcome PermissionLimits
effective_limits db raw = elim (unique_non_empty raw) [
  | [] ↦ done (regular_group_limits (db.groups permission_group_regular))
  | id ∷ ids ↦ limits_for_group_ids db (id ∷ ids)
]

-- `DELETE … WHERE user_id=?`
unfoldable pub without_user : Text → List (Text × Text) → List (Text × Text)
without_user user [] = []
without_user user ((u, g) ∷ ms) =
    let rest = without_user user ms in if text_eq u user then rest else (u, g) ∷ rest

-- the first id that may not be assigned
unfoldable pub first_unassignable : List Text → Option Text
first_unassignable [] = none
first_unassignable (id ∷ ids) =
    let rest = first_unassignable ids in
    if is_assignable_permission_group_id id then rest else some id

-- `writeUserPermissionGroups`
unfoldable pub write_user_permission_groups : Db → Text → List Text → Outcome Db
write_user_permission_groups db user raw =
    let ids = unique_non_empty raw in
    elim (first_unassignable ids) [
      | some id ↦ error (not_assignable id)
      | none ↦
          done (record db { members = without_user user db.members ++ map (λ id. (user, id)) ids })
    ]

unfoldable pub require : Bool → GroupError → Outcome (Unit {0})
require true e = done tt
require false e = error e

-- `setUserPermissionGroups` behind its first loop
unfoldable pub check_and_write : Db → Text → List Text → Option User → Outcome Db
check_and_write db user ids actor = do
  permissions ← effective_permissions db ids
  held ← require (actor_can_grant_permissions actor permissions) permissions_not_held
  limits ← effective_limits db ids
  below ← require (actor_can_grant_limits actor limits) limits_above
  write_user_permission_groups db user ids

unfoldable pub set_user_permission_groups : Db → Text → List Text → Option User → Outcome Db
set_user_permission_groups db user raw actor =
    let ids = unique_non_empty raw in
    elim (first_unassignable ids) [
      | some id ↦ error (not_assignable id)
      | none ↦ check_and_write db user ids actor
    ]

-- `validateAssignableGroupIDsTx`
unfoldable pub validate_loop : Db → List Text → Outcome (Unit {0})
validate_loop db [] = done tt
validate_loop db (id ∷ ids) = do g ← require_group db id; validate_loop db ids

unfoldable pub validate_assignable_group_ids : Db → List Text → Outcome (Unit {0})
validate_assignable_group_ids db ids = validate_loop db (unique_non_empty ids)

-- the group ids of a user's rows
unfoldable pub member_ids : Text → List (Text × Text) → List Text
member_ids user [] = []
member_ids user ((u, g) ∷ ms) =
    let rest = member_ids user ms in if text_eq u user then g ∷ rest else rest

-- `JOIN permission_groups`, leaving out the regular group
unfoldable pub joined : Db → List Text → List (Text × Group)
joined db [] = []
joined db (id ∷ ids) =
    let rest = joined db ids in
    if text_eq id permission_group_regular
    then rest
    else elim (db.groups id) [ none ↦ rest | some g ↦ (id, g) ∷ rest ]

-- the `EXISTS` of the query: a group other than the two fixed ones is assigned
unfoldable pub assigned : Db → Text → Bool
assigned db id =
    not (text_eq id permission_group_super_admin)
    && not (text_eq id permission_group_regular)
    && elim (db.groups id) [ none ↦ false | some g ↦ true ]

unfoldable pub authorization_rows : Db → Text → List (Text × Group)
authorization_rows db user =
    let ids = member_ids user db.members in
    (if any (assigned db) ids then [] else elim (db.groups permission_group_regular) [
      | none ↦ []
      | some g ↦ (permission_group_regular, g) ∷ []
    ])
    ++ joined db ids

pub record UserAuthorization : Type 0 where
  pub permissions : List Text
  pub limits : PermissionLimits
  pub groups : List Text

-- what the loop of `authorizationForUser` has gathered
pub record Gathered : Type 0 where
  pub seen : List Text
  pub limits : PermissionLimits
  pub groups : List Text

unfoldable pub gather_row : Text → Group → Gathered → Gathered
gather_row id g a =
    let limits =
      if text_eq id permission_group_regular
      then decode_stored_limits g.limits
      else merge_permission_limits a.limits (decode_stored_limits g.limits) in
    if text_eq id permission_group_regular || is_assignable_permission_group_id id
    then record {
      seen = add_all (decode_stored_permissions g.permissions) a.seen;
      limits = limits;
      groups = a.groups ++ id ∷ [];
    }
    else a

unfoldable pub gather : List (Text × Group) → Gathered → Gathered
gather [] a = a
gather ((id, g) ∷ rows) a = gather rows (gather_row id g a)

unfoldable pub conclude : Gathered → UserAuthorization
conclude a =
    let permissions = in_order a.seen all_permission_keys in
    elim a.groups [
      | [] ↦ record {
        permissions = permissions;
        limits = default_permission_limits;
        groups = permission_group_regular ∷ [];
      }
      | id ∷ ids ↦ record { permissions = permissions; limits = a.limits; groups = id ∷ ids }
    ]

-- `authorizationForUser`; the groups are left in the order of the rows
unfoldable pub authorization_for_user : Db → Text → Text → UserAuthorization
authorization_for_user db user role =
    if text_eq role (codes "admin")
    then record {
      permissions = all_permission_keys;
      limits = record {
        max_attachment_mb = 0;
        smtp_daily_limit = 0;
        smtp_minute_limit = 0;
        imap_minute_limit = 0;
        pop3_minute_limit = 0;
        max_mailboxes = 0;
        max_mailboxes_per_day = 0;
      };
      groups = permission_group_super_admin ∷ [];
    }
    else conclude (
        gather (authorization_rows db user)
          (record { seen = []; limits = minimal_limits; groups = [] }))
