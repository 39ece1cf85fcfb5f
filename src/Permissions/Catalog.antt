-- ===== src/Permissions/Catalog.antt =====
-- Lists of permission keys: normalising a requested list and decoding a stored one.
use lan_qin_email.Prelude.{Bool, Option, none, some, List, [], ◌∷◌, if◌then◌else◌}
use lan_qin_email.Prelude.Text.{Text, codes, text_eq, has, trim_space, is_empty, starts_with}
use lan_qin_email.Permissions.{User, user_has_any_permission}
use lan_qin_email.Permissions.Keys.{all_permission_keys, legacy_permission_expansions}

-- a Go set of texts is the list of its elements, newest first
unfoldable pub add_all : List Text → List Text → List Text
add_all [] seen = seen
add_all (p ∷ ps) seen = add_all ps (p ∷ seen)

unfoldable pub expansion : Text → List (Text × List Text) → Option (List Text)
expansion item [] = none
expansion item ((key, expanded) ∷ rest) =
    if text_eq key item then some expanded else expansion item rest

-- what `addPermissionToSet` adds for a known item
unfoldable pub add_expansion : Option (List Text) → List Text → Option (List Text)
add_expansion none seen = none
add_expansion (some expanded) seen = some (add_all expanded seen)

-- `addPermissionToSet`: the new set, or `none` for `false`, which leaves the set as it was
unfoldable pub add_permission_to_set : Text → List Text → Option (List Text)
add_permission_to_set raw seen =
    let item = trim_space raw in
    if is_empty item
    then some seen
    else if has item all_permission_keys
    then some (item ∷ seen)
    else add_expansion (expansion item legacy_permission_expansions) seen

-- the keys of the catalogue that a set holds, in the catalogue's order
unfoldable pub in_order : List Text → List Text → List Text
in_order seen [] = []
in_order seen (k ∷ ks) = let rest = in_order seen ks in if has k seen then k ∷ rest else rest

-- the loop of `normalizePermissionList`
unfoldable pub collect_strict : List Text → List Text → Option (List Text)
collect_strict [] seen = some seen
collect_strict (item ∷ items) seen = elim (add_permission_to_set (trim_space item) seen) [
  | none ↦ none
  | some more ↦ collect_strict items more
]

-- `normalizePermissionList`: `none` is its error
unfoldable pub normalize_permission_list : List Text → Option (List Text)
normalize_permission_list items = elim (collect_strict items []) [
  | none ↦ none
  | some seen ↦ some (in_order seen all_permission_keys)
]

-- the loop of `decodeStoredPermissions`: unknown items are passed over
unfoldable pub collect_known : List Text → List Text → List Text
collect_known [] seen = seen
collect_known (item ∷ items) seen =
    collect_known items (elim (add_permission_to_set item seen) [ none ↦ seen | some more ↦ more ])

-- `decodeStoredPermissions` on what `json.Unmarshal` makes of the stored text, `none` for an error
unfoldable pub decode_stored_permissions : Option (List Text) → List Text
decode_stored_permissions none = []
decode_stored_permissions (some raw) = in_order (collect_known raw []) all_permission_keys

-- the list that `encodePermissions` stores
unfoldable pub encode_permissions : List Text → List Text
encode_permissions items = elim (normalize_permission_list items) [
  | none ↦ []
  | some normalized ↦ normalized
]

unfoldable pub keep_prefix : Text → List Text → List Text
keep_prefix prefix [] = []
keep_prefix prefix (k ∷ ks) =
    let rest = keep_prefix prefix ks in if starts_with prefix k then k ∷ rest else rest

unfoldable pub admin_permission_keys : List Text
admin_permission_keys = keep_prefix (codes "admin.") all_permission_keys

unfoldable pub user_has_admin_access : Option User → Bool
user_has_admin_access u = user_has_any_permission u admin_permission_keys
