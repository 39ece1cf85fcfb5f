-- ===== src/Permissions/Tests.antt =====
-- Concrete cases of the permission theorems.
use lan_qin_email.Prelude.{◌≡◌, refl, true, false, ◌&&◌, none, some, [], ◌∷◌}
use lan_qin_email.Prelude.Text.{codes, text_eq, has, trim_space}
use lan_qin_email.Address.{unique_non_empty, unique_loop}
use lan_qin_email.Permissions.Catalog.{
  decode_stored_permissions, collect_known, add_permission_to_set, add_expansion, expansion,
  add_all, in_order,
}
use lan_qin_email.Permissions.{
  default_permission_limits, minimal_limits, merge_permission_limits, User, can_grant_limit_value,
  merge_limit_value, holds_all, user_has_permission, can_grant_all, actor_can_grant_limits,
  actor_can_grant_permissions,
}
use lan_qin_email.Permissions.Keys.{all_permission_keys}
use lan_qin_email.Permissions.Groups.{
  decode_stored_limits, is_assignable_permission_group_id, check_and_write, effective_permissions,
  permissions_for_group_ids, permissions_loop, require_group, require, effective_limits,
  limits_for_group_ids, limits_loop, first_unassignable, write_user_permission_groups, without_user,
  Db, Group, done, set_user_permission_groups, authorization_for_user,
}
use lan_qin_email.Permissions.Order.{actor_can_grant-merge, merge_laws}
use lan_qin_email.Permissions.Escalation.{set_groups_no_escalation}

abbrev staff_group : Group
staff_group = record {
  name = codes "staff";
  permissions = some (codes "mail.access" ∷ []);
  limits = none;
}

abbrev db : Db
db = record {
  groups = λ id. elim (text_eq id (codes "staff")) [ true ↦ some staff_group | false ↦ none ];
  members = (codes "ann", codes "old") ∷ (codes "bob", codes "old") ∷ [];
}

abbrev written : Db
written = record db { members = (codes "bob", codes "old") ∷ (codes "ann", codes "staff") ∷ [] }

abbrev manager : User
manager = record {
  id = codes "m";
  role = codes "user";
  permissions = codes "mail.access" ∷ codes "mail.messages.read" ∷ [];
  limits = default_permission_limits;
  mailbox_quota_bonus = 0;
}

staff_set :
    set_user_permission_groups db (codes "ann") (codes " staff" ∷ codes "staff" ∷ []) (some manager)
    ≡ done written
unfolding set_user_permission_groups first_unassignable unique_non_empty unique_loop text_eq has
    trim_space is_assignable_permission_group_id check_and_write effective_permissions
    permissions_for_group_ids permissions_loop require_group decode_stored_permissions collect_known
    add_permission_to_set add_expansion expansion add_all in_order require
    actor_can_grant_permissions holds_all user_has_permission effective_limits limits_for_group_ids
    limits_loop decode_stored_limits merge_permission_limits minimal_limits merge_limit_value
    default_permission_limits actor_can_grant_limits can_grant_all can_grant_limit_value
    write_user_permission_groups without_user all_permission_keys
staff_set = refl

set_groups_no_escalation_example :
    (actor_can_grant_permissions
        (some manager)
        (authorization_for_user written (codes "ann") (codes "user")).permissions
      ≡ true)
    × (actor_can_grant_limits
          (some manager)
          (authorization_for_user written (codes "ann") (codes "user")).limits
        ≡ true)
set_groups_no_escalation_example =
    set_groups_no_escalation db written (codes "ann") (codes "user")
      (codes " staff" ∷ codes "staff" ∷ []) (some manager) (unfold text_eq in refl) staff_set

merge_laws_example :
    (merge_permission_limits minimal_limits default_permission_limits
      ≡ merge_permission_limits default_permission_limits minimal_limits)
    × (merge_permission_limits
          (merge_permission_limits minimal_limits default_permission_limits)
          minimal_limits
        ≡ merge_permission_limits minimal_limits
            (merge_permission_limits default_permission_limits minimal_limits))
    × (merge_permission_limits minimal_limits minimal_limits ≡ minimal_limits)
merge_laws_example = merge_laws minimal_limits default_permission_limits minimal_limits

actor_can_grant-merge_example :
    actor_can_grant_limits
      (some manager)
      (merge_permission_limits minimal_limits default_permission_limits)
    ≡ (actor_can_grant_limits (some manager) minimal_limits
        && actor_can_grant_limits (some manager) default_permission_limits)
actor_can_grant-merge_example =
    actor_can_grant-merge (some manager) minimal_limits default_permission_limits
