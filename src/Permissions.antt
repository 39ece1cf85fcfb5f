-- ===== src/Permissions.antt =====
-- Permission limits and checks of permissions.go. A limit of 0 means unlimited. Limits are numbers
-- that may be negative only before `normalizePermissionLimits` has accepted them.
pub mod Keys
pub mod Escalation
mod Tests
pub mod Catalog
pub mod Groups
pub mod Members
pub mod Order
use lan_qin_email.Prelude.{
  ℕ, ◌+◌, ◌*◌, Bool, true, false, ◌&&◌, ◌||◌, Option, none, some, List, [], ◌∷◌, ltb, leb, ◌==◌,
  if◌then◌else◌, any,
}
use lan_qin_email.Prelude.Int.{ℤ, pos, negsuc, is_negative, pos_part}
use lan_qin_email.Prelude.Text.{Text, codes, text_eq, has}

pub record PermissionLimits : Type 0 where
  pub max_attachment_mb : ℕ
  pub smtp_daily_limit : ℕ
  pub smtp_minute_limit : ℕ
  pub imap_minute_limit : ℕ
  pub pop3_minute_limit : ℕ
  pub max_mailboxes : ℕ
  pub max_mailboxes_per_day : ℕ

-- the same struct before its fields were checked
pub record RawLimits : Type 0 where
  pub max_attachment_mb : ℤ
  pub smtp_daily_limit : ℤ
  pub smtp_minute_limit : ℤ
  pub imap_minute_limit : ℤ
  pub pop3_minute_limit : ℤ
  pub max_mailboxes : ℤ
  pub max_mailboxes_per_day : ℤ

unfoldable pub default_permission_limits : PermissionLimits
default_permission_limits = record {
  max_attachment_mb = 25;
  smtp_daily_limit = 200;
  smtp_minute_limit = 20;
  imap_minute_limit = 200;
  pop3_minute_limit = 150;
  max_mailboxes = 3;
  max_mailboxes_per_day = 1;
}

unfoldable pub minimal_limits : PermissionLimits
minimal_limits = record {
  max_attachment_mb = 1;
  smtp_daily_limit = 1;
  smtp_minute_limit = 1;
  imap_minute_limit = 1;
  pop3_minute_limit = 1;
  max_mailboxes = 1;
  max_mailboxes_per_day = 1;
}

-- `normalizePermissionLimits`: `none` is one of its errors
unfoldable pub normalize_permission_limits : RawLimits → Option PermissionLimits
normalize_permission_limits l =
    if is_negative l.max_attachment_mb
      || is_negative l.smtp_daily_limit
      || is_negative l.smtp_minute_limit
      || is_negative l.imap_minute_limit
      || is_negative l.pop3_minute_limit
      || is_negative l.max_mailboxes
      || is_negative l.max_mailboxes_per_day
    then none
    else some (record {
      max_attachment_mb = pos_part l.max_attachment_mb;
      smtp_daily_limit = pos_part l.smtp_daily_limit;
      smtp_minute_limit = pos_part l.smtp_minute_limit;
      imap_minute_limit = pos_part l.imap_minute_limit;
      pop3_minute_limit = pos_part l.pop3_minute_limit;
      max_mailboxes = pos_part l.max_mailboxes;
      max_mailboxes_per_day = pos_part l.max_mailboxes_per_day;
    })

unfoldable pub merge_limit_value : ℕ → ℕ → ℕ
merge_limit_value left right =
    if left == 0 || right == 0 then 0 else if ltb left right then right else left

unfoldable pub merge_permission_limits : PermissionLimits → PermissionLimits → PermissionLimits
merge_permission_limits l r = record {
  max_attachment_mb = merge_limit_value l.max_attachment_mb r.max_attachment_mb;
  smtp_daily_limit = merge_limit_value l.smtp_daily_limit r.smtp_daily_limit;
  smtp_minute_limit = merge_limit_value l.smtp_minute_limit r.smtp_minute_limit;
  imap_minute_limit = merge_limit_value l.imap_minute_limit r.imap_minute_limit;
  pop3_minute_limit = merge_limit_value l.pop3_minute_limit r.pop3_minute_limit;
  max_mailboxes = merge_limit_value l.max_mailboxes r.max_mailboxes;
  max_mailboxes_per_day = merge_limit_value l.max_mailboxes_per_day r.max_mailboxes_per_day;
}

unfoldable pub can_grant_limit_value : ℕ → ℕ → Bool
can_grant_limit_value actor_limit requested_limit =
    if actor_limit == 0
    then true
    else if requested_limit == 0
    then false
    else leb requested_limit actor_limit

-- the user fields that the checks read
pub record User : Type 0 where
  pub id : Text
  pub role : Text
  pub permissions : List Text
  pub limits : PermissionLimits
  pub mailbox_quota_bonus : ℕ

abbrev pub is_admin : User → Bool
is_admin u = text_eq u.role (codes "admin")

-- the seven comparisons of `actorCanGrantLimits`
unfoldable pub can_grant_all : PermissionLimits → PermissionLimits → Bool
can_grant_all a l =
    can_grant_limit_value a.max_attachment_mb l.max_attachment_mb
    && (can_grant_limit_value a.smtp_daily_limit l.smtp_daily_limit
        && (can_grant_limit_value a.smtp_minute_limit l.smtp_minute_limit
            && (can_grant_limit_value a.imap_minute_limit l.imap_minute_limit
                && (can_grant_limit_value a.pop3_minute_limit l.pop3_minute_limit
                    && (can_grant_limit_value a.max_mailboxes l.max_mailboxes
                        && can_grant_limit_value a.max_mailboxes_per_day
                            l.max_mailboxes_per_day)))))

-- `nil` is `none`
unfoldable pub actor_can_grant_limits : Option User → PermissionLimits → Bool
actor_can_grant_limits none l = false
actor_can_grant_limits (some actor) l =
    if is_admin actor then true else can_grant_all actor.limits l

unfoldable pub attachment_limit_bytes : PermissionLimits → ℕ
attachment_limit_bytes l =
    if leb l.max_attachment_mb 0 then 0 else l.max_attachment_mb * 1024 * 1024

unfoldable pub effective_mailbox_limit : Option User → ℕ
effective_mailbox_limit none = 0
effective_mailbox_limit (some u) =
    if u.limits.max_mailboxes == 0 then 0 else u.limits.max_mailboxes + u.mailbox_quota_bonus

unfoldable pub user_has_permission : Option User → Text → Bool
user_has_permission none permission = false
user_has_permission (some u) permission = if is_admin u then true else has permission u.permissions

unfoldable pub user_has_any_permission : Option User → List Text → Bool
user_has_any_permission none permissions = false
user_has_any_permission (some u) permissions =
    if is_admin u then true else any (user_has_permission (some u)) permissions

-- whether every permission of a list passes; the loop of `actorCanGrantPermissions`
unfoldable pub holds_all : Option User → List Text → Bool
holds_all u [] = true
holds_all u (p ∷ ps) = user_has_permission u p && holds_all u ps

unfoldable pub actor_can_grant_permissions : Option User → List Text → Bool
actor_can_grant_permissions none permissions = false
actor_can_grant_permissions (some actor) permissions =
    if is_admin actor then true else holds_all (some actor) permissions
