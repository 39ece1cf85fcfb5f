-- ===== src/Sharing/Requests.antt =====
-- What the sharing handlers look up and check before they write: mailboxes, users, the scope and the
-- expiry of a request.
use lan_qin_email.Prelude.{
  ℕ, ◌+◌, ◌*◌, Bool, true, false, ◌&&◌, ◌||◌, not, Option, none, some, List, [], ◌∷◌, ltb, ◌==◌,
  length, if◌then◌else◌,
}
use lan_qin_email.Prelude.Text.{Text, text_eq, is_empty, trim_space}
use lan_qin_email.Prelude.Int.{ℤ, pos, negsuc}
use lan_qin_email.Prelude.Rows.{select_first}
use lan_qin_email.Std.{Std}
use lan_qin_email.Address.{to_lower, unique_non_empty}
use lan_qin_email.Permissions.{User}
use lan_qin_email.Permissions.Groups.{authorization_for_user}
use lan_qin_email.Sharing.{Db, Mailbox, Account, scope_all, scope_custom, day}

-- the earlier of two mailboxes, the first at a tie
abbrev earlier : Mailbox → Option Mailbox → Mailbox
earlier m none = m
earlier m (some n) = if ltb n.created_at m.created_at then n else m

-- `WHERE user_id=? AND status='active' ORDER BY created_at LIMIT 1`
unfoldable pub oldest : Text → List Mailbox → Option Mailbox
oldest user [] = none
oldest user (m ∷ ms) =
    let rest = oldest user ms in
    if text_eq m.user_id user && m.active then some (earlier m rest) else rest

unfoldable pub mailbox_for_user : Db → Text → Option Mailbox
mailbox_for_user db user = oldest user db.mailboxes

-- `WHERE id=? AND user_id=? AND status='active'`
abbrev pub own_mailbox : Text → Text → Mailbox → Bool
own_mailbox id user m = text_eq m.id id && (text_eq m.user_id user && m.active)

-- `mailboxForCurrentUserWithID` for a user who is logged in
unfoldable pub mailbox_for_current_user : Db → Text → Text → Option Mailbox
mailbox_for_current_user db user raw_id =
    let id = trim_space raw_id in
    if not (is_empty id)
    then select_first (own_mailbox id user) db.mailboxes
    else mailbox_for_user db user

abbrev authorized : Db → Text → Account → User
authorized db id u =
    let auth = authorization_for_user db.groups id u.role in
    record {
      id = id;
      role = u.role;
      permissions = auth.permissions;
      limits = auth.limits;
      mailbox_quota_bonus = u.mailbox_quota_bonus;
    }

-- `userByID`: the user with its authorisation, and whether it is disabled
unfoldable pub user_by_id : Db → Text → Option (User × Bool)
user_by_id db id = elim (db.users id) [
  | none ↦ none
  | some u ↦ some (authorized db id u, u.disabled)
]

-- a row of `folders` or `mail_labels` with an id and a mailbox
unfoldable pub belongs_to_mailbox : Text → Text → List (Text × Text) → Bool
belongs_to_mailbox id mailbox [] = false
belongs_to_mailbox id mailbox ((i, m) ∷ rows) =
    (text_eq i id && text_eq m mailbox) || belongs_to_mailbox id mailbox rows

unfoldable pub all_belong : List Text → Text → List (Text × Text) → Bool
all_belong [] mailbox rows = true
all_belong (id ∷ ids) mailbox rows =
    belongs_to_mailbox id mailbox rows && all_belong ids mailbox rows

-- `time.Parse` with the layouts RFC3339 and RFC3339Nano
pub record TimeLib : Type 0 where
  pub parse_rfc3339 : Text → Option ℕ
  pub parse_rfc3339_nano : Text → Option ℕ

pub record ShareRequest : Type 0 where
  pub scope : Text
  pub folder_ids : List Text
  pub label_ids : List Text
  pub include_starred : Bool
  pub allow_attachments : Option Bool
  pub expires_in_days : Option ℤ
  pub expires_at : Option Text
  pub version : ℤ

-- the checked scope of a request: what `validateMailboxShareScope` returns and writes back
pub record Scope : Type 0 where
  pub scope : Text
  pub folder_ids : List Text
  pub label_ids : List Text
  pub include_starred : Bool

-- the loops on the folders and the labels
abbrev pub check_ids : Db → Text → Scope → Option Scope
check_ids db mailbox s =
    if all_belong s.folder_ids mailbox db.folders
    then if all_belong s.label_ids mailbox db.labels then some s else none
    else none

-- `validateMailboxShareScope`: `none` is one of its errors
unfoldable pub validate_mailbox_share_scope : Std → Db → Text → ShareRequest → Option Scope
validate_mailbox_share_scope std db mailbox req =
    let scope = to_lower std (trim_space req.scope) in
    let folder_ids = unique_non_empty req.folder_ids in
    let label_ids = unique_non_empty req.label_ids in
    if not (text_eq scope scope_all) && not (text_eq scope scope_custom)
    then none
    else if ltb 100 (length folder_ids) || ltb 100 (length label_ids)
    then none
    else if text_eq scope scope_custom
        && (length folder_ids == 0 && (length label_ids == 0 && not req.include_starred))
    then none
    else check_ids db mailbox (
        if text_eq scope scope_all
        then record { scope = scope; folder_ids = []; label_ids = []; include_starred = false }
        else record {
          scope = scope;
          folder_ids = folder_ids;
          label_ids = label_ids;
          include_starred = req.include_starred;
        })

-- what `shareExpiration` answers: an error, the old expiry, or a new one
pub data Expiration : Type 0 where
  bad_expiration keep : Expiration
  expires : Option ℕ → Expiration

abbrev pub days_choice : ℕ → ℤ → Expiration
days_choice now (negsuc n) = bad_expiration
days_choice now (pos n) =
    if not (n == 0) && (not (n == 7) && (not (n == 30) && not (n == 90)))
    then bad_expiration
    else expires (if ltb 0 n then some (now + n * day) else none)

-- the second layout is tried where the first fails
abbrev pub first_parsed : Option ℕ → Option ℕ → Option ℕ
first_parsed (some t) other = some t
first_parsed none other = other

abbrev pub after_now : ℕ → Option ℕ → Expiration
after_now now none = bad_expiration
after_now now (some t) = if ltb now t then expires (some t) else bad_expiration

unfoldable pub share_expiration : TimeLib → ℕ → Option ℤ → Option Text → Bool → Expiration
share_expiration time now (some days) (some raw) keep_allowed = bad_expiration
share_expiration time now none none keep_allowed = if keep_allowed then keep else expires none
share_expiration time now (some days) none keep_allowed = days_choice now days
share_expiration time now none (some raw) keep_allowed =
    let value = trim_space raw in
    after_now now (first_parsed (time.parse_rfc3339 value) (time.parse_rfc3339_nano value))
