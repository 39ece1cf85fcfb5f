-- ===== src/Invite.antt =====
-- Registration invites of registration_invite_handlers.go: codes, creating, deleting, checking and
-- spending them.
pub mod Spending
pub mod Validity
mod Tests
use lan_qin_email.Prelude.{
  ℕ, ◌+◌, ◌-◌, Bool, true, false, ◌&&◌, ◌||◌, Option, none, some, List, [], ◌∷◌, leb, ltb, ◌==◌,
  if◌then◌else◌, map, any,
}
use lan_qin_email.Prelude.Text.{Text, codes, text_eq, trim_space, is_empty}
use lan_qin_email.Address.{byte_length, unique_non_empty}
use lan_qin_email.Permissions.Groups.{Db, Outcome, done, error, validate_assignable_group_ids}

-- a row of `registration_invites`, without its author and times; `group_ids` is the list that
-- `permission_group_ids_json` spells
pub record Invite : Type 0 where
  pub id : Text
  pub code : Text
  pub max_uses : ℕ
  pub used_count : ℕ
  pub group_ids : List Text

abbrev pub is_code_char : ℕ → Bool
is_code_char c = (leb b'A' c && leb c b'Z') || (leb b'0' c && leb c b'9') || c == b'-' || c == b'_'

-- the loop of `normalizeRegistrationInviteCode`
unfoldable pub all_code_chars : Text → Bool
all_code_chars [] = true
all_code_chars (c ∷ s) = is_code_char c && all_code_chars s

-- `normalizeRegistrationInviteCode`, given `unicode.ToUpper`: `none` is one of its errors
unfoldable pub normalize_registration_invite_code : (ℕ → ℕ) → Text → Option Text
normalize_registration_invite_code upper value =
    let code = map upper (trim_space value) in
    if ltb (byte_length code) 4 || ltb 64 (byte_length code)
    then none
    else if all_code_chars code
    then some code
    else none

-- `code=? AND used_count<max_uses`
abbrev pub available : Text → Invite → Bool
available code i = text_eq i.code code && ltb i.used_count i.max_uses

abbrev pub use_up : Invite → Invite
use_up i = record i { used_count = i.used_count + 1 }

-- the `UPDATE` of `consumeRegistrationInviteTx`, and the rows that it changes
unfoldable pub spend : Text → List Invite → List Invite
spend code [] = []
spend code (i ∷ is) = (if available code i then use_up i else i) ∷ spend code is

unfoldable pub spent : Text → List Invite → ℕ
spent code [] = 0
spent code (i ∷ is) = (if available code i then 1 else 0) + spent code is

-- the group ids of a code
unfoldable pub groups_of : Text → List Invite → Option (List Text)
groups_of code [] = none
groups_of code (i ∷ is) =
    let rest = groups_of code is in if text_eq i.code code then some i.group_ids else rest

pub data Consumed : Type 0 where
  granted : List Text → Consumed
  invalid group_unavailable failed : Consumed

-- the answer behind the validation of the groups
abbrev pub grant : Outcome (Unit {0}) → List Text → Consumed
grant (done u) ids = granted ids
grant (error e) ids = group_unavailable

abbrev pub check_groups : Db → Option (List Text) → Consumed
check_groups db none = failed
check_groups db (some raw) =
    let ids = unique_non_empty raw in grant (validate_assignable_group_ids db ids) ids

-- `consumeRegistrationInviteTx` behind the code: what it returns, and the table inside the caller's
-- transaction
abbrev pub consume_code : Db → Option Text → List Invite → Consumed × List Invite
consume_code db none invites = (invalid, invites)
consume_code db (some code) invites =
    if spent code invites == 1
    then (check_groups db (groups_of code (spend code invites)), spend code invites)
    else (invalid, spend code invites)

unfoldable pub consume_registration_invite :
    (ℕ → ℕ) → Db → Text → List Invite → Consumed × List Invite
consume_registration_invite upper db code invites =
    consume_code db (normalize_registration_invite_code upper code) invites

-- the caller's transaction, which is rolled back unless groups are granted
abbrev pub commit : Consumed × List Invite → List Invite → Consumed × List Invite
commit (granted ids, after) before = (granted ids, after)
commit (invalid, after) before = (invalid, before)
commit (group_unavailable, after) before = (group_unavailable, before)
commit (failed, after) before = (failed, before)

abbrev pub is_available : Option Text → List Invite → Bool
is_available none invites = false
is_available (some code) invites = any (available code) invites

-- `validateRegistrationInvite`
unfoldable pub validate_registration_invite : (ℕ → ℕ) → Text → List Invite → Bool
validate_registration_invite upper value invites =
    is_available (normalize_registration_invite_code upper value) invites

pub data CreateError : Type 0 where
  bad_uses bad_groups bad_code code_taken : CreateError

pub data Created : Type 0 where
  created : Invite → Created
  refused : CreateError → Created

-- `handleCreateRegistrationInvite` behind the code, which is unique in the table
abbrev pub insert_invite : Text → ℕ → List Text → Option Text → List Invite → Created × List Invite
insert_invite id max_uses group_ids none invites = (refused bad_code, invites)
insert_invite id max_uses group_ids (some code) invites =
    if any (λ i. text_eq i.code code) invites
    then (refused code_taken, invites)
    else (let i : Invite = record {
      id = id;
      code = code;
      max_uses = max_uses;
      used_count = 0;
      group_ids = group_ids;
    } in
        (created i, i ∷ invites))

-- the part behind the validation of the groups
abbrev pub create_checked :
    Outcome (Unit {0}) → Text → ℕ → List Text → Option Text → List Invite → Created × List Invite
create_checked (error e) id max_uses group_ids code invites = (refused bad_groups, invites)
create_checked (done u) id max_uses group_ids code invites =
    insert_invite id max_uses group_ids code invites

-- `handleCreateRegistrationInvite`; `fresh` is the code drawn for an empty one
unfoldable pub create_invite :
    (ℕ → ℕ) → Db → Text → Text → Text → ℕ → List Text → List Invite → Created × List Invite
create_invite upper db id fresh raw max_uses raw_groups invites =
    let group_ids = unique_non_empty raw_groups in
    let trimmed = trim_space raw in
    let code = if is_empty trimmed then fresh else trimmed in
    if ltb max_uses 1 || ltb 1_000_000 max_uses
    then (refused bad_uses, invites)
    else create_checked (validate_assignable_group_ids db group_ids) id max_uses group_ids
        (normalize_registration_invite_code upper code) invites

-- `handleDeleteRegistrationInvite`
unfoldable pub delete_invite : Text → List Invite → List Invite
delete_invite id [] = []
delete_invite id (i ∷ is) =
    let rest = delete_invite id is in if text_eq i.id id then rest else i ∷ rest
