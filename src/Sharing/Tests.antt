-- ===== src/Sharing/Tests.antt =====
-- Concrete cases of the sharing of mailboxes: a mailbox of alice, shared with bob for one folder.
use lan_qin_email.Instant.{nanoseconds, stored_before, text_lt, fraction_text, trim_zeros, digits}
use lan_qin_email.Prelude.{
  ◌*◌, ◌+◌, ℕ, ◌≡◌, ◌≢◌, refl, subst, sym, ap, ◌∙◌, Bool, true, false, none, some, List, [], ◌∷◌,
  inr, All, ◌↔◌,
}
use lan_qin_email.Prelude.Text.{
  Text, codes, text_eq, text_eq_iff, trim_space, trim_by, trim_left, trim_right, is_space,
}
use lan_qin_email.Prelude.Int.{pos}
use lan_qin_email.Prelude.Rows.{select_first, update_rows, keep_rows}
use lan_qin_email.Prelude.Members.{IsKey}
use Prim.Native.String.{String}
use mathlib.Core.List.{Memᴰ}
use lan_qin_email.Std.Ascii.{ascii}
use lan_qin_email.Address.{unique_non_empty}
use lan_qin_email.Sharing.{Db, Mailbox, Share, Message, scope_custom, mailbox_share_status, expired}
use lan_qin_email.Sharing.Requests.{
  TimeLib, ShareRequest, mailbox_for_current_user, belongs_to_mailbox, all_belong,
  validate_mailbox_share_scope, share_expiration,
}
use lan_qin_email.Sharing.Edit.{
  update_mailbox_share, delete_mailbox_share, leave_mailbox_share, mailbox_share_by_id,
  mailbox_share_for_recipient,
}
use lan_qin_email.Sharing.Access.{
  ReadAccess, share_access, shared_access, mailbox_read_access_with_id, record_mailbox_share_access,
  mailbox_share_can_read_folder, mailbox_share_can_read_label, mailbox_share_can_read_message,
  labels_for_message, load_message_for_read_request, open_to,
}
use lan_qin_email.Sharing.Lists.{folder_messages, mail_message_thread, attachment_sent}
use lan_qin_email.Sharing.Reading.{HasAccess, shared, IsWellFormed, IsTrimmed}
use lan_qin_email.Sharing.MayLoad.{MayRead, load-MayRead}
use lan_qin_email.Sharing.Outcomes.{is_done}
use lan_qin_email.Sharing.Versions.{second-update}
use lan_qin_email.Sharing.Owner.{
  Action, update, revoke, leave, perform_all, actions-HasAccess, IsForeign, actor,
}
use lan_qin_email.Sharing.Ended.{IsEnded, revoke_leave-IsEnded}
use lan_qin_email.Sharing.Listed.{IsListed, in_folder, listed-can_read}
use lan_qin_email.Sharing.Attachments.{MaySend, attachment-MaySend}
use lan_qin_email.Sharing.Leaks.{message_thread-all}

abbrev inbox : Mailbox
inbox = record {
  id = codes "mb1";
  user_id = codes "alice";
  active = true;
  domain_active = true;
  created_at = 1;
}

abbrev share_with : String → String → Share
share_with id user = record {
  id = codes id;
  mailbox_id = codes "mb1";
  owner_user_id = codes "alice";
  shared_with_user_id = codes user;
  scope = scope_custom;
  include_starred = false;
  allow_attachments = false;
  version = 1;
  expires_at = none;
  last_accessed_at = none;
  revoked_at = none;
  left_at = none;
  created_at = 1;
  updated_at = 1;
}

abbrev message : String → String → ℕ → Message
message id folder at = record {
  id = codes id;
  mailbox_id = some (codes "mb1");
  folder_id = some (codes folder);
  thread_id = codes "t1";
  received_at = at;
  is_starred = false;
  external = false;
}

abbrev db : Db
db = record {
  users = λ id. none;
  groups = record { groups = λ id. none; members = [] };
  mailboxes = inbox ∷ [];
  shares = share_with "s1" "bob" ∷ share_with "s2" "dave" ∷ [];
  share_folders = (codes "s1", codes "f1") ∷ [];
  share_labels = [];
  folders = (codes "f1", codes "mb1") ∷ (codes "f2", codes "mb1") ∷ [];
  labels = [];
  messages = message "m1" "f1" 5 ∷ message "m2" "f2" 6 ∷ [];
  message_labels = [];
  audits = [];
  notifications = [];
}

abbrev bobs : ReadAccess
bobs = share_access (share_with "s1" "bob") inbox

at_inbox : (id : Text) → some (codes "mb1") ≡ some id → IsTrimmed id
unfolding trim_space trim_by trim_left trim_right is_space
at_inbox id e = subst IsTrimmed (let same : codes "mb1" ≡ id = cc e in same) (refl, refl)

apart : (s t : Text) → text_eq s t ≡ false → s ≢ t
apart s t h e = absurd (let k : ◌≡◌ {A = Bool} true false = sym ((text_eq_iff s t).1 e) ∙ h in cc)

db-IsWellFormed : IsWellFormed db
unfolding text_eq
db-IsWellFormed = record {
  mailbox_ids = (tt, tt);
  pairs = (
    (λ e. apart (codes "dave") (codes "bob") refl (ap (λ (p : Text × Text). p.1) e), tt),
    (tt, tt),
  );
  message_ids = ((apart (codes "m2") (codes "m1") refl, tt), (tt, tt));
  placed = (at_inbox, (at_inbox, tt));
}

-- bob is shown a message of the folder, and so may read it
bob_reads : MayRead db 7 (codes "bob") (codes "m1")
unfolding load_message_for_read_request mailbox_read_access_with_id mailbox_share_can_read_message
    trim_space trim_by trim_left trim_right is_space shared_access mailbox_for_current_user
    select_first labels_for_message keep_rows record_mailbox_share_access update_rows
    mailbox_share_can_read_label text_eq
bob_reads =
    (load-MayRead 7 (codes "bob") (codes "m1") db db-IsWellFormed).0
      ((message "m1" "f1" 5, []), refl)

load-MayRead_example :
    ((x : Message × List Text) × ((load_message_for_read_request 7 (codes "bob") (codes "m2") db).0
        ≡ some x))
    ↔ MayRead db 7 (codes "bob") (codes "m2")
load-MayRead_example = load-MayRead 7 (codes "bob") (codes "m2") db db-IsWellFormed

-- bob is not shown a message of another folder
bob_not_shown : (load_message_for_read_request 7 (codes "bob") (codes "m2") db).0 ≡ none
unfolding load_message_for_read_request mailbox_read_access_with_id mailbox_share_can_read_message
    trim_space trim_by trim_left trim_right is_space shared_access mailbox_for_current_user
    select_first labels_for_message keep_rows record_mailbox_share_access update_rows
    mailbox_share_can_read_label text_eq
bob_not_shown = refl

abbrev time : TimeLib
time = record { parse_rfc3339 = λ s. none; parse_rfc3339_nano = λ s. none }

abbrev request : ShareRequest
request = record {
  scope = codes "custom";
  folder_ids = codes "f2" ∷ [];
  label_ids = [];
  include_starred = false;
  allow_attachments = none;
  expires_in_days = some (pos 7);
  expires_at = none;
  version = pos 1;
}

shares-IsKey : IsKey (λ (s : Share). s.id) db.shares
unfolding text_eq
shares-IsKey = ((apart (codes "s2") (codes "s1") refl, tt), (tt, tt))

alice_updates :
    is_done (update_mailbox_share ascii time (codes "alice") 7 (codes "s1") request db).0 ≡ true
unfolding update_mailbox_share mailbox_share_by_id trim_space trim_by trim_left trim_right is_space
    mailbox_for_current_user select_first validate_mailbox_share_scope all_belong belongs_to_mailbox
    unique_non_empty share_expiration text_eq update_rows keep_rows
alice_updates = refl

second-update_example :
    let db' = (update_mailbox_share ascii time (codes "alice") 7 (codes "s1") request db).1 in
    (is_done (update_mailbox_share ascii time (codes "alice") 9 (codes "s1") request db').0 ≡ false)
    × ((update_mailbox_share ascii time (codes "alice") 9 (codes "s1") request db').1 ≡ db')
second-update_example =
    second-update ascii time (codes "alice") (codes "alice") 7 9 (codes "s1") request request db
      shares-IsKey refl alice_updates

-- carol tries to update and to revoke bob's share, and dave leaves
abbrev attempts : List Action
attempts =
    update (codes "carol") 5 (codes "s1") request
    ∷ revoke (codes "carol") 5 (codes "s1")
    ∷ leave (codes "dave") 6 (codes "s2")
    ∷ []

bob_left_with : HasAccess (perform_all ascii time attempts db) 7 (codes "bob") (codes "mb1") bobs
unfolding update_mailbox_share delete_mailbox_share leave_mailbox_share mailbox_share_by_id
    mailbox_share_for_recipient trim_space trim_by trim_left trim_right is_space select_first
    text_eq update_rows mailbox_share_status
bob_left_with =
    shared (share_with "s1" "bob") inbox (Memᴰ.head refl) (Memᴰ.head refl) refl refl refl refl
      (record { kept = refl; stayed = refl; lasting = tt }) refl refl refl

-- a share that expires at a whole second gives access a nanosecond later, and is shown as expired
abbrev expiring_share : Share
expiring_share = record (share_with "s1" "bob") { expires_at = some (8 * nanoseconds) }

late_access :
    (open_to (8 * nanoseconds + 1) (codes "mb1") (codes "bob") expiring_share ≡ true)
    × (mailbox_share_status expiring_share (8 * nanoseconds + 1) ≡ expired)
unfolding stored_before text_lt fraction_text trim_zeros digits text_eq mailbox_share_status
late_access = (refl, refl)

no_late_access : open_to (9 * nanoseconds) (codes "mb1") (codes "bob") expiring_share ≡ false
unfolding stored_before text_lt fraction_text trim_zeros digits text_eq
no_late_access = refl

not_carol : codes "alice" ≢ codes "carol"
unfolding text_eq
not_carol = apart (codes "alice") (codes "carol") refl

not_dave : codes "alice" ≢ codes "dave"
unfolding text_eq
not_dave = apart (codes "alice") (codes "dave") refl

attempts-IsForeign : All (λ act. IsForeign (codes "mb1") db.mailboxes (actor act)) attempts
attempts-IsForeign = ((λ e. not_carol, tt), ((λ e. not_carol, tt), ((λ e. not_dave, tt), tt)))

actions-HasAccess_example : HasAccess db 7 (codes "bob") (codes "mb1") bobs
actions-HasAccess_example =
    actions-HasAccess ascii time (codes "mb1") attempts db 7 (codes "bob") bobs shares-IsKey
      attempts-IsForeign bob_left_with

revoke_leave-IsEnded_example :
    (is_done (delete_mailbox_share (codes "alice") 7 (codes "s1") db).0 ≡ true
      → IsEnded
          (trim_space (codes "s1"))
          (delete_mailbox_share (codes "alice") 7 (codes "s1") db).1.shares)
    × (is_done (leave_mailbox_share (codes "alice") 7 (codes "s1") db).0 ≡ true
        → IsEnded
            (trim_space (codes "s1"))
            (leave_mailbox_share (codes "alice") 7 (codes "s1") db).1.shares)
revoke_leave-IsEnded_example = revoke_leave-IsEnded (codes "alice") 7 (codes "s1") db shares-IsKey

m1-IsListed : IsListed db bobs (message "m1" "f1" 5)
unfolding folder_messages mailbox_share_can_read_folder keep_rows text_eq
m1-IsListed = in_folder (codes "f1") (message "m1" "f1" 5 ∷ []) refl (Memᴰ.head refl)

listed-can_read_example : mailbox_share_can_read_message db bobs (codes "m1") ≡ true
unfolding text_eq
listed-can_read_example = listed-can_read db bobs (message "m1" "f1" 5) (inr refl) m1-IsListed

bob_shown :
    (load_message_for_read_request 7 (codes "bob") (codes "m1") db).0
    ≡ some (message "m1" "f1" 5, [])
unfolding load_message_for_read_request mailbox_read_access_with_id mailbox_share_can_read_message
    trim_space trim_by trim_left trim_right is_space shared_access mailbox_for_current_user
    select_first labels_for_message keep_rows record_mailbox_share_access update_rows
    mailbox_share_can_read_label text_eq
bob_shown = refl

-- the thread of that message shows bob the other one
message_thread-all_example :
    (ms : List Message) × ((mail_message_thread 7 (codes "bob") (codes "m1") db).0 ≡ some ms)
    × Memᴰ (message "m2" "f2" 6) ms
message_thread-all_example =
    message_thread-all db 7 (codes "bob") (codes "m1") (codes "mb1") (message "m1" "f1" 5)
      (message "m2" "f2" 6) [] bob_shown refl refl (Memᴰ.tail (Memᴰ.head refl)) refl refl

-- alice is sent the attachments of her message
alice_sent : (attachment_sent 7 (codes "alice") (codes "m2") db).0 ≡ true
unfolding attachment_sent load_message_for_read_request mailbox_read_access_with_id
    mailbox_share_can_read_message trim_space trim_by trim_left trim_right is_space shared_access
    mailbox_for_current_user select_first labels_for_message keep_rows record_mailbox_share_access
    update_rows mailbox_share_can_read_label text_eq
alice_sent = refl

attachment-MaySend_example : MaySend db 7 (codes "alice") (codes "m2")
attachment-MaySend_example =
    attachment-MaySend 7 (codes "alice") (codes "m2") db db-IsWellFormed alice_sent

-- bob, whose share allows no attachments, is not
bob_not_sent : (attachment_sent 7 (codes "bob") (codes "m1") db).0 ≡ false
unfolding attachment_sent load_message_for_read_request mailbox_read_access_with_id
    mailbox_share_can_read_message trim_space trim_by trim_left trim_right is_space shared_access
    mailbox_for_current_user select_first labels_for_message keep_rows record_mailbox_share_access
    update_rows mailbox_share_can_read_label text_eq
bob_not_sent = refl
