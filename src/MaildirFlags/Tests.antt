-- ===== src/MaildirFlags/Tests.antt =====
-- Concrete cases of the flags in file names.
use lan_qin_email.Prelude.{◌≡◌, refl, true, false, ◌++◌}
use lan_qin_email.Prelude.Text.{codes, contains_rune, text_eq, starts_with}
use lan_qin_email.Std.Ascii.{ascii}
use lan_qin_email.MaildirFlags.{
  separator, cut_last, maildir_path_with_flags, maildir_flags_from_path, new_flags,
  preserve_maildir_flags, preserve_loop, append_maildir_flag,
}
use lan_qin_email.MaildirFlags.Readback.{flags-path, unread-path}

update_example : new_flags (codes "RSa") false true ≡ codes "RaF"
unfolding new_flags preserve_maildir_flags preserve_loop append_maildir_flag contains_rune
update_example = refl

flags-path_example :
    maildir_flags_from_path ascii
      (maildir_path_with_flags
        (record {
          root = codes "/m";
          dir = codes "cur";
          name = codes "1.x" ++ separator ++ codes "R";
        })
        true
        false)
      (codes "Archive")
    ≡ (true, false)
flags-path_example =
    flags-path ascii (codes "/m") (codes "cur") (codes "1.x:2,R") (codes "Archive") true false
      (unfold cut_last starts_with contains_rune in refl) refl

unread-path_example :
    maildir_flags_from_path ascii
      (maildir_path_with_flags
        (record {
          root = codes "/m";
          dir = codes "cur";
          name = codes "1.x" ++ separator ++ codes "S";
        })
        false
        false)
      (codes "Archive")
    ≡ (true, false)
unread-path_example =
    unread-path ascii (codes "/m") (codes "cur") (codes "1.x") (codes "S") (codes "Archive")
      (unfold contains_rune in refl) (unfold cut_last starts_with in refl)
      (unfold cut_last starts_with in refl) (unfold text_eq in refl)
