-- ===== src/MaildirFlags.antt =====
-- The flags in the names of message files: maildirPathWithFlags of maildir_write.go and
-- maildirFlagsFromPath of maildir_sync.go, on systems other than Windows.
pub mod NewFlags
pub mod Readback
mod Tests
use lan_qin_email.Prelude.{
  ℕ, Bool, true, false, ◌&&◌, ◌||◌, not, Option, none, some, List, [], ◌∷◌, ◌++◌, if◌then◌else◌,
  drop, length,
}
use lan_qin_email.Prelude.Text.{Text, codes, text_eq, is_empty, contains_rune, starts_with}
use lan_qin_email.Std.{Std}

-- the path `filepath.Join(root, dir, name)`, whose last two parts the code takes apart
pub record Path3 : Type 0 where
  pub root : Text
  pub dir : Text
  pub name : Text

-- `maildirFlagSeparator`
abbrev pub separator : Text
separator = codes ":2,"

abbrev pub windows_separator : Text
windows_separator = codes "!2,"

-- one code point in front of what was cut
abbrev pub behind : ℕ → Option (Text × Text) → Option (Text × Text) → Option (Text × Text)
behind c (some (before, after)) here = some (c ∷ before, after)
behind c none here = here

-- `strings.LastIndex`, with what stands before and behind the place
unfoldable pub cut_last : Text → Text → Option (Text × Text)
cut_last sep [] = none
cut_last sep (c ∷ s) =
    behind c (cut_last sep s)
      (if starts_with sep (c ∷ s) then some ([], drop (length sep) (c ∷ s)) else none)

-- the loop of `preserveMaildirFlags`
unfoldable pub preserve_loop : Text → Text → Text → Text
preserve_loop managed [] out = out
preserve_loop managed (c ∷ s) out =
    preserve_loop managed s
      (if contains_rune c managed || contains_rune c out then out else out ++ c ∷ [])

unfoldable pub preserve_maildir_flags : Text → Text → Text
preserve_maildir_flags flags managed = preserve_loop managed flags []

unfoldable pub append_maildir_flag : Text → ℕ → Text
append_maildir_flag flags flag = if contains_rune flag flags then flags else flags ++ flag ∷ []

-- the flags of a file after an update
unfoldable pub new_flags : Text → Bool → Bool → Text
new_flags existing read starred =
    let kept = preserve_maildir_flags existing (codes "SF") in
    let seen = if read then append_maildir_flag kept b'S' else kept in
    if starred then append_maildir_flag seen b'F' else seen

abbrev pub add_flags : Text → Text → Text
add_flags base flags = if not (is_empty flags) then base ++ separator ++ flags else base

-- the name behind the test on the separator
abbrev pub rename : Option (Text × Text) → Text → Bool → Bool → Text
rename none name read starred = add_flags name (new_flags [] read starred)
rename (some (base, existing)) name read starred = add_flags base (new_flags existing read starred)

unfoldable pub maildir_path_with_flags : Path3 → Bool → Bool → Path3
maildir_path_with_flags p read starred = record p {
  dir =
      if read || starred
      then codes "cur"
      else if text_eq p.dir (codes "cur")
      then codes "new"
      else p.dir;
  name = rename (cut_last separator p.name) p.name read starred;
}

-- what the flags say, or the default for a file without flags
abbrev pub read_flags : Std → Option (Text × Text) → Text → Bool × Bool
read_flags std (some (base, flags)) folder = (contains_rune b'S' flags, contains_rune b'F' flags)
read_flags std none folder = (not (std.equal_fold folder (codes "Inbox")), false)

-- the first separator of the loop that the name has
abbrev pub or_else : Option (Text × Text) → Option (Text × Text) → Option (Text × Text)
or_else (some x) y = some x
or_else none y = y

unfoldable pub maildir_flags_from_path : Std → Path3 → Text → Bool × Bool
maildir_flags_from_path std p folder =
    read_flags std (or_else (cut_last separator p.name) (cut_last windows_separator p.name)) folder
