-- ===== src/MaildirFlags/Readback.antt =====
-- What a scan reads back from the name that an update has given.
use lan_qin_email.Prelude.{
  ℕ, ◌≡◌, refl, ◌∙◌, inl, inr, Bool, not, ◌&&◌, any, Option, some, true, false, ◌||◌, none, some,
  [], ◌∷◌, ◌++◌, arith, if◌then◌else◌, drop, length, ◌==◌, Bool-cases, append_assoc,
}
use lan_qin_email.Prelude.Text.{is_empty, Text, codes, contains_rune, starts_with}
use lan_qin_email.Std.{Std}
use lan_qin_email.MaildirFlags.{
  separator, windows_separator, cut_last, preserve_loop, preserve_maildir_flags, new_flags, rename,
  add_flags, maildir_path_with_flags, maildir_flags_from_path,
}
use lan_qin_email.MaildirFlags.NewFlags.{
  new_flags-colon, new_flags-seen, new_flags-flagged, new_flags-is_empty,
}

-- the separator starts with its colon
separator-colon : (c : ℕ) (s : Text) → (c == b':') ≡ false → starts_with separator (c ∷ s) ≡ false
unfolding starts_with
separator-colon c s other = ground arith

cut_last-none : (s : Text) → contains_rune b':' s ≡ false → cut_last separator s ≡ none
unfolding cut_last contains_rune
cut_last-none [] h = refl
cut_last-none (c ∷ s) h = elim (Bool-cases (c == b':')) [
  | inl colon ↦ absurd (let k : Path Bool true false = rw colon at h in cc)
  | inr other ↦
      let rest : contains_rune b':' s ≡ false = rw other at h in
      rw (cut_last-none s rest, separator-colon c s other) refl
]

cut_last-append :
    (base s : Text) (after : Text)
    → cut_last separator s ≡ some ([], after)
    → cut_last separator (base ++ s) ≡ some (base, after)
unfolding cut_last
cut_last-append [] s after h = h
cut_last-append (c ∷ base) s after h = rw (cut_last-append base s after h) refl

cut_last-cons :
    (c : ℕ) (s : Text)
    → cut_last separator s ≡ none
    → cut_last separator (c ∷ s)
      ≡ (if starts_with separator (c ∷ s) then some ([], drop (length separator) (c ∷ s)) else none)
unfolding cut_last
cut_last-cons c s h = rw h refl

cut_last-start :
    (flags : Text)
    → contains_rune b':' flags ≡ false
    → cut_last separator (separator ++ flags) ≡ some ([], flags)
cut_last-start flags h =
    cut_last-cons b':' (codes "2," ++ flags)
      (cut_last-none (codes "2," ++ flags) (unfold contains_rune in h))
    ∙ unfold starts_with in refl

cut_last-separator :
    (base flags : Text)
    → contains_rune b':' flags ≡ false
    → cut_last separator (base ++ separator ++ flags) ≡ some (base, flags)
cut_last-separator base flags h =
    rw (append_assoc base separator flags)
      (cut_last-append base (separator ++ flags) flags (cut_last-start flags h))

-- the flags of a name, if it has any, hold no colon
abbrev pub PlainFlags : Option (Text × Text) → Type 0
PlainFlags none = Unit {0}
PlainFlags (some (base, flags)) = contains_rune b':' flags ≡ false

-- what stands in front of the flags, and the flags that a name starts from
abbrev stem : Option (Text × Text) → Text → Text
stem none name = name
stem (some (base, flags)) name = base

abbrev flags_of : Option (Text × Text) → Text
flags_of none = []
flags_of (some (base, flags)) = flags

rename-lem :
    (o : Option (Text × Text)) (name : Text) (read starred : Bool)
    → rename o name read starred ≡ add_flags (stem o name) (new_flags (flags_of o) read starred)
rename-lem none name read starred = refl
rename-lem (some (base, flags)) name read starred = refl

flags_of-plain : (o : Option (Text × Text)) → PlainFlags o → contains_rune b':' (flags_of o) ≡ false
unfolding contains_rune
flags_of-plain none h = refl
flags_of-plain (some (base, flags)) h = h

-- A message file that is updated to be read or starred is read back as it was updated, whatever its
-- folder, and whether or not its name had flags, if these held no colon.
pub flags-path :
    (std : Std) (root dir name folder : Text) (read starred : Bool)
    → PlainFlags (cut_last separator name)
    → (read || starred) ≡ true
    → maildir_flags_from_path std
        (maildir_path_with_flags (record { root = root; dir = dir; name = name }) read starred)
        folder
      ≡ (read, starred)
unfolding maildir_flags_from_path maildir_path_with_flags
flags-path std root dir name folder read starred plain marked =
    let o = cut_last separator name in
    let flags = flags_of o in
    let new = new_flags flags read starred in
    rw
      (
        rename-lem o name read starred,
        new_flags-is_empty flags read starred marked,
        cut_last-separator (stem o name) new
            (new_flags-colon flags read starred (flags_of-plain o plain)),
        new_flags-seen flags read starred,
        new_flags-flagged flags read starred,
      )
      refl

-- a flag that an update keeps
abbrev pub other_flag : ℕ → Bool
other_flag c = not (c == b'S') && not (c == b'F')

preserve_loop-is_empty :
    (flags out : Text)
    → is_empty (preserve_loop (codes "SF") flags out) ≡ (is_empty out && not (any other_flag flags))
unfolding preserve_loop contains_rune
preserve_loop-is_empty [] out = ground arith
preserve_loop-is_empty (c ∷ flags) [] =
    ground (arith, preserve_loop-is_empty flags [], preserve_loop-is_empty flags (c ∷ []))
preserve_loop-is_empty (c ∷ flags) (d ∷ out) = ground (
  arith,
  preserve_loop-is_empty flags (d ∷ out),
  preserve_loop-is_empty flags (d ∷ out ++ c ∷ []),
)

new_flags-unmarked :
    (flags : Text) → is_empty (new_flags flags false false) ≡ not (any other_flag flags)
unfolding new_flags preserve_maildir_flags
new_flags-unmarked flags = preserve_loop-is_empty flags []

-- A file with flags that is updated to be neither read nor starred is read back, outside the inbox, as
-- read exactly when it carried no flags but `S` and `F`, and never as starred. The flags hold no colon,
-- and what stands in front of them has no separator.
pub unread-path :
    (std : Std) (root dir base flags folder : Text)
    → contains_rune b':' flags ≡ false
    → cut_last separator base ≡ none
    → cut_last windows_separator base ≡ none
    → std.equal_fold folder (codes "Inbox") ≡ false
    → maildir_flags_from_path std
        (maildir_path_with_flags
          (record { root = root; dir = dir; name = base ++ separator ++ flags })
          false
          false)
        folder
      ≡ (not (any other_flag flags), false)
unfolding maildir_flags_from_path maildir_path_with_flags
unread-path std root dir base flags folder plain h k elsewhere =
    let new = new_flags flags false false in
    let unmarked = new_flags-unmarked flags in
    elim (Bool-cases (any other_flag flags)) [
      | inl kept ↦
          rw
            (
              cut_last-separator base flags plain,
              unmarked,
              kept,
              cut_last-separator base new (new_flags-colon flags false false plain),
              new_flags-seen flags false false,
              new_flags-flagged flags false false,
            )
            refl
      | inr bare ↦ rw (cut_last-separator base flags plain, unmarked, bare, h, k, elsewhere) refl
    ]
