-- ===== src/Address.antt =====
-- Mail addresses: the normalising and validating functions of util.go and the list helpers.
pub mod Safety
pub mod Distinct
pub mod Fixed
mod Tests
use lan_qin_email.Prelude.{
  ℕ, ◌+◌, ◌≤◌, Bool, true, false, ◌&&◌, ◌||◌, not, Option, none, some, List, [], ◌∷◌, ◌++◌, map,
  leb, ltb, ◌==◌, if◌then◌else◌, length, any,
}
use lan_qin_email.Prelude.Text.{
  Text, codes, text_eq, has, trim_space, trim_by, is_empty, contains_rune,
}
use lan_qin_email.Std.{Std}

-- `len(s)`: the bytes of the UTF-8 form
unfoldable pub byte_length : Text → ℕ
byte_length [] = 0
byte_length (c ∷ s) =
    (if ltb c 0x80 then 1 else if ltb c 0x800 then 2 else if ltb c 0x10000 then 3 else 4)
    + byte_length s

-- the class `[a-z0-9]`
abbrev pub is_alnum : ℕ → Bool
is_alnum c = (leb b'a' c && leb c b'z') || (leb b'0' c && leb c b'9')

-- what `localPartRe` leaves in place: `[a-z0-9._%+\-]`
abbrev pub is_local : ℕ → Bool
is_local c = is_alnum c || c == b'.' || c == b'_' || c == b'%' || c == b'+' || c == b'-'

-- `domainRe` as an automaton: at the start of a label, behind a letter or digit, behind a dash
pub data LabelState : Type 0 where
  fresh inside dashed : LabelState

unfoldable pub domain_re : LabelState → Text → Bool
domain_re fresh [] = false
domain_re inside [] = true
domain_re dashed [] = false
domain_re fresh (c ∷ s) = is_alnum c && domain_re inside s
domain_re inside (c ∷ s) =
    let dot = domain_re fresh s in
    let dash = domain_re dashed s in
    let more = domain_re inside s in
    if c == b'.' then dot else if c == b'-' then dash else is_alnum c && more
domain_re dashed (c ∷ s) =
    let dash = domain_re dashed s in
    let more = domain_re inside s in if c == b'-' then dash else is_alnum c && more

-- `strings.Cut` at a byte
unfoldable pub cut : ℕ → Text → Option (Text × Text)
cut sep [] = none
cut sep (c ∷ s) =
    let rest = cut sep s in
    if c == sep then some ([], s) else elim rest [ none ↦ none | some (a, b) ↦ some (c ∷ a, b) ]

-- `strings.TrimSuffix` by one byte
unfoldable pub trim_suffix : ℕ → Text → Text
trim_suffix c [] = []
trim_suffix c (d ∷ []) = if d == c then [] else d ∷ []
trim_suffix c (d ∷ e ∷ s) = d ∷ trim_suffix c (e ∷ s)

-- `ReplaceAllString(s, "")` by a class of characters: keep the others
unfoldable pub keep : (ℕ → Bool) → Text → Text
keep p [] = []
keep p (c ∷ s) = let rest = keep p s in if p c then c ∷ rest else rest

-- what `requireCleanLocalPart` returns
pub data LocalPartError : Type 0 where
  invalid unclean too_long : LocalPartError

pub data LocalPart : Type 0 where
  accepted : Text → LocalPart
  rejected : LocalPartError → LocalPart

module _ (std : Std) where
  open std use {lower, equal_fold, parse_address}

  -- `strings.ToLower`
  abbrev pub to_lower : Text → Text
  to_lower = map lower

  unfoldable pub normalize_domain : Text → Text
  unfolding trim_suffix trim_space
  normalize_domain s = trim_suffix b'.' (to_lower (trim_space s))

  unfoldable pub normalize_local_part : Text → Text
  unfolding keep trim_by trim_space
  normalize_local_part s = trim_by (λ c. c == b'.') (keep is_local (to_lower (trim_space s)))

  -- the part of `normalizeEmail` behind its test for an at sign
  unfoldable pub join_parts : Text → Option (Text × Text) → Text
  unfolding normalize_local_part normalize_domain
  join_parts s none = s
  join_parts s (some (local, domain)) = normalize_local_part local ++ b'@' ∷ normalize_domain domain

  unfoldable pub normalize_email : Text → Text
  unfolding join_parts cut trim_space
  normalize_email s = let t = to_lower (trim_space s) in join_parts t (cut b'@' t)

  -- the two halves of an address, behind the tests on the whole
  unfoldable pub valid_parts : Text → Option (Text × Text) → Bool
  unfolding domain_re
  valid_parts email none = false
  valid_parts email (some (local, domain)) =
      not (is_empty local)
      && not (is_empty domain)
      && domain_re fresh domain
      && elim (parse_address email) [ none ↦ false | some a ↦ equal_fold a email ]

  unfoldable pub valid_recipient_address : Text → Bool
  unfolding valid_parts cut byte_length contains_rune
  valid_recipient_address email =
      if is_empty email || ltb 320 (byte_length email)
      then false
      else if contains_rune 13 email || contains_rune 10 email
      then false
      else valid_parts email (cut b'@' email)

  -- the loop of `dedupeEmails`; `out` is also the set `seen`
  unfoldable pub dedupe_loop : List Text → List Text → List Text
  unfolding normalize_email valid_recipient_address has
  dedupe_loop [] out = out
  dedupe_loop (item ∷ items) out = dedupe_loop items (
      let email = normalize_email item in
      if not (valid_recipient_address email) || has email out then out else out ++ email ∷ [])

  unfoldable pub dedupe_emails : List Text → List Text
  unfolding dedupe_loop
  dedupe_emails items = dedupe_loop items []

  unfoldable pub require_clean_local_part : Text → LocalPart
  unfolding normalize_local_part trim_space text_eq byte_length
  require_clean_local_part value =
      let trimmed = trim_space value in
      let normalized = normalize_local_part trimmed in
      if is_empty normalized
      then rejected invalid
      else if not (text_eq normalized (to_lower trimmed))
      then rejected unclean
      else if ltb 64 (byte_length normalized)
      then rejected too_long
      else accepted normalized

-- the loop of `uniqueNonEmpty` and `cleanIDList`; `out` is also the set `seen`
unfoldable pub unique_loop : List Text → List Text → List Text
unfolding trim_space has
unique_loop [] out = out
unique_loop (v ∷ vs) out = unique_loop vs (
    let value = trim_space v in
    if not (is_empty value) && not (has value out) then out ++ value ∷ [] else out)

unfoldable pub unique_non_empty : List Text → List Text
unfolding unique_loop
unique_non_empty values = unique_loop values []
