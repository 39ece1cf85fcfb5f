-- ===== src/Std.antt =====
-- What the program takes from Go's standard library and does not implement: a parameter of the
-- model, with the documented behaviour that proofs use.
use lan_qin_email.Prelude.{ℕ, ◌+◌, ◌≤◌, ◌<◌, ◌≡◌, Bool, Option, some, if◌then◌else◌, leb, ◌&&◌}
pub mod Ascii
use lan_qin_email.Prelude.Text.{Text}

-- `unicode.ToLower` on ASCII
abbrev pub ascii_lower : ℕ → ℕ
ascii_lower c = if leb b'A' c && leb c b'Z' then c + 32 else c

pub record Std : Type 0 where
  -- `unicode.ToLower`
  pub lower : ℕ → ℕ
  pub lower_ascii : (c : ℕ) → c < 128 → lower c ≡ ascii_lower c
  -- `strings.EqualFold`
  pub equal_fold : Text → Text → Bool
  -- the `Address` field of what `net/mail.ParseAddress` returns
  pub parse_address : Text → Option Text
  -- `base64.StdEncoding`
  pub base64_encode : Text → Text
  pub base64_decode : Text → Option Text
  pub decode-encode : (s : Text) → base64_decode (base64_encode s) ≡ some s
