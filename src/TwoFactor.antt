-- ===== src/TwoFactor.antt =====
-- One-time codes of two_factor.go: their generation for a 30-second step, the match of a code within
-- one step of the clock, and the consumption that burns the step in `users`. A step is a natural
-- number: the clock stands more than a step after 1970.
pub mod Replay
pub mod Codes
mod Tests
use lan_qin_email.Prelude.{
  ℕ, ◌+◌, ◌-◌, ◌*◌, ◌/◌, ◌%◌, ◌^◌, Bool, true, false, ◌&&◌, not, Option, none, some, List, [], ◌∷◌,
  length, leb, ltb, ◌==◌, if◌then◌else◌, map, take, drop, get_or,
}
use lan_qin_email.Prelude.Text.{Text, text_eq, trim_space, is_empty}

-- what is taken from Go's library: `unicode.ToUpper`, base32 without padding, and HMAC with SHA-1 of a
-- key and a message, all on bytes
pub record TotpLib : Type 0 where
  pub upper : ℕ → ℕ
  pub base32_decode : Text → Option (List ℕ)
  pub hmac_sha1 : List ℕ → List ℕ → List ℕ

-- `binary.BigEndian.PutUint64`
unfoldable pub big_endian_8 : ℕ → List ℕ
big_endian_8 n =
    n / 2 ^ 56 % 256
    ∷ n / 2 ^ 48 % 256
    ∷ n / 2 ^ 40 % 256
    ∷ n / 2 ^ 32 % 256
    ∷ n / 2 ^ 24 % 256
    ∷ n / 2 ^ 16 % 256
    ∷ n / 2 ^ 8 % 256
    ∷ n % 256
    ∷ []

-- `binary.BigEndian.Uint32` of the bytes from an offset, which lie within the twenty of a SHA-1 sum
unfoldable pub big_endian_4 : List ℕ → ℕ → ℕ
big_endian_4 sum i =
    get_or sum i 0 * 2 ^ 24
    + get_or sum (i + 1) 0 * 2 ^ 16
    + get_or sum (i + 2) 0 * 2 ^ 8
    + get_or sum (i + 3) 0

-- `fmt.Sprintf("%06d", n)` for n below a million
unfoldable pub six_digits : ℕ → Text
six_digits n =
    (b'0' + n / 100_000 % 10)
    ∷ (b'0' + n / 10_000 % 10)
    ∷ (b'0' + n / 1_000 % 10)
    ∷ (b'0' + n / 100 % 10)
    ∷ (b'0' + n / 10 % 10)
    ∷ (b'0' + n % 10)
    ∷ []

unfoldable pub generate_totp_for_counter : TotpLib → List ℕ → ℕ → Text
generate_totp_for_counter lib key counter =
    let sum = lib.hmac_sha1 key (big_endian_8 counter) in
    let offset = get_or sum (length sum - 1) 0 % 16 in
    six_digits (big_endian_4 sum offset % 2 ^ 31 % 1_000_000)

unfoldable pub decode_totp_secret : TotpLib → Text → Option (List ℕ)
decode_totp_secret lib secret =
    let value = map lib.upper (trim_space secret) in
    if is_empty value then none else lib.base32_decode value

abbrev pub is_digit : ℕ → Bool
is_digit c = leb b'0' c && leb c b'9'

-- the loop of `matchTOTPCounter` on the characters
unfoldable pub all_digits : Text → Bool
all_digits [] = true
all_digits (c ∷ s) = is_digit c && all_digits s

-- the loop on the steps: the first that gives the code
unfoldable pub first_step : TotpLib → List ℕ → Text → List ℕ → Option ℕ
first_step lib key code [] = none
first_step lib key code (step ∷ steps) =
    let rest = first_step lib key code steps in
    if text_eq (generate_totp_for_counter lib key step) code then some step else rest

abbrev pub steps_around : ℕ → List ℕ
steps_around counter = (counter - 1) ∷ counter ∷ (counter + 1) ∷ []

abbrev pub with_key : TotpLib → Option (List ℕ) → Text → ℕ → Option ℕ
with_key lib none code counter = none
with_key lib (some key) code counter = first_step lib key code (steps_around counter)

-- `matchTOTPCounter` at a second of the clock; a code with other than six bytes, or with a character
-- that is no digit, is refused, which is a code with other than six characters or such a character
unfoldable pub match_totp_counter : TotpLib → Text → Text → ℕ → Option ℕ
match_totp_counter lib secret raw now =
    let code = trim_space raw in
    if not (length code == 6)
    then none
    else if not (all_digits code)
    then none
    else with_key lib (decode_totp_secret lib secret) code (now / 30)

unfoldable pub generate_totp : TotpLib → Text → ℕ → Option Text
generate_totp lib secret now = elim (decode_totp_secret lib secret) [
  | none ↦ none
  | some key ↦ some (generate_totp_for_counter lib key (now / 30))
]

unfoldable pub verify_totp : TotpLib → Text → Text → ℕ → Bool
verify_totp lib secret code now = elim (match_totp_counter lib secret code now) [
  | none ↦ false
  | some step ↦ true
]

-- the column `two_factor_last_counter` of `users`, by primary key
abbrev pub Users : Type 0
Users = Text → Option ℕ

-- `UPDATE … WHERE id=? AND two_factor_last_counter<?`, and whether it has changed a row
abbrev pub burn : Text → ℕ → Option ℕ → Users → Bool × Users
burn user step none users = (false, users)
burn user step (some last) users =
    if ltb last step
    then (true, λ id. if text_eq id user then some step else users id)
    else (false, users)

abbrev pub burn_match : Text → Option ℕ → Users → Bool × Users
burn_match user none users = (false, users)
burn_match user (some step) users = burn user step (users user) users

-- `consumeTOTP`; a failing database call answers `false` without a change
unfoldable pub consume_totp : TotpLib → Text → Text → Text → ℕ → Users → Bool × Users
consume_totp lib user secret code now users =
    burn_match user (match_totp_counter lib secret code now) users
