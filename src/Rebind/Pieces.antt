-- ===== src/Rebind/Pieces.antt =====
-- Queries as sequences of pieces: what the lexer of `rebindPostgres` takes apart, written down without it.
use lan_qin_email.Prelude.{
  ℕ, ◌+◌, ◌≡◌, refl, ap, Bool, true, false, ◌&&◌, ◌||◌, not, List, [], ◌∷◌, ◌++◌, ◌==◌, arith, any,
}
use lan_qin_email.Prelude.Text.{Text, is_empty}
use lan_qin_email.Rebind.{next_is, consume, scan_literal, scan_identifier, scan_line, scan_comment}

-- a character that begins nothing in front of a text: not a quote, a dollar sign or a question mark,
-- nor the first of the two characters that open a comment
abbrev pub begins_nothing : ℕ → Text → Bool
begins_nothing c rest =
    not (c == b'\'' || c == b'"' || c == b'$' || c == b'?')
    && (not (c == b'-' && next_is b'-' rest) && not (c == b'/' && next_is b'*' rest))

-- no character of a text is the given one
abbrev pub lacks : ℕ → Text → Bool
lacks c s = not (any (λ d. d == c) s)

pub data Piece : Type 0 where
  -- a character that begins nothing
  plain : ℕ → Piece
  -- text in single or in double quotes, behind two hyphens up to the end of its line, or in a comment
  literal identifier line block : Text → Piece
  -- a placeholder, and the two ways to write a question mark
  placeholder doubled operator : Piece

-- the piece in a query
abbrev pub raw : Piece → Text
raw (plain c) = c ∷ []
raw (literal body) = b'\'' ∷ body ++ b'\'' ∷ []
raw (identifier body) = b'"' ∷ body ++ b'"' ∷ []
raw (line body) = b'-' ∷ b'-' ∷ body
raw (block body) = b'/' ∷ b'*' ∷ body ++ b'*' ∷ b'/' ∷ []
raw placeholder = b'?' ∷ []
raw doubled = b'?' ∷ b'?' ∷ []
raw operator = b'?' ∷ []

abbrev pub raw_all : List Piece → Text
raw_all [] = []
raw_all (p ∷ ps) = raw p ++ raw_all ps

-- the piece as PostgreSQL is given it, and the number of the next placeholder
abbrev pub bound : (ℕ → Text) → ℕ → Piece → Text
bound itoa n (plain c) = c ∷ []
bound itoa n (literal body) = b'\'' ∷ body ++ b'\'' ∷ []
bound itoa n (identifier body) = b'"' ∷ body ++ b'"' ∷ []
bound itoa n (line body) = b'-' ∷ b'-' ∷ body
bound itoa n (block body) = b'/' ∷ b'*' ∷ body ++ b'*' ∷ b'/' ∷ []
bound itoa n placeholder = b'$' ∷ itoa n
bound itoa n doubled = b'?' ∷ []
bound itoa n operator = b'?' ∷ []

abbrev pub number_after : ℕ → Piece → ℕ
number_after n placeholder = n + 1
number_after n _ = n

abbrev pub bound_all : (ℕ → Text) → ℕ → List Piece → Text
bound_all itoa n [] = []
bound_all itoa n (p ∷ ps) = bound itoa n p ++ bound_all itoa (number_after n p) ps

-- what a piece may hold, given the text behind it: quotes and backslashes are in no literal, and what
-- follows a piece does not change what it is
abbrev pub fits : Piece → Text → Bool
fits (plain c) rest = begins_nothing c rest
fits (block body) rest = lacks b'*' body && lacks b'/' body
fits (literal body) rest = lacks b'\'' body && (lacks b'\\' body && not (next_is b'\'' rest))
fits (identifier body) rest = lacks b'"' body && not (next_is b'"' rest)
fits (line body) rest = lacks b'\n' body && (is_empty rest || next_is b'\n' rest)
fits placeholder rest = not (next_is b'?' rest || next_is b'|' rest || next_is b'&' rest)
fits doubled rest = true
fits operator rest = next_is b'|' rest || next_is b'&' rest

abbrev pub IsQuery : List Piece → Type 0
IsQuery [] = Unit
IsQuery (p ∷ ps) = (fits p (raw_all ps) ≡ true) × IsQuery ps

pub lacks_cons :
    (c d : ℕ) (s : Text) → lacks c (d ∷ s) ≡ true → ((d == c) ≡ false) × (lacks c s ≡ true)
lacks_cons c d s h = ground arith

pub not-true : (b : Bool) → not b ≡ true → b ≡ false
not-true b h = ground arith

pub literal_end :
    (body rest : Text)
    → lacks b'\'' body ≡ true
    → lacks b'\\' body ≡ true
    → next_is b'\'' rest ≡ false
    → scan_literal false (body ++ b'\'' ∷ rest) ≡ (body ++ b'\'' ∷ [], rest)
unfolding scan_literal
literal_end [] rest q b h = rw h refl
literal_end (c ∷ body) rest q b h =
    let (q0, qs) = lacks_cons b'\'' c body q in
    let (b0, bs) = lacks_cons b'\\' c body b in
    rw (q0, b0) (ap (consume c) (literal_end body rest qs bs h))

pub identifier_end :
    (body rest : Text)
    → lacks b'"' body ≡ true
    → next_is b'"' rest ≡ false
    → scan_identifier false (body ++ b'"' ∷ rest) ≡ (body ++ b'"' ∷ [], rest)
unfolding scan_identifier
identifier_end [] rest q h = rw h refl
identifier_end (c ∷ body) rest q h =
    let (q0, qs) = lacks_cons b'"' c body q in
    rw q0 (ap (consume c) (identifier_end body rest qs h))

pub line_end :
    (body rest : Text)
    → lacks b'\n' body ≡ true
    → (is_empty rest || next_is b'\n' rest) ≡ true
    → scan_line (body ++ rest) ≡ (body, rest)
unfolding scan_line
line_end [] [] q h = refl
line_end [] (c ∷ rest) q h = rw h refl
line_end (c ∷ body) rest q h =
    let (q0, qs) = lacks_cons b'\n' c body q in rw q0 (ap (consume c) (line_end body rest qs h))

pub block_end :
    (body rest : Text)
    → lacks b'*' body ≡ true
    → lacks b'/' body ≡ true
    → scan_comment false 1 (body ++ b'*' ∷ b'/' ∷ rest) ≡ (body ++ b'*' ∷ b'/' ∷ [], rest)
unfolding scan_comment
block_end [] [] q h = refl
block_end [] (c ∷ rest) q h = refl
block_end (c ∷ body) rest q h =
    let (q0, qs) = lacks_cons b'*' c body q in
    let (h0, hs) = lacks_cons b'/' c body h in
    rw (q0, h0) (ap (consume c) (block_end body rest qs hs))
