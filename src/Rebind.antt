-- ===== src/Rebind.antt =====
-- `rebindPostgres` of database.go, the rewriting of the placeholders of a query. The source walks over
-- bytes and the model over characters: each character that it looks for is a single byte, which is
-- part of no other character. `itoa` is `strconv.Itoa`.
pub mod Pieces
pub mod Fuel
pub mod Kept
pub mod Swallowed
mod Tests
use lan_qin_email.Prelude.{
  ℕ, zero, suc, ◌+◌, ◌-◌, Bool, true, false, ◌&&◌, ◌||◌, not, Option, none, some, List, [], ◌∷◌,
  ◌++◌, ◌==◌, leb, if◌then◌else◌, length, drop,
}
use lan_qin_email.Prelude.Text.{Text, is_empty, starts_with}

-- `query[i+1] == c`, where there is one
abbrev pub next_is : ℕ → Text → Bool
next_is c [] = false
next_is c (d ∷ s) = d == c

-- a character in front of what was consumed
abbrev pub consume : ℕ → Text × Text → Text × Text
consume c (read, rest) = (c ∷ read, rest)

-- after this character of a literal the next one is consumed without a look at it
abbrev pub escapes_literal : ℕ → Text → Bool
escapes_literal c s = (c == b'\\' && not (is_empty s)) || (c == b'\'' && next_is b'\'' s)

-- the literal behind its opening quote, split into what belongs to it and the rest; `skip` says that
-- the character before has taken this one with it
unfoldable pub scan_literal : Bool → Text → Text × Text
scan_literal skip [] = ([], [])
scan_literal skip (c ∷ s) =
    let rest = scan_literal (not skip && escapes_literal c s) s in
    if not skip && (c == b'\'' && not (next_is b'\'' s)) then (c ∷ [], s) else consume c rest

abbrev pub escapes_identifier : ℕ → Text → Bool
escapes_identifier c s = c == b'"' && next_is b'"' s

-- the identifier behind its opening quote
unfoldable pub scan_identifier : Bool → Text → Text × Text
scan_identifier skip [] = ([], [])
scan_identifier skip (c ∷ s) =
    let rest = scan_identifier (not skip && escapes_identifier c s) s in
    if not skip && (c == b'"' && not (next_is b'"' s)) then (c ∷ [], s) else consume c rest

-- the rest of a line, without its end
unfoldable pub scan_line : Text → Text × Text
scan_line [] = ([], [])
scan_line (c ∷ s) = let rest = scan_line s in if c == b'\n' then ([], c ∷ s) else consume c rest

abbrev pub opens_comment : ℕ → Text → Bool
opens_comment c s = c == b'/' && next_is b'*' s

abbrev pub closes_comment : ℕ → Text → Bool
closes_comment c s = c == b'*' && next_is b'/' s

-- the depth behind a character of a comment, which is one at least in front of it
abbrev pub depth_after : ℕ → Text → ℕ → ℕ
depth_after c s depth =
    if opens_comment c s then suc depth else if closes_comment c s then depth - 1 else depth

-- the comment behind its opening, with its depth
unfoldable pub scan_comment : Bool → ℕ → Text → Text × Text
scan_comment skip depth [] = ([], [])
scan_comment true depth (c ∷ s) = consume c (scan_comment false depth s)
scan_comment false zero (c ∷ s) = ([], c ∷ s)
scan_comment false (suc d) (c ∷ s) =
    consume c (scan_comment (opens_comment c s || closes_comment c s) (depth_after c s (suc d)) s)

abbrev pub is_tag_char : ℕ → Bool
is_tag_char c =
    (leb b'a' c && leb c b'z')
    || (leb b'A' c && leb c b'Z')
    || (leb b'0' c && leb c b'9')
    || c == b'_'

abbrev pub with_front : ℕ → Option Text → Option Text
with_front c none = none
with_front c (some t) = some (c ∷ t)

-- the loop of `postgresDollarDelimiter`, behind the first character
unfoldable pub dollar_tag : Text → Option Text
dollar_tag [] = none
dollar_tag (c ∷ s) =
    let rest = dollar_tag s in
    if c == b'$' then some (c ∷ []) else if not (is_tag_char c) then none else with_front c rest

-- `postgresDollarDelimiter`
abbrev pub postgres_dollar_delimiter : Text → Option Text
postgres_dollar_delimiter [] = none
postgres_dollar_delimiter (c ∷ s) = if not (c == b'$') then none else with_front c (dollar_tag s)

-- the text up to the first delimiter and with it, by `strings.Index`, or all of it, and the rest
unfoldable pub split_after : Text → Text → Text × Text
split_after delimiter [] = ([], [])
split_after delimiter (c ∷ s) =
    let rest = split_after delimiter s in
    if starts_with delimiter (c ∷ s)
    then (delimiter, drop (length delimiter) (c ∷ s))
    else consume c rest

-- what a turn of the outer loop writes, the next placeholder, and the rest of the query
abbrev pub Turn : Type 0
Turn = Text × ℕ × Text

abbrev pub copied : ℕ → Text × Text → Turn
copied n (read, rest) = (read, n, rest)

abbrev pub copied_body : ℕ → ℕ → Text → Option Text → Turn
copied_body n c s none = (c ∷ [], n, s)
copied_body n c s (some delimiter) =
    let body = split_after delimiter (drop (length delimiter) (c ∷ s)) in
    (delimiter ++ body.0, n, body.1)

abbrev pub placeholder_turn : (ℕ → Text) → ℕ → ℕ → Text → Turn
placeholder_turn itoa n c s =
    if next_is b'?' s
    then (b'?' ∷ [], n, drop 1 s)
    else if next_is b'|' s || next_is b'&' s
    then (b'?' ∷ [], n, s)
    else (b'$' ∷ itoa n, n + 1, s)

-- a turn of the outer loop at a character and what follows it
unfoldable pub turn : (ℕ → Text) → ℕ → ℕ → Text → Turn
turn itoa n c s =
    if c == b'\''
    then copied n (consume c (scan_literal false s))
    else if c == b'"'
    then copied n (consume c (scan_identifier false s))
    else if c == b'-' && next_is b'-' s
    then copied n (consume c (consume b'-' (scan_line (drop 1 s))))
    else if c == b'/' && next_is b'*' s
    then copied n (consume c (consume b'*' (scan_comment false 1 (drop 1 s))))
    else if c == b'$'
    then copied_body n c s (postgres_dollar_delimiter (c ∷ s))
    else if c == b'?'
    then placeholder_turn itoa n c s
    else (c ∷ [], n, s)

-- the outer loop of `rebindPostgres`, on fuel
unfoldable pub rebind_loop : (ℕ → Text) → ℕ → ℕ → Text → Text
rebind_loop itoa zero n q = []
rebind_loop itoa (suc fuel) n [] = []
rebind_loop itoa (suc fuel) n (c ∷ s) =
    let t = turn itoa n c s in t.0 ++ rebind_loop itoa fuel t.1 t.2

-- `rebindPostgres`
unfoldable pub rebind_postgres : (ℕ → Text) → Text → Text
rebind_postgres itoa query = rebind_loop itoa (length query) 1 query
