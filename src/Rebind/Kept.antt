-- ===== src/Rebind/Kept.antt =====
-- `rebindPostgres` on queries that are given by their pieces.
use lan_qin_email.Prelude.{
  ℕ, zero, suc, ◌≤◌, ◌≡◌, refl, ap, ◌∙◌, true, false, ◌&&◌, ◌||◌, not, List, [], ◌∷◌, ◌++◌,
  append_assoc, ◌==◌, length, length-append, arith, and_true,
}
use lan_qin_email.Prelude.Text.{Text, is_empty}
use lan_qin_email.Rebind.{next_is, consume, Turn, copied, turn, rebind_loop, rebind_postgres}
use lan_qin_email.Rebind.Pieces.{
  Piece, plain, literal, identifier, line, block, placeholder, doubled, operator, raw, raw_all,
  bound, bound_all, number_after, fits, begins_nothing, IsQuery, lacks, not-true, literal_end,
  identifier_end, line_end, block_end,
}

-- the turn at the first character of a query
abbrev pub turn_at : (ℕ → Text) → ℕ → Text → Turn
turn_at itoa n [] = ([], n, [])
turn_at itoa n (c ∷ s) = turn itoa n c s

plain_tests :
    (c : ℕ) (rest : Text)
    → begins_nothing c rest ≡ true
    → ((c == b'\'') ≡ false)
      × ((c == b'"') ≡ false)
      × ((c == b'-' && next_is b'-' rest) ≡ false)
      × ((c == b'/' && next_is b'*' rest) ≡ false)
      × ((c == b'$') ≡ false)
      × ((c == b'?') ≡ false)
plain_tests c rest h = ground arith

next_tests :
    (rest : Text)
    → not (next_is b'?' rest || next_is b'|' rest || next_is b'&' rest) ≡ true
    → (next_is b'?' rest ≡ false) × ((next_is b'|' rest || next_is b'&' rest) ≡ false)
next_tests rest h = ground arith

operator_tests :
    (rest : Text) → (next_is b'|' rest || next_is b'&' rest) ≡ true → next_is b'?' rest ≡ false
operator_tests [] h = refl
operator_tests (c ∷ rest) h = ground arith

-- a turn at a piece writes it as it is bound and leaves what follows it
pub turn-fits :
    (itoa : ℕ → Text) (n : ℕ) (p : Piece) (rest : Text)
    → fits p rest ≡ true
    → turn_at itoa n (raw p ++ rest) ≡ (bound itoa n p, number_after n p, rest)
unfolding turn
turn-fits itoa n (plain c) rest h =
    let (a, b, d, e, f, g) = plain_tests c rest h in rw (a, b, d, e, f, g) refl
turn-fits itoa n (literal body) rest h =
    let (q, more) = and_true (lacks b'\'' body) (lacks b'\\' body && not (next_is b'\'' rest)) h in
    let (b, e) = and_true (lacks b'\\' body) (not (next_is b'\'' rest)) more in
    rw (append_assoc body (b'\'' ∷ []) rest) (
      ap (λ r. copied n (consume b'\'' r))
        (literal_end body rest q b (not-true (next_is b'\'' rest) e)))
turn-fits itoa n (identifier body) rest h =
    let (q, e) = and_true (lacks b'"' body) (not (next_is b'"' rest)) h in
    rw (append_assoc body (b'"' ∷ []) rest) (
      ap (λ r. copied n (consume b'"' r))
        (identifier_end body rest q (not-true (next_is b'"' rest) e)))
turn-fits itoa n (line body) rest h =
    let (q, e) = and_true (lacks b'\n' body) (is_empty rest || next_is b'\n' rest) h in
    ap (λ r. copied n (consume b'-' (consume b'-' r))) (line_end body rest q e)
turn-fits itoa n (block body) rest h =
    let (q, e) = and_true (lacks b'*' body) (lacks b'/' body) h in
    rw (append_assoc body (b'*' ∷ b'/' ∷ []) rest)
      (ap (λ r. copied n (consume b'/' (consume b'*' r))) (block_end body rest q e))
turn-fits itoa n placeholder rest h = let (d, o) = next_tests rest h in rw (d, o) refl
turn-fits itoa n doubled rest h = refl
turn-fits itoa n operator rest h = rw (operator_tests rest h, h) refl

-- a turn of the loop at a text that is not empty
pub loop-turn_at :
    (itoa : ℕ → Text) (fuel n : ℕ) (q : Text)
    → 1 ≤ length q
    → rebind_loop itoa (suc fuel) n q
      ≡ (turn_at itoa n q).0 ++ rebind_loop itoa fuel (turn_at itoa n q).1 (turn_at itoa n q).2
unfolding rebind_loop
loop-turn_at itoa fuel n [] h = absurd (omega arith)
loop-turn_at itoa fuel n (c ∷ s) h = refl

pub raw_size : (p : Piece) → 1 ≤ length (raw p)
raw_size (plain c) = omega arith
raw_size (literal body) = omega arith
raw_size (identifier body) = omega arith
raw_size (line body) = omega arith
raw_size (block body) = omega arith
raw_size placeholder = omega arith
raw_size doubled = omega arith
raw_size operator = omega arith

loop-nil : (itoa : ℕ → Text) (fuel n : ℕ) → rebind_loop itoa fuel n [] ≡ []
unfolding rebind_loop
loop-nil itoa zero n = refl
loop-nil itoa (suc fuel) n = refl

loop-pieces :
    (itoa : ℕ → Text) (fuel n : ℕ) (ps : List Piece)
    → length (raw_all ps) ≤ fuel
    → IsQuery ps
    → rebind_loop itoa fuel n (raw_all ps) ≡ bound_all itoa n ps
loop-pieces itoa fuel n [] h q = loop-nil itoa fuel n
loop-pieces itoa zero n (p ∷ ps) h q =
    absurd (omega (arith, raw_size p, length-append (raw p) (raw_all ps)))
loop-pieces itoa (suc fuel) n (p ∷ ps) h (fit, q) =
    let size = raw_size p in
    let sizes = length-append (raw p) (raw_all ps) in
    let t = turn-fits itoa n p (raw_all ps) fit in
    loop-turn_at itoa fuel n (raw p ++ raw_all ps) (omega (arith, size, sizes))
    ∙ ap (λ (r : Turn). r.0 ++ rebind_loop itoa fuel r.1 r.2) t
    ∙ ap (λ r. bound itoa n p ++ r)
        (loop-pieces itoa fuel (number_after n p) ps (omega (arith, size, sizes)) q)

-- A query that is a sequence of quoted texts, comments, placeholders, written question marks and other
-- characters is rewritten piece by piece: placeholders are numbered from 1 in their order, a doubled
-- question mark becomes one, and everything else is kept, question marks inside quotes and comments
-- included. Quoted texts hold no quote, literals no backslash, and block comments no asterisk or slash.
pub rebind-pieces :
    (itoa : ℕ → Text) (ps : List Piece)
    → IsQuery ps
    → rebind_postgres itoa (raw_all ps) ≡ bound_all itoa 1 ps
unfolding rebind_postgres
rebind-pieces itoa ps q = loop-pieces itoa (length (raw_all ps)) 1 ps (omega arith) q
