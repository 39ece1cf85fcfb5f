-- ===== src/Rebind/Swallowed.antt =====
-- What `rebindPostgres` makes of a literal that holds a single backslash, as `ESCAPE '\\'` has it.
use lan_qin_email.Prelude.{
  ℕ, zero, suc, ◌≤◌, ◌≡◌, ap, ◌∙◌, sym, Bool, true, false, ◌&&◌, List, [], ◌∷◌, ◌++◌, append_assoc,
  length, length-append, arith, and_true,
}
use lan_qin_email.Prelude.Text.{Text}
use lan_qin_email.Rebind.{next_is, scan_literal, Turn, turn, rebind_loop, rebind_postgres}
use lan_qin_email.Rebind.Pieces.{
  Piece, raw, raw_all, bound, bound_all, number_after, fits, lacks, literal_end,
}
use lan_qin_email.Rebind.Fuel.{fuel_enough}
use lan_qin_email.Rebind.Kept.{turn-fits, loop-turn_at, raw_size}

-- the pieces are what the lexer takes them for, in front of the given text
abbrev pub is_query_before : Text → List Piece → Bool
is_query_before rest [] = true
is_query_before rest (p ∷ ps) = fits p (raw_all ps ++ rest) && is_query_before rest ps

-- the number of the next placeholder behind the pieces
abbrev pub number_all : ℕ → List Piece → ℕ
number_all n [] = n
number_all n (p ∷ ps) = number_all (number_after n p) ps

loop-before :
    (itoa : ℕ → Text) (fuel n : ℕ) (ps : List Piece) (rest : Text)
    → length (raw_all ps ++ rest) ≤ fuel
    → is_query_before rest ps ≡ true
    → rebind_loop itoa fuel n (raw_all ps ++ rest)
      ≡ bound_all itoa n ps ++ rebind_loop itoa (length rest) (number_all n ps) rest
loop-before itoa fuel n [] rest h q = fuel_enough itoa fuel (length rest) n rest h (omega arith)
loop-before itoa zero n (p ∷ ps) rest h q = absurd (
    omega (
      arith,
      raw_size p,
      length-append (raw p) (raw_all ps),
      length-append (raw_all (p ∷ ps)) rest,
    ))
loop-before itoa (suc fuel) n (p ∷ ps) rest h q =
    let (fit, others) = and_true (fits p (raw_all ps ++ rest)) (is_query_before rest ps) q in
    let size = raw_size p in
    let text = append_assoc (raw p) (raw_all ps) rest in
    let sizes = length-append (raw p) (raw_all ps ++ rest) in
    let all = ap length text in
    let t = turn-fits itoa n p (raw_all ps ++ rest) fit in
    ap (rebind_loop itoa (suc fuel) n) text
    ∙ loop-turn_at itoa fuel n (raw p ++ (raw_all ps ++ rest)) (omega (arith, size, sizes))
    ∙ ap (λ (r : Turn). r.0 ++ rebind_loop itoa fuel r.1 r.2) t
    ∙ ap (λ r. bound itoa n p ++ r)
        (loop-before itoa fuel (number_after n p) ps rest (omega (arith, size, sizes, all)) others)
    ∙ sym (append_assoc (bound itoa n p) (bound_all itoa (number_after n p) ps) _)

-- a literal of a single backslash, and the text up to the next quote
abbrev pub swallowing : Text → Text → Text
swallowing mid tail = b'\'' ∷ b'\\' ∷ b'\'' ∷ mid ++ b'\'' ∷ tail

loop-swallowing :
    (itoa : ℕ → Text) (n : ℕ) (mid tail : Text)
    → lacks b'\'' mid ≡ true
    → lacks b'\\' mid ≡ true
    → next_is b'\'' tail ≡ false
    → rebind_loop itoa (length (swallowing mid tail)) n (swallowing mid tail)
      ≡ swallowing mid (rebind_loop itoa (length tail) n tail)
unfolding rebind_loop turn scan_literal
loop-swallowing itoa n mid tail q b e =
    let rest = mid ++ b'\'' ∷ tail in
    let fuel = suc (suc (length rest)) in
    let long = length-append mid (b'\'' ∷ tail) in
    ap (λ (r : Text × Text). b'\'' ∷ b'\\' ∷ b'\'' ∷ (r.0 ++ rebind_loop itoa fuel n r.1))
      (literal_end mid tail q b e)
    ∙ ap (λ r. b'\'' ∷ b'\\' ∷ b'\'' ∷ r)
        (append_assoc mid (b'\'' ∷ []) (rebind_loop itoa fuel n tail)
          ∙ ap (λ r. mid ++ b'\'' ∷ r)
              (fuel_enough itoa fuel (length tail) n tail (omega (arith, long)) (omega arith)))

-- Behind a literal that is a single backslash, which PostgreSQL takes for a whole literal, nothing is
-- rewritten up to the next quote: in a query of pieces, such a literal, a text without a quote or a
-- backslash, a quote and a tail, the pieces are rewritten, the text keeps its question marks, and the
-- tail, which does not start with a quote, is taken up as if it stood outside a literal, with the
-- number of the placeholders that the pieces have left.
pub rebind_backslash :
    (itoa : ℕ → Text) (ps : List Piece) (mid tail : Text)
    → is_query_before (swallowing mid tail) ps ≡ true
    → lacks b'\'' mid ≡ true
    → lacks b'\\' mid ≡ true
    → next_is b'\'' tail ≡ false
    → rebind_postgres itoa (raw_all ps ++ swallowing mid tail)
      ≡ bound_all itoa 1 ps
        ++ swallowing mid (rebind_loop itoa (length tail) (number_all 1 ps) tail)
unfolding rebind_postgres
rebind_backslash itoa ps mid tail fit q b e =
    loop-before itoa (length (raw_all ps ++ swallowing mid tail)) 1 ps (swallowing mid tail)
      (omega arith) fit
    ∙ ap (λ r. bound_all itoa 1 ps ++ r) (loop-swallowing itoa (number_all 1 ps) mid tail q b e)
