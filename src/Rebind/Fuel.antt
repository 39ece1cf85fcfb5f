-- ===== src/Rebind/Fuel.antt =====
-- The loop of `rebindPostgres` ends: every turn consumes a character, so that the length of the query
-- is fuel enough.
use lan_qin_email.Prelude.{
  ℕ, zero, suc, ◌≤◌, ◌≡◌, refl, ap, Bool, true, false, ◌&&◌, ◌||◌, not, Option, none, some, [], ◌∷◌,
  ◌++◌, ◌==◌, length, drop, arith, if_keeps,
}
use lan_qin_email.Prelude.Text.{Text, starts_with}
use lan_qin_email.Rebind.{
  next_is, escapes_literal, scan_literal, escapes_identifier, scan_identifier, scan_line,
  opens_comment, closes_comment, depth_after, scan_comment, split_after, with_front, dollar_tag,
  Turn, copied_body, placeholder_turn, turn, rebind_loop, rebind_postgres,
}

length-drop : (n : ℕ) (s : Text) → length (drop n s) ≤ length s
length-drop zero s = omega arith
length-drop (suc n) [] = omega arith
length-drop (suc n) (c ∷ s) = omega (arith, length-drop n s)

-- what a scan leaves is no longer than what it was given
literal_rest : (skip : Bool) (s : Text) → length (scan_literal skip s).1 ≤ length s
unfolding scan_literal
literal_rest skip [] = omega arith
literal_rest skip (c ∷ s) =
    if_keeps (λ (r : Text × Text). length r.1 ≤ suc (length s))
      (not skip && (c == b'\'' && not (next_is b'\'' s))) (λ h. omega arith)
      (λ h. omega (arith, literal_rest (not skip && escapes_literal c s) s))

identifier_rest : (skip : Bool) (s : Text) → length (scan_identifier skip s).1 ≤ length s
unfolding scan_identifier
identifier_rest skip [] = omega arith
identifier_rest skip (c ∷ s) =
    if_keeps (λ (r : Text × Text). length r.1 ≤ suc (length s))
      (not skip && (c == b'"' && not (next_is b'"' s))) (λ h. omega arith)
      (λ h. omega (arith, identifier_rest (not skip && escapes_identifier c s) s))

line_rest : (s : Text) → length (scan_line s).1 ≤ length s
unfolding scan_line
line_rest [] = omega arith
line_rest (c ∷ s) =
    if_keeps (λ (r : Text × Text). length r.1 ≤ suc (length s)) (c == b'\n') (λ h. omega arith)
      (λ h. omega (arith, line_rest s))

comment_rest :
    (skip : Bool) (depth : ℕ) (s : Text) → length (scan_comment skip depth s).1 ≤ length s
unfolding scan_comment
comment_rest skip depth [] = omega arith
comment_rest true depth (c ∷ s) = omega (arith, comment_rest false depth s)
comment_rest false zero (c ∷ s) = omega arith
comment_rest false (suc d) (c ∷ s) =
    omega
      (arith, comment_rest (opens_comment c s || closes_comment c s) (depth_after c s (suc d)) s)

body_rest : (delimiter s : Text) → length (split_after delimiter s).1 ≤ length s
unfolding split_after
body_rest delimiter [] = omega arith
body_rest delimiter (c ∷ s) =
    if_keeps (λ (r : Text × Text). length r.1 ≤ suc (length s)) (starts_with delimiter (c ∷ s))
      (λ h. length-drop (length delimiter) (c ∷ s)) (λ h. omega (arith, body_rest delimiter s))

dollar_rest :
    (n c : ℕ) (s : Text) (o : Option Text)
    → length (copied_body n c s (with_front c o)).2 ≤ length s
dollar_rest n c s none = omega arith
dollar_rest n c s (some tag) =
    omega (arith, body_rest (c ∷ tag) (drop (length tag) s), length-drop (length tag) s)

module _ (itoa : ℕ → Text) where
  placeholder_rest : (n c : ℕ) (s : Text) → length (placeholder_turn itoa n c s).2 ≤ length s
  placeholder_rest n c s =
      if_keeps (λ (t : Turn). length t.2 ≤ length s) (next_is b'?' s) (λ h. length-drop 1 s)
        (λ h.
          if_keeps (λ (t : Turn). length t.2 ≤ length s) (next_is b'|' s || next_is b'&' s)
            (λ h. omega arith) (λ h. omega arith))

  -- a turn leaves no more than what follows its first character
  pub turn_rest : (n c : ℕ) (s : Text) → length (turn itoa n c s).2 ≤ length s
  unfolding turn
  turn_rest n c s =
      let P = λ (t : Turn). length t.2 ≤ length s in
      if_keeps P (c == b'\'') (λ h. literal_rest false s)
        (λ h.
          if_keeps P (c == b'"') (λ h. identifier_rest false s)
            (λ h.
              if_keeps P (c == b'-' && next_is b'-' s)
                (λ h. omega (arith, line_rest (drop 1 s), length-drop 1 s))
                (λ h.
                  if_keeps P (c == b'/' && next_is b'*' s)
                    (λ h. omega (arith, comment_rest false 1 (drop 1 s), length-drop 1 s))
                    (λ h.
                      if_keeps P (c == b'$') (λ h. rw h (dollar_rest n c s (dollar_tag s)))
                        (λ h.
                          if_keeps P (c == b'?') (λ h. placeholder_rest n c s)
                            (λ h. omega arith))))))

  pub fuel_enough :
      (f g n : ℕ) (q : Text)
      → length q ≤ f
      → length q ≤ g
      → rebind_loop itoa f n q ≡ rebind_loop itoa g n q
  unfolding rebind_loop
  fuel_enough zero zero n q h k = refl
  fuel_enough zero (suc g) n [] h k = refl
  fuel_enough zero (suc g) n (c ∷ s) h k = absurd (omega arith)
  fuel_enough (suc f) zero n [] h k = refl
  fuel_enough (suc f) zero n (c ∷ s) h k = absurd (omega arith)
  fuel_enough (suc f) (suc g) n [] h k = refl
  fuel_enough (suc f) (suc g) n (c ∷ s) h k =
      let t = turn itoa n c s in
      let less = turn_rest n c s in
      ap (λ r. t.0 ++ r) (fuel_enough f g t.1 t.2 (omega (arith, less)) (omega (arith, less)))

-- The loop of `rebindPostgres` ends within as many turns as the query has characters: with more fuel
-- its result is the same.
pub fuel-rebind_loop :
    (itoa : ℕ → Text) (fuel : ℕ) (query : Text)
    → length query ≤ fuel
    → rebind_loop itoa fuel 1 query ≡ rebind_postgres itoa query
unfolding rebind_postgres
fuel-rebind_loop itoa fuel query h = fuel_enough itoa fuel (length query) 1 query h (omega arith)
