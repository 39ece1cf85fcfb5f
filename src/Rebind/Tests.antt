-- ===== src/Rebind/Tests.antt =====
-- Concrete queries for `rebindPostgres`, those of database_test.go among them.
use lan_qin_email.Prelude.{
  ℕ, ◌≡◌, refl, ◌+◌, ◌++◌, length, ◌==◌, if◌then◌else◌, List, [], ◌∷◌, arith,
}
use lan_qin_email.Prelude.Text.{Text, codes, starts_with}
use lan_qin_email.Rebind.{
  scan_literal, scan_identifier, scan_line, scan_comment, dollar_tag, split_after, turn,
  rebind_loop, rebind_postgres,
}
use lan_qin_email.Rebind.Fuel.{fuel-rebind_loop}
use lan_qin_email.Rebind.Pieces.{
  Piece, plain, literal, identifier, line, block, placeholder, doubled, operator, raw_all,
  bound_all,
}
use lan_qin_email.Rebind.Kept.{rebind-pieces}
use lan_qin_email.Rebind.Swallowed.{swallowing, number_all, rebind_backslash}

-- the numbers of one digit
abbrev digit : ℕ → Text
digit n = (b'0' + n) ∷ []

quoted_example :
    rebind_postgres digit (codes "SELECT '?', \"column?\", 'it''s ?' FROM messages WHERE id = ?")
    ≡ codes "SELECT '?', \"column?\", 'it''s ?' FROM messages WHERE id = $1"
unfolding rebind_postgres rebind_loop turn scan_literal scan_identifier
quoted_example = refl

comments_example :
    rebind_postgres digit
      (codes "SELECT ? -- leave ? alone\n/* outer ? /* nested ? */ done */ WHERE id = ?")
    ≡ codes "SELECT $1 -- leave ? alone\n/* outer ? /* nested ? */ done */ WHERE id = $2"
unfolding rebind_postgres rebind_loop turn scan_line scan_comment
comments_example = refl

dollar_example :
    rebind_postgres digit (codes "SELECT $$body ?$$, $tag$also ?$tag$, ?")
    ≡ codes "SELECT $$body ?$$, $tag$also ?$tag$, $1"
unfolding rebind_postgres rebind_loop turn dollar_tag split_after starts_with
dollar_example = refl

json_example :
    rebind_postgres digit
      (codes "payload ?| array['a'], payload ?& array['b'], payload ?? 'c' WHERE id = ?")
    ≡ codes "payload ?| array['a'], payload ?& array['b'], payload ? 'c' WHERE id = $1"
unfolding rebind_postgres rebind_loop turn scan_literal
json_example = refl

-- the condition of `handleSearchShareUsers`, whose second placeholder stays
search_example :
    rebind_postgres digit (codes "email LIKE ? ESCAPE '\\' OR name LIKE ? ESCAPE '\\')")
    ≡ codes "email LIKE $1 ESCAPE '\\' OR name LIKE ? ESCAPE '\\')"
unfolding rebind_postgres rebind_loop turn scan_literal
search_example = refl

fuel-rebind_loop_example :
    rebind_loop digit 9 1 (codes "a=? b") ≡ rebind_postgres digit (codes "a=? b")
fuel-rebind_loop_example = fuel-rebind_loop digit 9 (codes "a=? b") (omega arith)

abbrev pieces : List Piece
pieces =
    plain b'a'
    ∷ placeholder
    ∷ literal (codes "is it?")
    ∷ plain b'-'
    ∷ identifier (codes "b?")
    ∷ doubled
    ∷ operator
    ∷ plain b'|'
    ∷ block (codes " ? ")
    ∷ placeholder
    ∷ line (codes " ?")
    ∷ []

rebind-pieces_example : rebind_postgres digit (raw_all pieces) ≡ bound_all digit 1 pieces
rebind-pieces_example =
    rebind-pieces digit pieces
      (refl, (refl, (refl, (refl, (refl, (refl, (refl, (refl, (refl, (refl, (refl, tt)))))))))))

-- the pieces of a text without quotes and comments
abbrev pieces_of : Text → List Piece
pieces_of [] = []
pieces_of (c ∷ s) = (if c == b'?' then placeholder else plain c) ∷ pieces_of s

-- the conditions of the search for users: the second `LIKE` keeps its question mark
abbrev first_like : List Piece
first_like = pieces_of (codes "WHERE id<>? AND (lower(email) LIKE ? ESCAPE ")

abbrev second_like : Text
second_like = codes " OR lower(display_name) LIKE ? ESCAPE "

abbrev ending : Text
ending = codes "\\') ORDER BY display_name,email LIMIT 10"

search_rebound :
    rebind_postgres digit (raw_all first_like ++ swallowing second_like ending)
    ≡ codes "WHERE id<>$1 AND (lower(email) LIKE $2 ESCAPE '\\' "
      ++ codes "OR lower(display_name) LIKE ? ESCAPE '\\') "
      ++ codes "ORDER BY display_name,email LIMIT 10"
unfolding rebind_postgres rebind_loop turn scan_literal
search_rebound = refl

rebind_backslash_example :
    rebind_postgres digit (raw_all first_like ++ swallowing second_like ending)
    ≡ bound_all digit 1 first_like
      ++ swallowing second_like (rebind_loop digit (length ending) (number_all 1 first_like) ending)
rebind_backslash_example = rebind_backslash digit first_like second_like ending refl refl refl refl
