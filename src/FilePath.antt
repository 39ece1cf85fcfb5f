-- ===== src/FilePath.antt =====
-- The functions of Go's `path/filepath` that the program calls, on slash-separated paths.
use lan_qin_email.Prelude.{ℕ, [], ◌∷◌, if◌then◌else◌, ◌==◌}
use lan_qin_email.Prelude.Text.{Text, codes, trim_right, is_empty, contains_rune}

-- what stands behind the last `sep`, or the whole text
unfoldable pub after_last : ℕ → Text → Text
unfolding contains_rune
after_last sep [] = []
after_last sep (c ∷ s) =
    let rest = after_last sep s in if contains_rune sep (c ∷ s) then rest else c ∷ s

-- `filepath.Base`
unfoldable pub base_name : Text → Text
unfolding after_last trim_right
base_name [] = codes "."
base_name (c ∷ s) =
    let path = trim_right (λ d. d == b'/') (c ∷ s) in
    if is_empty path then codes "/" else after_last b'/' path
