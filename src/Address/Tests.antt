-- ===== src/Address/Tests.antt =====
-- Addresses on concrete inputs: tests, and the theorems at them.
use lan_qin_email.Prelude.{◌≡◌, refl, ◌&&◌, not, List, [], ◌∷◌, All, any}
use lan_qin_email.Prelude.Text.{Text, codes, text_eq, has, trim_space, is_empty}
use lan_qin_email.Std.Ascii.{ascii}
use lan_qin_email.Address.{
  normalize_email, valid_recipient_address, dedupe_emails, require_clean_local_part, rejected,
  unclean, unique_non_empty,
}
use lan_qin_email.Address.Distinct.{IsDistinct, unique_non_empty_exact, dedupe_emails_exact}
use lan_qin_email.Address.Safety.{IsHeaderSafe, dedupe_emails-All}

abbrev given : List Text
given =
    codes " Ann@Example.COM. " ∷ codes "ann@example.com" ∷ codes "bad@-x" ∷ codes "c d@x.org" ∷ []

kept : dedupe_emails ascii given ≡ codes "ann@example.com" ∷ codes "cd@x.org" ∷ []
unfolding dedupe_emails text_eq
kept = refl

cleaned :
    unique_non_empty (codes " a" ∷ [] ∷ codes "a" ∷ codes "b " ∷ []) ≡ codes "a" ∷ codes "b" ∷ []
unfolding unique_non_empty text_eq
cleaned = refl

slash : require_clean_local_part ascii (codes "a/b") ≡ rejected unclean
unfolding require_clean_local_part
slash = refl

dedupe_emails-All_example : All (All IsHeaderSafe) (dedupe_emails ascii given)
dedupe_emails-All_example = dedupe_emails-All ascii given

dedupe_emails_exact_example :
    IsDistinct (dedupe_emails ascii given)
    × ((w : Text)
        → has w (dedupe_emails ascii given)
          ≡ any
              (λ i.
                valid_recipient_address ascii (normalize_email ascii i)
                && text_eq (normalize_email ascii i) w)
              given)
dedupe_emails_exact_example = dedupe_emails_exact ascii given

unique_non_empty_exact_example :
    IsDistinct (unique_non_empty (codes " a" ∷ codes "a" ∷ []))
    × ((w : Text)
        → has w (unique_non_empty (codes " a" ∷ codes "a" ∷ []))
          ≡ any
              (λ v. not (is_empty (trim_space v)) && text_eq (trim_space v) w)
              (codes " a" ∷ codes "a" ∷ []))
unique_non_empty_exact_example = unique_non_empty_exact (codes " a" ∷ codes "a" ∷ [])
