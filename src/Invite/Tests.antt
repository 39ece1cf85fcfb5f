-- ===== src/Invite/Tests.antt =====
-- Concrete cases of the registration invites.
use lan_qin_email.Prelude.{
  ℕ, ◌≤◌, ◌≡◌, refl, not, none, some, [], ◌∷◌, arith, if◌then◌else◌, leb, ◌-◌, ◌&&◌,
}
use lan_qin_email.Prelude.Text.{codes}
use lan_qin_email.Permissions.Groups.{Db}
use lan_qin_email.Invite.{
  Invite, normalize_registration_invite_code, all_code_chars, commit, consume_registration_invite,
  create_invite, delete_invite, validate_registration_invite,
}
use lan_qin_email.Address.{byte_length}
use lan_qin_email.Prelude.Text.{trim_space}
use lan_qin_email.Invite.Spending.{remaining, grants, grants_bounded}
use lan_qin_email.Invite.Validity.{IsValid, is_invalid, validate_exact, operations-IsValid}

-- upper case on ASCII
abbrev upper : ℕ → ℕ
upper c = if leb b'a' c && leb c b'z' then c - 32 else c

abbrev db : Db
db = record { groups = λ id. none; members = [] }

abbrev invite : Invite
invite = record {
  id = codes "inv1";
  code = codes "BETA-1";
  max_uses = 2;
  used_count = 1;
  group_ids = [];
}

code_example : normalize_registration_invite_code upper (codes " beta-1") ≡ some (codes "BETA-1")
unfolding normalize_registration_invite_code all_code_chars byte_length trim_space
code_example = refl

invite-IsValid : IsValid (invite ∷ [])
invite-IsValid = (refl, omega arith, tt)

grants_bounded_example :
    grants upper db (codes "BETA-1") (codes " beta-1" ∷ codes "BETA-1" ∷ []) (invite ∷ [])
    ≤ remaining (codes "BETA-1") (invite ∷ [])
grants_bounded_example =
    grants_bounded upper db (codes "BETA-1") (codes " beta-1" ∷ codes "BETA-1" ∷ []) (invite ∷ [])

validate_exact_example :
    validate_registration_invite upper (codes " beta-1") (invite ∷ [])
    ≡ not (is_invalid (consume_registration_invite upper db (codes " beta-1") (invite ∷ [])).0)
validate_exact_example = validate_exact upper db (codes " beta-1") (invite ∷ []) invite-IsValid

operations-IsValid_example :
    IsValid
      (create_invite upper db (codes "inv2") (codes "INV-A") (codes "beta-1") 3 [] (invite ∷ [])).1
    × IsValid
        (commit
          (consume_registration_invite upper db (codes "beta-1") (invite ∷ []))
          (invite ∷ [])).1
    × IsValid (delete_invite (codes "inv2") (invite ∷ []))
operations-IsValid_example =
    operations-IsValid upper db (codes "inv2") (codes "INV-A") (codes "beta-1") 3 [] (invite ∷ [])
      invite-IsValid
