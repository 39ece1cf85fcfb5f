-- ===== src/Sharing/Alive.antt =====
-- When a share gives access, against the status that is shown for it.
use lan_qin_email.Prelude.{
  ℕ, ◌+◌, ◌*◌, ◌/◌, ◌≡◌, ◌≢◌, refl, ◌∙◌, ◌↔◌, true, ◌&&◌, not, Option, none, some, ltb, inl, inr,
  Bool-cases, sym, and_true,
}
use lan_qin_email.Instant.{nanoseconds, IsStoredBefore, stored_before_iff, stored_before-ltb}
use lan_qin_email.Sharing.{
  Share, day, is_null, unexpired, mailbox_share_status, status_until, was_over,
}

-- the text of now is before the text of the expiry, if there is one
abbrev pub IsUnexpired : ℕ → Option ℕ → Type 0
IsUnexpired now none = Unit {0}
IsUnexpired now (some t) = IsStoredBefore now t

-- a share that is neither revoked nor left nor expired
pub record IsOpen (now : ℕ) (s : Share) : Type 0 where
  pub kept : s.revoked_at ≡ none
  pub stayed : s.left_at ≡ none
  pub lasting : IsUnexpired now s.expires_at

is_null_iff : (o : Option ℕ) → (is_null o ≡ true) ↔ (o ≡ none)
is_null_iff none = (λ h. refl, λ h. refl)
is_null_iff (some t) = (λ h. absurd (cc), λ h. absurd (cc))

unexpired_iff : (now : ℕ) (o : Option ℕ) → (unexpired now o ≡ true) ↔ IsUnexpired now o
unexpired_iff now none = (λ h. tt, λ h. refl)
unexpired_iff now (some t) = stored_before_iff now t

pub IsOpen-iff :
    (now : ℕ) (s : Share)
    → ((is_null s.revoked_at && (is_null s.left_at && unexpired now s.expires_at)) ≡ true)
      ↔ IsOpen now s
IsOpen-iff now s = (
  λ h.
      let (k, rest) = and_true (is_null s.revoked_at) _ h in
      let (l, u) = and_true (is_null s.left_at) (unexpired now s.expires_at) rest in
      record {
        kept = (is_null_iff s.revoked_at).0 k;
        stayed = (is_null_iff s.left_at).0 l;
        lasting = (unexpired_iff now s.expires_at).0 u;
      },
  λ o.
      rw
        (
          (is_null_iff s.revoked_at).1 o.kept,
          (is_null_iff s.left_at).1 o.stayed,
          (unexpired_iff now s.expires_at).1 o.lasting,
        )
        refl,
)

status_until-over : (t now : ℕ) → not (was_over (status_until (some t) now)) ≡ ltb now t
status_until-over t now = elim (Bool-cases (ltb now t)) [
  | inl later ↦ elim (Bool-cases (ltb (now + 7 * day) t)) [
    | inl far ↦ rw (later, far) refl
    | inr near ↦ rw (later, near) refl
  ]
  | inr over ↦ rw over refl
]

unexpired-over :
    (t : Option ℕ) (now : ℕ)
    → ((u : ℕ) → t ≡ some u → now / nanoseconds ≢ u / nanoseconds)
    → unexpired now t ≡ not (was_over (status_until t now))
unexpired-over none now apart = refl
unexpired-over (some t) now apart =
    stored_before-ltb now t (apart t refl) ∙ sym (status_until-over t now)

-- Outside the second in which it expires, a share gives access exactly when its status is not one of
-- revoked, left and expired, which is what decides between "renewed" and "updated" at its next update.
pub status-unexpired :
    (s : Share) (now : ℕ)
    → ((t : ℕ) → s.expires_at ≡ some t → now / nanoseconds ≢ t / nanoseconds)
    → (is_null s.revoked_at && (is_null s.left_at && unexpired now s.expires_at))
      ≡ not (was_over (mailbox_share_status s now))
unfolding mailbox_share_status
status-unexpired s now apart = elim (Bool-cases (is_null s.revoked_at)) [
  | inl kept ↦ elim (Bool-cases (is_null s.left_at)) [
    | inl stayed ↦ rw (kept, stayed, unexpired-over s.expires_at now apart) refl
    | inr gone ↦ rw (kept, gone) refl
  ]
  | inr revoked ↦ rw revoked refl
]
