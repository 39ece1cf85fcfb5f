-- ===== src/Prelude/Rows.antt =====
-- Tables as lists of rows under `SELECT`, `UPDATE` and `DELETE`.
use mathlib.Core.Path.{◌≡◌, refl}
use mathlib.Core.Logic.{inl, inr}
use mathlib.Core.Bool.{Bool, true, false}
use mathlib.Core.Option.{Option, none, some}
use mathlib.Core.List.{List, [], ◌∷◌}
use lan_qin_email.Prelude.Tests.{if◌then◌else◌, Bool-cases}
use lan_qin_email.Prelude.Lists.{any, All}

module _ {ℓ} {A : Type ℓ} where
  -- the first row that meets a condition
  unfoldable pub select_first : (A → Bool) → List A → Option A
  select_first p [] = none
  select_first p (x ∷ xs) = let rest = select_first p xs in if p x then some x else rest

  unfoldable pub update_rows : (A → Bool) → (A → A) → List A → List A
  update_rows p f [] = []
  update_rows p f (x ∷ xs) = (if p x then f x else x) ∷ update_rows p f xs

  unfoldable pub keep_rows : (A → Bool) → List A → List A
  keep_rows p [] = []
  keep_rows p (x ∷ xs) = let rest = keep_rows p xs in if p x then x ∷ rest else rest

  -- what is known of every row is known of the row that is found, which meets the condition
  pub select_first-All {κ} :
      (P : A → Type κ) (p : A → Bool) (xs : List A) (x : A)
      → All P xs
      → select_first p xs ≡ some x
      → P x × (p x ≡ true)
  unfolding select_first
  select_first-All P p [] x h e = absurd (cc)
  select_first-All P p (y ∷ xs) x (hy, hs) e = elim (Bool-cases (p y)) [
    | inl met ↦
        let here : some y ≡ some x = rw met at e in
        let same : y ≡ x = cc here in rw (← same) (hy, met)
    | inr not_met ↦ select_first-All P p xs x hs (rw not_met at e)
  ]

  pub select_first-none : (p : A → Bool) (xs : List A) → any p xs ≡ false → select_first p xs ≡ none
  unfolding select_first
  select_first-none p [] h = refl
  select_first-none p (x ∷ xs) h = elim (Bool-cases (p x)) [
    | inl met ↦ absurd (let k : ◌≡◌ {A = Bool} true false = rw met at h in cc)
    | inr not_met ↦ rw not_met (select_first-none p xs (rw not_met at h))
  ]

  -- a condition that an update does not change is met as often
  pub any-update_rows :
      (q p : A → Bool) (f : A → A)
      → ((x : A) → q (f x) ≡ q x)
      → (xs : List A) → any q (update_rows p f xs) ≡ any q xs
  unfolding update_rows
  any-update_rows q p f keeps [] = refl
  any-update_rows q p f keeps (x ∷ xs) = elim (Bool-cases (p x)) [
    | inl met ↦ rw (met, keeps x, any-update_rows q p f keeps xs) refl
    | inr not_met ↦ rw (not_met, any-update_rows q p f keeps xs) refl
  ]

  pub All-update_rows {κ} :
      (P : A → Type κ) (p : A → Bool) (f : A → A) (xs : List A)
      → All (λ x. (p x ≡ false → P x) × (p x ≡ true → P (f x))) xs
      → All P (update_rows p f xs)
  unfolding update_rows
  All-update_rows P p f [] h = tt
  All-update_rows P p f (x ∷ xs) ((hx, hf), hs) = elim (Bool-cases (p x)) [
    | inl met ↦ rw met (hf met, All-update_rows P p f xs hs)
    | inr not_met ↦ rw not_met (hx not_met, All-update_rows P p f xs hs)
  ]

  pub All-map {κ κ'} :
      (P : A → Type κ) (Q : A → Type κ') (f : (x : A) → P x → Q x) (xs : List A)
      → All P xs
      → All Q xs
  All-map P Q f [] h = tt
  All-map P Q f (x ∷ xs) (hx, hs) = (f x hx, All-map P Q f xs hs)
