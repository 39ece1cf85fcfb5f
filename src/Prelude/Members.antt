-- ===== src/Prelude/Members.antt =====
-- The rows of a table as members of a list, and keys that no two rows share.
use mathlib.Core.Path.{◌≡◌, refl, sym, ap, ◌∙◌, subst}
use mathlib.Core.Logic.{inl, inr, ◌⊎◌, ◌≢◌}
use mathlib.Core.Bool.{Bool, true}
use mathlib.Core.Option.{some}
use mathlib.Core.List.{List, [], ◌∷◌, ◌++◌, Memᴰ}
use mathlib.Core.List.Memᴰ
use native.Mathlib.Omega.{arith}
use lan_qin_email.Prelude.Tests.{if◌then◌else◌, Bool-cases}
use lan_qin_email.Prelude.Lists.{any, All, All-append}
use lan_qin_email.Prelude.Rows.{select_first, keep_rows, update_rows}

module _ {ℓ} {A : Type ℓ} where
  pub Memᴰ-select_first :
      (p : A → Bool) (xs : List A) (x : A) → select_first p xs ≡ some x → Memᴰ x xs × (p x ≡ true)
  unfolding select_first
  Memᴰ-select_first p [] x e = absurd (cc)
  Memᴰ-select_first p (y ∷ xs) x e = elim (Bool-cases (p y)) [
    | inl met ↦
        let here : some y ≡ some x = rw met at e in
        let same : y ≡ x = cc here in (Memᴰ.head (sym same), rw (← same) met)
    | inr not_met ↦ let (m, h) = Memᴰ-select_first p xs x (rw not_met at e) in (Memᴰ.tail m, h)
  ]

  pub any-Memᴰ : (p : A → Bool) (xs : List A) → any p xs ≡ true → (x : A) × Memᴰ x xs × (p x ≡ true)
  any-Memᴰ p [] h = absurd (cc)
  any-Memᴰ p (y ∷ xs) h = elim (Bool-cases (p y)) [
    | inl met ↦ (y, Memᴰ.head refl, met)
    | inr not_met ↦ let (x, m, hx) = any-Memᴰ p xs (rw not_met at h) in (x, Memᴰ.tail m, hx)
  ]

  pub Memᴰ-any : (p : A → Bool) (xs : List A) (x : A) → Memᴰ x xs → p x ≡ true → any p xs ≡ true
  Memᴰ-any p [] x m h = elim m [ ]
  Memᴰ-any p (y ∷ xs) x (Memᴰ.head e) h = rw (← ap p e, h) refl
  Memᴰ-any p (y ∷ xs) x (Memᴰ.tail m) h = ground (arith, Memᴰ-any p xs x m h)

  -- the only row that meets a condition is found
  pub select_first-only :
      (p : A → Bool) (xs : List A) (x : A)
      → Memᴰ x xs
      → p x ≡ true
      → ((y : A) → Memᴰ y xs → p y ≡ true → y ≡ x)
      → select_first p xs ≡ some x
  unfolding select_first
  select_first-only p [] x m h only = elim m [ ]
  select_first-only p (y ∷ xs) x m h only = elim (Bool-cases (p y)) [
    | inl met ↦ rw met (ap some (only y (Memᴰ.head refl) met))
    | inr not_met ↦ elim (Memᴰ.cases_cons m) [
      | inl e ↦ absurd (let k : p y ≡ true = ap p (sym e) ∙ h in cc)
      | inr rest ↦ rw not_met (select_first-only p xs x rest h (λ z k. only z (Memᴰ.tail k)))
    ]
  ]

  pub Memᴰ-keep_rows :
      (p : A → Bool) (xs : List A) (x : A) → Memᴰ x (keep_rows p xs) → Memᴰ x xs × (p x ≡ true)
  unfolding keep_rows
  Memᴰ-keep_rows p [] x m = elim m [ ]
  Memᴰ-keep_rows p (y ∷ xs) x m = elim (Bool-cases (p y)) [
    | inl met ↦ elim (Memᴰ.cases_cons {a = x} {b = y} {l = keep_rows p xs} (rw met at m)) [
      | inl e ↦ (Memᴰ.head e, ap p e ∙ met)
      | inr k ↦ let (r, h) = Memᴰ-keep_rows p xs x k in (Memᴰ.tail r, h)
    ]
    | inr not_met ↦ let (r, h) = Memᴰ-keep_rows p xs x (rw not_met at m) in (Memᴰ.tail r, h)
  ]

  pub keep_rows-Memᴰ :
      (p : A → Bool) (xs : List A) (x : A) → Memᴰ x xs → p x ≡ true → Memᴰ x (keep_rows p xs)
  unfolding keep_rows
  keep_rows-Memᴰ p [] x m h = elim m [ ]
  keep_rows-Memᴰ p (y ∷ xs) x (Memᴰ.head e) h = rw (← ap p e, h) (Memᴰ.head e)
  keep_rows-Memᴰ p (y ∷ xs) x (Memᴰ.tail m) h = elim (Bool-cases (p y)) [
    | inl met ↦ rw met (Memᴰ.tail (keep_rows-Memᴰ p xs x m h))
    | inr not_met ↦ rw not_met (keep_rows-Memᴰ p xs x m h)
  ]

  -- a row behind an update is a row before it, or an updated one
  pub Memᴰ-update_rows :
      (p : A → Bool) (f : A → A) (xs : List A) (y : A)
      → Memᴰ y (update_rows p f xs)
      → Memᴰ y xs ⊎ ((x : A) × Memᴰ x xs × (p x ≡ true) × (y ≡ f x))
  unfolding update_rows
  Memᴰ-update_rows p f [] y m = elim m [ ]
  Memᴰ-update_rows p f (x ∷ xs) y m =
      elim (Memᴰ.cases_cons {a = y} {b = if p x then f x else x} {l = update_rows p f xs} m) [
        | inl e ↦ elim (Bool-cases (p x)) [
          | inl met ↦ inr (x, Memᴰ.head refl, met, e ∙ rw met refl)
          | inr not_met ↦ inl (Memᴰ.head (e ∙ rw not_met refl))
        ]
        | inr k ↦ elim (Memᴰ-update_rows p f xs y k) [
          | inl old ↦ inl (Memᴰ.tail old)
          | inr (z, n, met, e) ↦ inr (z, Memᴰ.tail n, met, e)
        ]
      ]

-- no two rows share a key
abbrev pub IsKey {ℓ κ} : {A : Type ℓ} {K : Type κ} → (A → K) → List A → Type (ℓ ⊔ κ)
IsKey k [] = Unit
IsKey k (x ∷ xs) = All (λ y. k y ≢ k x) xs × IsKey k xs

module _ {ℓ κ} {A : Type ℓ} where
  pub All-Memᴰ : (P : A → Type κ) (xs : List A) (x : A) → All P xs → Memᴰ x xs → P x
  All-Memᴰ P [] x h m = elim m [ ]
  All-Memᴰ P (y ∷ xs) x (h, hs) (Memᴰ.head e) = subst P (sym e) h
  All-Memᴰ P (y ∷ xs) x (h, hs) (Memᴰ.tail m) = All-Memᴰ P xs x hs m

module _ {ℓ κ} {A : Type ℓ} {K : Type κ} where
  -- rows with the same key are the same
  pub IsKey-eq :
      (k : A → K) (xs : List A) (x y : A) → IsKey k xs → Memᴰ x xs → Memᴰ y xs → k x ≡ k y → x ≡ y
  IsKey-eq k [] x y h m n same = elim m [ ]
  IsKey-eq k (z ∷ xs) x y (h, hs) (Memᴰ.head e) (Memᴰ.head f) same = e ∙ sym f
  IsKey-eq k (z ∷ xs) x y (h, hs) (Memᴰ.head e) (Memᴰ.tail n) same =
      absurd (All-Memᴰ (λ w. k w ≢ k z) xs y h n (sym same ∙ ap k e))
  IsKey-eq k (z ∷ xs) x y (h, hs) (Memᴰ.tail m) (Memᴰ.head f) same =
      absurd (All-Memᴰ (λ w. k w ≢ k z) xs x h m (same ∙ ap k f))
  IsKey-eq k (z ∷ xs) x y (h, hs) (Memᴰ.tail m) (Memᴰ.tail n) same = IsKey-eq k xs x y hs m n same

module _ {ℓ κ} {A : Type ℓ} where
  pub All-of_Memᴰ : (P : A → Type κ) (xs : List A) → ((x : A) → Memᴰ x xs → P x) → All P xs
  All-of_Memᴰ P [] h = tt
  All-of_Memᴰ P (x ∷ xs) h = (h x (Memᴰ.head refl), All-of_Memᴰ P xs (λ y m. h y (Memᴰ.tail m)))

module _ {ℓ κ} {A : Type ℓ} {K : Type κ} (k : A → K) where
  other-update_rows :
      (p : A → Bool) (f : A → A)
      → ((x : A) → k (f x) ≡ k x)
      → (key : K) (xs : List A) → All (λ y. k y ≢ key) xs
      → All (λ y. k y ≢ key) (update_rows p f xs)
  unfolding update_rows
  other-update_rows p f keeps key [] h = tt
  other-update_rows p f keeps key (x ∷ xs) (h, hs) = elim (Bool-cases (p x)) [
    | inl met ↦ rw met (λ e. h (sym (keeps x) ∙ e), other-update_rows p f keeps key xs hs)
    | inr not_met ↦ rw not_met (h, other-update_rows p f keeps key xs hs)
  ]

  -- an update that keeps the keys keeps them apart
  pub IsKey-update_rows :
      (p : A → Bool) (f : A → A)
      → ((x : A) → k (f x) ≡ k x)
      → (xs : List A) → IsKey k xs
      → IsKey k (update_rows p f xs)
  unfolding update_rows
  IsKey-update_rows p f keeps [] h = tt
  IsKey-update_rows p f keeps (x ∷ xs) (h, hs) = elim (Bool-cases (p x)) [
    | inl met ↦
        let apart = other-update_rows p f keeps (k (f x)) xs (rw (keeps x) h) in
        rw met (apart, IsKey-update_rows p f keeps xs hs)
    | inr not_met ↦
        rw not_met (other-update_rows p f keeps (k x) xs h, IsKey-update_rows p f keeps xs hs)
  ]

  pub IsKey-add :
      (xs : List A) (y : A) → IsKey k xs → All (λ x. k x ≢ k y) xs → IsKey k (xs ++ y ∷ [])
  IsKey-add [] y h n = (tt, tt)
  IsKey-add (x ∷ xs) y (h, hs) (n, ns) =
      (All-append (λ z. k z ≢ k x) xs (y ∷ []) h (λ e. n (sym e), tt), IsKey-add xs y hs ns)
