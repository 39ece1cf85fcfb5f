-- ===== src/Address/Fixed.antt =====
-- `cleanIDList` on a list that it has cleaned before.
use lan_qin_email.Prelude.{
  ◌≡◌, refl, sym, ◌∙◌, false, ◌&&◌, ◌||◌, not, List, [], ◌∷◌, ◌++◌, arith, All, All-append,
  if_keeps, append_assoc, append-nil,
}
use lan_qin_email.Prelude.Text.{Text, text_eq, text_eq_iff, has, trim_space, is_empty}
use lan_qin_email.Prelude.Trim.{trim_space_fixed}
use lan_qin_email.Address.{unique_loop, unique_non_empty}
use lan_qin_email.Address.Distinct.{IsDistinct, unique_loop-IsDistinct, has-append}

-- a text that the loop takes as it is
abbrev Clean : Text → Type 0
Clean v = (trim_space v ≡ v) × (is_empty v ≡ false)

unique_loop-Clean : (vs out : List Text) → All Clean out → All Clean (unique_loop vs out)
unfolding unique_loop
unique_loop-Clean [] out h = h
unique_loop-Clean (v ∷ vs) out h =
    let value = trim_space v in
    unique_loop-Clean vs _ (
      if_keeps (All Clean) (not (is_empty value) && not (has value out)) {x = out ++ value ∷ []}
        {y = out}
        (λ ok. All-append Clean out (value ∷ []) h ((trim_space_fixed v, ground arith), tt))
        (λ _. h))

-- no text of the first list is in the second
abbrev Apart : List Text → List Text → Type 0
Apart vs out = All (λ v. has v out ≡ false) vs

has-nil : (v : Text) → has v [] ≡ false
unfolding has
has-nil v = refl

has-cons : (v w : Text) (vs : List Text) → has v (w ∷ vs) ≡ (text_eq w v || has v vs)
unfolding has
has-cons v w vs = refl

Apart-append :
    (v : Text) (vs out : List Text) → has v vs ≡ false → Apart vs out → Apart vs (out ++ v ∷ [])
Apart-append v [] out h d = tt
Apart-append v (w ∷ vs) out h (new, d) = (
  ground (
    arith,
    has-append w out (v ∷ []),
    has-cons w v [],
    has-nil w,
    has-cons v w vs,
    text_eq_iff v w,
    text_eq_iff w v,
  ),
  Apart-append v vs out (ground (arith, has-cons v w vs)) d,
)

unique_loop_fixed :
    (vs out : List Text)
    → All Clean vs
    → IsDistinct vs
    → Apart vs out
    → unique_loop vs out ≡ out ++ vs
unfolding unique_loop
unique_loop_fixed [] out _ _ _ = sym (append-nil out)
unique_loop_fixed (v ∷ vs) out ((trimmed, full), clean) (new, distinct) (fresh, apart) =
    rw (trimmed, full, fresh)
      (unique_loop_fixed vs (out ++ v ∷ []) clean distinct (Apart-append v vs out new apart)
        ∙ append_assoc out (v ∷ []) vs)

-- Cleaning a list of ids twice gives what cleaning it once gives.
pub unique_non_empty_fixed :
    (vs : List Text) → unique_non_empty (unique_non_empty vs) ≡ unique_non_empty vs
unfolding unique_non_empty
unique_non_empty_fixed vs =
    unique_loop_fixed (unique_loop vs []) [] (unique_loop-Clean vs [] tt)
      (unique_loop-IsDistinct vs [] tt) (all_apart (unique_loop vs []))
  where
    all_apart : (ws : List Text) → Apart ws []
    all_apart [] = tt
    all_apart (w ∷ ws) = (has-nil w, all_apart ws)
