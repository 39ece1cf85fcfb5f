-- ===== src/Address/Distinct.antt =====
-- The lists without repetition that `dedupeEmails`, `uniqueNonEmpty` and `cleanIDList` build.
use lan_qin_email.Prelude.{
  ◌≡◌, refl, ap, Bool, true, false, ◌&&◌, ◌||◌, not, List, [], ◌∷◌, ◌++◌, arith, if◌then◌else◌, any,
  Bool-cases, inl, inr,
}
use lan_qin_email.Prelude.Text.{Text, text_eq, text_eq_iff, has, trim_space, is_empty}
use lan_qin_email.Std.{Std}
use lan_qin_email.Address.{
  normalize_email, valid_recipient_address, dedupe_loop, dedupe_emails, unique_loop,
  unique_non_empty,
}

-- no text occurs twice
abbrev pub IsDistinct : List Text → Type 0
IsDistinct [] = Unit
IsDistinct (x ∷ xs) = (has x xs ≡ false) × IsDistinct xs

pub has-append : (v : Text) (xs ys : List Text) → has v (xs ++ ys) ≡ (has v xs || has v ys)
unfolding has
has-append v [] ys = refl
has-append v (x ∷ xs) ys = ground (arith, has-append v xs ys)

has_one : (v w : Text) → has v (w ∷ []) ≡ text_eq w v
unfolding has
has_one v w = ground arith

text_eq_comm : (v w : Text) → text_eq v w ≡ text_eq w v
text_eq_comm v w = ground (arith, text_eq_iff v w, text_eq_iff w v)

IsDistinct-append :
    (v : Text) (xs : List Text) → has v xs ≡ false → IsDistinct xs → IsDistinct (xs ++ v ∷ [])
unfolding has
IsDistinct-append v [] h d = (refl, tt)
IsDistinct-append v (x ∷ xs) h d = (
  ground (arith, has-append x xs (v ∷ []), has_one x v, text_eq_comm x v),
  IsDistinct-append v xs (ground arith) d.1,
)

-- the step that the loops share
abbrev push : Bool → Text → List Text → List Text
push ok v out = if ok && not (has v out) then out ++ v ∷ [] else out

push-IsDistinct :
    (ok : Bool) (v : Text) (out : List Text) → IsDistinct out → IsDistinct (push ok v out)
push-IsDistinct false v out d = d
push-IsDistinct true v out d = elim (Bool-cases (has v out)) [
  | inl old ↦ rw old d
  | inr new ↦ rw new (IsDistinct-append v out new d)
]

has-push :
    (ok : Bool) (v w : Text) (out : List Text)
    → has w (push ok v out) ≡ (has w out || (ok && text_eq v w))
has-push ok v w out = ground (arith, has-append w out (v ∷ []), has_one w v, text_eq_iff v w)

pub unique_loop-IsDistinct : (vs out : List Text) → IsDistinct out → IsDistinct (unique_loop vs out)
unfolding unique_loop
unique_loop-IsDistinct [] out d = d
unique_loop-IsDistinct (v ∷ vs) out d =
    unique_loop-IsDistinct vs _
      (push-IsDistinct (not (is_empty (trim_space v))) (trim_space v) out d)

has-unique_loop :
    (w : Text) (vs out : List Text)
    → has w (unique_loop vs out)
      ≡ (has w out || any (λ v. not (is_empty (trim_space v)) && text_eq (trim_space v) w) vs)
unfolding unique_loop
has-unique_loop w [] out = ground arith
has-unique_loop w (v ∷ vs) out = ground (
  arith,
  has-unique_loop w vs (push (not (is_empty (trim_space v))) (trim_space v) out),
  has-push (not (is_empty (trim_space v))) (trim_space v) w out,
)

-- The cleaned list of ids holds no text twice, and it holds a text exactly when that text is the
-- non-empty trimmed form of some given id.
pub unique_non_empty_exact :
    (vs : List Text)
    → IsDistinct (unique_non_empty vs)
      × ((w : Text)
          → has w (unique_non_empty vs)
            ≡ any (λ v. not (is_empty (trim_space v)) && text_eq (trim_space v) w) vs)
unfolding unique_non_empty
unique_non_empty_exact vs = (unique_loop-IsDistinct vs [] tt, λ w. has-unique_loop w vs [])

push_order :
    (ok seen : Bool) (out new : List Text)
    → (if not ok || seen then out else new) ≡ (if ok && not seen then new else out)
push_order ok seen out new = ground arith

module _ (std : Std) where
  dedupe_loop_step :
      (i : Text) (items out : List Text)
      → dedupe_loop std (i ∷ items) out
        ≡ dedupe_loop std items
            (push (valid_recipient_address std (normalize_email std i)) (normalize_email std i) out)
  unfolding dedupe_loop
  dedupe_loop_step i items out =
      let e = normalize_email std i in
      ap (dedupe_loop std items)
        (push_order (valid_recipient_address std e) (has e out) out (out ++ e ∷ []))

  dedupe_loop-IsDistinct :
      (items out : List Text) → IsDistinct out → IsDistinct (dedupe_loop std items out)
  dedupe_loop-IsDistinct [] out d = unfold dedupe_loop in d
  dedupe_loop-IsDistinct (i ∷ items) out d =
      let e = normalize_email std i in
      rw (dedupe_loop_step i items out)
        (dedupe_loop-IsDistinct items _ (push-IsDistinct (valid_recipient_address std e) e out d))

  has-dedupe_loop :
      (w : Text) (items out : List Text)
      → has w (dedupe_loop std items out) ≡ (
          has w out
          || any
              (λ i.
                valid_recipient_address std (normalize_email std i)
                && text_eq (normalize_email std i) w)
              items)
  has-dedupe_loop w [] out = unfold dedupe_loop in ground arith
  has-dedupe_loop w (i ∷ items) out =
      let e = normalize_email std i in
      let ok = valid_recipient_address std e in
      ground (
        arith,
        dedupe_loop_step i items out,
        has-dedupe_loop w items (push ok e out),
        has-push ok e w out,
      )

  -- The recipients that are kept hold no address twice, and an address is kept exactly when it is
  -- the valid normalised form of some given recipient.
  pub dedupe_emails_exact :
      (items : List Text)
      → IsDistinct (dedupe_emails std items)
        × ((w : Text)
            → has w (dedupe_emails std items)
              ≡ any
                  (λ i.
                    valid_recipient_address std (normalize_email std i)
                    && text_eq (normalize_email std i) w)
                  items)
  unfolding dedupe_emails
  dedupe_emails_exact items = (dedupe_loop-IsDistinct items [] tt, λ w. has-dedupe_loop w items [])
