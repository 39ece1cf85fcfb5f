-- ===== src/Permissions/Order.antt =====
-- Limits in the order in which 0, unlimited, is the greatest value.
use lan_qin_email.Prelude.{
  ℕ, ◌≡◌, refl, sym, ◌∙◌, Bool, true, false, ◌&&◌, Option, none, some, List, [], ◌∷◌, length, arith,
  Bool-cases, inl, inr,
}
use lan_qin_email.Permissions.{
  PermissionLimits, minimal_limits, merge_limit_value, merge_permission_limits,
  can_grant_limit_value, can_grant_all, actor_can_grant_limits, User, is_admin,
}

merge_value_lub :
    (a x y : ℕ)
    → can_grant_limit_value a (merge_limit_value x y)
      ≡ (can_grant_limit_value a x && can_grant_limit_value a y)
unfolding can_grant_limit_value merge_limit_value
merge_value_lub a x y = ground arith

grant_value_trans :
    (a b c : ℕ)
    → can_grant_limit_value a b ≡ true
    → can_grant_limit_value b c ≡ true
    → can_grant_limit_value a c ≡ true
unfolding can_grant_limit_value
grant_value_trans a b c h k = ground arith

grant_value_antisymm :
    (a b : ℕ) → can_grant_limit_value a b ≡ true → can_grant_limit_value b a ≡ true → a ≡ b
unfolding can_grant_limit_value
grant_value_antisymm a b h k = ground arith

-- the seven limits as a list, on which the comparison and the merge are recursions
fields : PermissionLimits → List ℕ
fields l =
    l.max_attachment_mb ∷ l.smtp_daily_limit ∷ l.smtp_minute_limit ∷ l.imap_minute_limit
    ∷ l.pop3_minute_limit ∷ l.max_mailboxes ∷ l.max_mailboxes_per_day ∷ []

grant_list : List ℕ → List ℕ → Bool
grant_list (a ∷ bounds) (x ∷ xs) = can_grant_limit_value a x && grant_list bounds xs
grant_list _ _ = true

merge_list : List ℕ → List ℕ → List ℕ
merge_list (x ∷ xs) (y ∷ ys) = merge_limit_value x y ∷ merge_list xs ys
merge_list _ _ = []

and_true_right : (b : Bool) → (b && true) ≡ b
and_true_right true = refl
and_true_right false = refl

can_grant_all-grant_list :
    (a l : PermissionLimits) → can_grant_all a l ≡ grant_list (fields a) (fields l)
unfolding can_grant_all grant_list fields
can_grant_all-grant_list a l = simp and_true_right

grant_list-merge_list :
    (bounds xs ys : List ℕ)
    → length bounds ≡ length xs
    → length xs ≡ length ys
    → grant_list bounds (merge_list xs ys) ≡ (grant_list bounds xs && grant_list bounds ys)
unfolding grant_list merge_list
grant_list-merge_list [] xs ys h k = refl
grant_list-merge_list (a ∷ bounds) [] ys h k = absurd (omega arith)
grant_list-merge_list (a ∷ bounds) (x ∷ xs) [] h k = absurd (omega arith)
grant_list-merge_list (a ∷ bounds) (x ∷ xs) (y ∷ ys) h k =
    ground
      (arith, merge_value_lub a x y, grant_list-merge_list bounds xs ys (omega arith) (omega arith))

grant_list_trans :
    (bounds bs cs : List ℕ)
    → length bounds ≡ length bs
    → grant_list bounds bs ≡ true
    → grant_list bs cs ≡ true
    → grant_list bounds cs ≡ true
unfolding grant_list
grant_list_trans [] bs cs e h k = refl
grant_list_trans (a ∷ bounds) bs [] e h k = refl
grant_list_trans (a ∷ bounds) [] (c ∷ cs) e h k = absurd (omega arith)
grant_list_trans (a ∷ bounds) (b ∷ bs) (c ∷ cs) e h k =
    ground (arith, grant_value_trans a b c, grant_list_trans bounds bs cs (omega arith))

merge_lub :
    (a x y : PermissionLimits)
    → can_grant_all a (merge_permission_limits x y) ≡ (can_grant_all a x && can_grant_all a y)
merge_lub a x y =
    rw
      (
        can_grant_all-grant_list a (merge_permission_limits x y),
        can_grant_all-grant_list a x,
        can_grant_all-grant_list a y,
      )
      (unfold fields merge_permission_limits merge_list in
        grant_list-merge_list (fields a) (fields x) (fields y) refl refl)

-- equal limits, field by field
PermissionLimits_ext :
    (x y : PermissionLimits)
    → x.max_attachment_mb ≡ y.max_attachment_mb
    → x.smtp_daily_limit ≡ y.smtp_daily_limit
    → x.smtp_minute_limit ≡ y.smtp_minute_limit
    → x.imap_minute_limit ≡ y.imap_minute_limit
    → x.pop3_minute_limit ≡ y.pop3_minute_limit
    → x.max_mailboxes ≡ y.max_mailboxes
    → x.max_mailboxes_per_day ≡ y.max_mailboxes_per_day
    → x ≡ y
PermissionLimits_ext x y a b c d e f g = λ i. record {
  max_attachment_mb = a i;
  smtp_daily_limit = b i;
  smtp_minute_limit = c i;
  imap_minute_limit = d i;
  pop3_minute_limit = e i;
  max_mailboxes = f i;
  max_mailboxes_per_day = g i;
}

merge_value_one : (x : ℕ) → merge_limit_value 1 x ≡ x
unfolding merge_limit_value
merge_value_one x = ground arith

merge_value_comm : (x y : ℕ) → merge_limit_value x y ≡ merge_limit_value y x
unfolding merge_limit_value
merge_value_comm x y = ground arith

merge_value_assoc :
    (x y z : ℕ)
    → merge_limit_value (merge_limit_value x y) z ≡ merge_limit_value x (merge_limit_value y z)
unfolding merge_limit_value
merge_value_assoc x y z = ground arith

-- Merging is commutative and associative, and merging with the minimal limits changes nothing, so
-- the limits of a set of groups depend neither on their order nor on the limits to start from.
pub merge_laws :
    (x y z : PermissionLimits)
    → (merge_permission_limits x y ≡ merge_permission_limits y x)
      × (merge_permission_limits (merge_permission_limits x y) z
          ≡ merge_permission_limits x (merge_permission_limits y z))
      × (merge_permission_limits minimal_limits x ≡ x)
unfolding merge_permission_limits minimal_limits
merge_laws x y z = (
  PermissionLimits_ext _ _ (merge_value_comm _ _) (merge_value_comm _ _) (merge_value_comm _ _)
      (merge_value_comm _ _) (merge_value_comm _ _) (merge_value_comm _ _) (merge_value_comm _ _),
  PermissionLimits_ext _ _ (merge_value_assoc _ _ _) (merge_value_assoc _ _ _)
      (merge_value_assoc _ _ _) (merge_value_assoc _ _ _) (merge_value_assoc _ _ _)
      (merge_value_assoc _ _ _) (merge_value_assoc _ _ _),
  PermissionLimits_ext _ _ (merge_value_one _) (merge_value_one _) (merge_value_one _)
      (merge_value_one _) (merge_value_one _) (merge_value_one _) (merge_value_one _),
)

-- The comparison of limits is transitive: what somebody may grant under limits that were granted to
-- him by a third, the third may grant as well.
pub can_grant_all_trans :
    (a b c : PermissionLimits)
    → can_grant_all a b ≡ true
    → can_grant_all b c ≡ true
    → can_grant_all a c ≡ true
can_grant_all_trans a b c h k =
    can_grant_all-grant_list a c
    ∙ unfold fields in
      grant_list_trans (fields a) (fields b) (fields c) refl
        (sym (can_grant_all-grant_list a b) ∙ h) (sym (can_grant_all-grant_list b c) ∙ k)

-- Whoever is asked to grant the merge of two limits can do so exactly when he can grant each.
pub actor_can_grant-merge :
    (actor : Option User) (x y : PermissionLimits)
    → actor_can_grant_limits actor (merge_permission_limits x y)
      ≡ (actor_can_grant_limits actor x && actor_can_grant_limits actor y)
unfolding actor_can_grant_limits
actor_can_grant-merge none x y = refl
actor_can_grant-merge (some u) x y = elim (Bool-cases (is_admin u)) [
  | inl admin ↦ rw admin
  | inr plain ↦ rw plain (merge_lub u.limits x y)
]
