-- ===== src/Version/Compare.antt =====
-- consumer/src/version.c: `fota_version_compare` against the order of the parts.
use fota_secure.Base.{
  ℕ, ◌<◌, ◌≡◌, ◌↔◌, ◌⊎◌, inl, inr, refl, ap, List, [], ◌∷◌, ◌++◌, arith, ltb, length, ℤ, pos,
  negsuc, Bool-cases,
}
use fota_secure.Version.{Version, compare_parts, version_compare}

-- At the first part that differs, the left list has the smaller number.
pub record IsOlder (a b : List ℕ) : Type 0 where
  pub prefix : List ℕ
  pub left : ℕ
  pub right : ℕ
  pub left_rest : List ℕ
  pub right_rest : List ℕ
  pub left_parts : a ≡ prefix ++ left ∷ left_rest
  pub right_parts : b ≡ prefix ++ right ∷ right_rest
  pub smaller : left < right

IsOlder-cons : (x : ℕ) (a b : List ℕ) → IsOlder a b → IsOlder (x ∷ a) (x ∷ b)
IsOlder-cons x a b o = record {
  prefix = x ∷ o.prefix;
  left = o.left;
  right = o.right;
  left_rest = o.left_rest;
  right_rest = o.right_rest;
  left_parts = ap (λ l. x ∷ l) o.left_parts;
  right_parts = ap (λ l. x ∷ l) o.right_parts;
  smaller = o.smaller;
}

IsOlder-head : (x y : ℕ) (a b : List ℕ) → x < y → IsOlder (x ∷ a) (y ∷ b)
IsOlder-head x y a b h = record {
  prefix = [];
  left = x;
  right = y;
  left_rest = a;
  right_rest = b;
  left_parts = refl;
  right_parts = refl;
  smaller = h;
}

-- The outcome of a comparison, and what it says.
data Outcome (a b : List ℕ) : ℤ → Type 0 where
  older : IsOlder a b → Outcome a b (negsuc 0)
  newer : IsOlder b a → Outcome a b (pos 1)
  same : a ≡ b → Outcome a b (pos 0)

Outcome-cons : (x : ℕ) (a b : List ℕ) {z : ℤ} → Outcome a b z → Outcome (x ∷ a) (x ∷ b) z
Outcome-cons x a b (older o) = older (IsOlder-cons x a b o)
Outcome-cons x a b (newer o) = newer (IsOlder-cons x b a o)
Outcome-cons x a b (same e) = same (ap (λ l. x ∷ l) e)

compare_parts-Outcome : (a b : List ℕ) → length a ≡ length b → Outcome a b (compare_parts a b)
unfolding compare_parts
compare_parts-Outcome [] [] h = same refl
compare_parts-Outcome [] (y ∷ b) h = absurd (omega arith)
compare_parts-Outcome (x ∷ a) [] h = absurd (omega arith)
compare_parts-Outcome (x ∷ a) (y ∷ b) h = elim (Bool-cases (ltb x y)) [
  | inl lt ↦ rw lt (older (IsOlder-head x y a b (ground arith)))
  | inr not_lt ↦ elim (Bool-cases (ltb y x)) [
    | inl gt ↦ rw (not_lt, gt) (newer (IsOlder-head y x b a (ground arith)))
    | inr not_gt ↦
        let e : x ≡ y = ground arith in
        rw (not_lt, not_gt, e) (Outcome-cons y a b (compare_parts-Outcome a b (omega arith)))
  ]
]

-- The comparison finds the first difference.
compare_parts-prefix : (p a b : List ℕ) → compare_parts (p ++ a) (p ++ b) ≡ compare_parts a b
unfolding compare_parts
compare_parts-prefix [] a b = refl
compare_parts-prefix (x ∷ p) a b = ground (arith, compare_parts-prefix p a b)

compare_parts-IsOlder : (a b : List ℕ) → IsOlder a b → compare_parts a b ≡ negsuc 0
compare_parts-IsOlder a b o =
    let lt = o.smaller in
    rw (o.left_parts, o.right_parts, compare_parts-prefix) (unfold compare_parts in ground arith)

compare_parts-IsOlder_flip : (a b : List ℕ) → IsOlder b a → compare_parts a b ≡ pos 1
compare_parts-IsOlder_flip a b o =
    let lt = o.smaller in
    rw (o.left_parts, o.right_parts, compare_parts-prefix) (unfold compare_parts in ground arith)

compare_parts_self : (a : List ℕ) → compare_parts a a ≡ pos 0
unfolding compare_parts
compare_parts_self [] = refl
compare_parts_self (x ∷ a) = ground (arith, compare_parts_self a)

Outcome-cases :
    (a b : List ℕ) {z : ℤ}
    → Outcome a b z
    → ((z ≡ negsuc 0) → IsOlder a b) × ((z ≡ pos 1) → IsOlder b a) × ((z ≡ pos 0) → a ≡ b)
Outcome-cases a b (older o) = (λ e. o, λ e. cc, λ e. cc)
Outcome-cases a b (newer o) = (λ e. cc, λ e. o, λ e. cc)
Outcome-cases a b (same p) = (λ e. cc, λ e. cc, λ e. p)

-- For versions of as many parts, -1, 1 and 0 are returned exactly if the first part that differs
-- is smaller on the left, is smaller on the right, or does not exist.
pub version_compare_iff :
    (a b : Version)
    → length a.parts ≡ length b.parts
    → ((version_compare a b ≡ negsuc 0) ↔ IsOlder a.parts b.parts)
      × ((version_compare a b ≡ pos 1) ↔ IsOlder b.parts a.parts)
      × ((version_compare a b ≡ pos 0) ↔ (a.parts ≡ b.parts))
unfolding version_compare
version_compare_iff a b h =
    let (lt, gt, eq) = Outcome-cases a.parts b.parts (compare_parts-Outcome a.parts b.parts h) in
    (
      (lt, compare_parts-IsOlder a.parts b.parts),
      (gt, compare_parts-IsOlder_flip a.parts b.parts),
      (eq, λ e. rw e (compare_parts_self b.parts)),
    )

outcomes : (a b : List ℕ) {z : ℤ} → Outcome a b z → (z ≡ negsuc 0) ⊎ (z ≡ pos 1) ⊎ (z ≡ pos 0)
outcomes a b (older o) = inl refl
outcomes a b (newer o) = inr (inl refl)
outcomes a b (same p) = inr (inr refl)

compare_parts_trans :
    (a b c : List ℕ)
    → compare_parts a b ≡ negsuc 0
    → compare_parts b c ≡ negsuc 0
    → compare_parts a c ≡ negsuc 0
unfolding compare_parts
compare_parts_trans [] b c p q = absurd (ground arith)
compare_parts_trans (x ∷ a) [] c p q = absurd (ground arith)
compare_parts_trans (x ∷ a) (y ∷ b) [] p q = absurd (ground arith)
compare_parts_trans (x ∷ a) (y ∷ b) (z ∷ c) p q = ground (arith, compare_parts_trans a b c)

-- A version older than an older one is older.
pub version_compare_trans :
    (a b c : Version)
    → version_compare a b ≡ negsuc 0
    → version_compare b c ≡ negsuc 0
    → version_compare a c ≡ negsuc 0
unfolding version_compare
version_compare_trans a b c = compare_parts_trans a.parts b.parts c.parts

-- The comparison has no other result.
pub version_compare_cases :
    (a b : Version)
    → length a.parts ≡ length b.parts
    → (version_compare a b ≡ negsuc 0)
      ⊎ (version_compare a b ≡ pos 1)
      ⊎ (version_compare a b ≡ pos 0)
unfolding version_compare
version_compare_cases a b h = outcomes a.parts b.parts (compare_parts-Outcome a.parts b.parts h)
