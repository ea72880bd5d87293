-- ===== src/Base/Members.antt =====
-- Membership and distinctness by recursion, and lists of byte strings that fill one another.
use Prim.Native.Nat.{suc, ◌≤◌}
use mathlib.Core.List.{List, [], ◌∷◌}
use mathlib.Core.Logic.{◌⊎◌, inl, inr, ◌≢◌}
use mathlib.Core.Path.{◌≡◌, refl, sym, ◌∙◌, ap, subst}
use native.Mathlib.Omega.{arith}
use fota_secure.Base.Lists.{length, All}
use fota_secure.Base.Tests.{
  Bytes, same_bytes, same_bytes_sound, same_bytes_self, if◌then◌else◌, Bool-cases,
}

abbrev pub In : {A : Type 0} → A → List A → Type 0
In a [] = ⊥
In a (x ∷ xs) = (a ≡ x) ⊎ In a xs

abbrev pub Distinct : {A : Type 0} → List A → Type 0
Distinct [] = Unit
Distinct (x ∷ xs) = (¬ In x xs) × Distinct xs

module _ {A : Type 0} (P : A → Type 0) where
  pub All-In : (xs : List A) → ((a : A) → In a xs → P a) → All P xs
  All-In [] h = tt
  All-In (x ∷ xs) h = (h x (inl refl), All-In xs (λ a i. h a (inr i)))

  pub In-All : (a : A) (xs : List A) → All P xs → In a xs → P a
  In-All a [] h i = absurd i
  In-All a (x ∷ xs) (px, h) (inl e) = subst P (sym e) px
  In-All a (x ∷ xs) (px, h) (inr i) = In-All a xs h i

-- The list without the first occurrence of an element.
remove : Bytes → List Bytes → List Bytes
remove x [] = []
remove x (y ∷ ys) = let rest = y ∷ remove x ys in if same_bytes x y then ys else rest

length-remove : (x : Bytes) (ys : List Bytes) → In x ys → suc (length (remove x ys)) ≡ length ys
unfolding remove
length-remove x [] i = absurd i
length-remove x (y ∷ ys) i = elim (Bool-cases (same_bytes x y)) [
  | inl same ↦ rw same
  | inr other ↦ elim i [
    | inl e ↦ cc (same_bytes_self x)
    | inr j ↦ rw other (ap suc (length-remove x ys j))
  ]
]

In-remove : (x z : Bytes) (ys : List Bytes) → z ≢ x → In z ys → In z (remove x ys)
unfolding remove
In-remove x z [] h i = absurd i
In-remove x z (y ∷ ys) h i = elim (Bool-cases (same_bytes x y)) [
  | inl same ↦ elim i [
    | inl e ↦ absurd (h (e ∙ sym (same_bytes_sound x y same)))
    | inr j ↦ rw same j
  ]
  | inr other ↦ elim i [ inl e ↦ rw other (inl e) | inr j ↦ rw other (inr (In-remove x z ys h j)) ]
]

remove-In : (x z : Bytes) (ys : List Bytes) → In z ys → (z ≡ x) ⊎ In z (remove x ys)
unfolding remove
remove-In x z [] i = absurd i
remove-In x z (y ∷ ys) i = elim (Bool-cases (same_bytes x y)) [
  | inl same ↦ elim i [
    | inl e ↦ inl (e ∙ sym (same_bytes_sound x y same))
    | inr j ↦ inr (rw same j)
  ]
  | inr other ↦ elim i [
    | inl e ↦ inr (rw other (inl e))
    | inr j ↦ elim (remove-In x z ys j) [ inl e ↦ inl e | inr k ↦ inr (rw other (inr k)) ]
  ]
]

In-of-remove : (x z : Bytes) (ys : List Bytes) → In z (remove x ys) → In z ys
unfolding remove
In-of-remove x z [] = λ i. i
In-of-remove x z (y ∷ ys) = elim (Bool-cases (same_bytes x y)) [
  | inl same ↦ rw same (λ i. inr i)
  | inr other ↦ rw other (λ (i : (z ≡ y) ⊎ In z (remove x ys)). elim i [
    | inl e ↦ inl e
    | inr j ↦ inr (In-of-remove x z ys j)
  ])
]

remove-Distinct :
    (x : Bytes) (ys : List Bytes) → ¬ In x (remove x ys) → Distinct (remove x ys) → Distinct ys
unfolding remove
remove-Distinct x [] = λ h d. tt
remove-Distinct x (y ∷ ys) = elim (Bool-cases (same_bytes x y)) [
  | inl same ↦ rw (same, same_bytes_sound x y same) (λ h d. (h, d))
  | inr other ↦
      rw other
        (λ (h : ¬ ((x ≡ y) ⊎ In x (remove x ys)))
            (d : (¬ In y (remove x ys)) × Distinct (remove x ys)).
          (
            (λ i. d.0 (In-remove x y ys (λ e. h (inl (sym e))) i)),
            remove-Distinct x ys (λ i. h (inr i)) d.1,
          ))
]

All-remove :
    (x : Bytes) (xs ys : List Bytes)
    → ¬ In x xs
    → All (λ z. In z ys) xs
    → All (λ z. In z (remove x ys)) xs
All-remove x xs ys fresh h =
    All-In (λ z. In z (remove x ys)) xs
      (λ z i.
        In-remove x z ys (λ e. fresh (subst (λ w. In w xs) e i)) (In-All (λ z. In z ys) z xs h i))

-- Distinct elements that all lie in a list which is no longer fill it.
pub fill :
    (xs ys : List Bytes)
    → Distinct xs
    → All (λ x. In x ys) xs
    → length ys ≤ length xs
    → All (λ y. In y xs) ys × Distinct ys
fill [] [] d h l = (tt, tt)
fill [] (y ∷ ys) d h l = absurd (omega arith)
fill (x ∷ xs) ys (fresh, d) (ix, h) l =
    let shorter = length-remove x ys ix in
    let (all, distinct) = fill xs (remove x ys) d (All-remove x xs ys fresh h) (omega arith) in
    (
      All-In (λ y. In y (x ∷ xs)) ys
          (λ y i. elim (remove-In x y ys i) [
            | inl e ↦ inl e
            | inr j ↦ inr (In-All (λ y. In y xs) y (remove x ys) all j)
          ]),
      remove-Distinct x ys (λ i. fresh (In-All (λ y. In y xs) x (remove x ys) all i)) distinct,
    )
