-- ===== src/Tar/Octal.antt =====
-- consumer/src/installer.c: `parse_octal_field` against octal numbers.
use mathlib.Core.List.{foldl}
use native.Mathlib.Nat.{le_trans, pow-suc, pow-le-pow_right, mul-le-mul_right}
use fota_secure.Base.{
  ℕ, zero, suc, ◌+◌, ◌-◌, ◌*◌, ◌^◌, ◌≤◌, ◌<◌, ◌≡◌, ◌≢◌, ◌↔◌, ◌⊎◌, inl, inr, refl, ap, sym, ◌∙◌,
  subst, true, false, [], ◌∷◌, ◌++◌, some, arith, Bytes, ◌==◌, ◌||◌, length, length-append, All,
  Bool-cases,
}
use fota_secure.Tar.{octal_loop, parse_octal_field}

abbrev pub IsPad : ℕ → Type 0
IsPad c = (c ≡ 0) ⊎ (c ≡ b' ')

abbrev pub IsOctalDigit : ℕ → Type 0
IsOctalDigit c = (b'0' ≤ c) × (c ≤ b'7')

-- The number that octal digits spell behind `n`.
abbrev pub octal_value : ℕ → Bytes → ℕ
octal_value = foldl (λ n c. n * 8 + (c - b'0'))

-- Nothing, or a byte of padding and anything.
abbrev pub IsEnd : Bytes → Type 0
IsEnd [] = Unit
IsEnd (c ∷ s) = IsPad c

-- The digits up to the end of the number.
pub record Digits (from : ℕ) (s : Bytes) (n : ℕ) : Type 0 where
  pub digits : Bytes
  pub rest : Bytes
  pub split : s ≡ digits ++ rest
  pub octal : All IsOctalDigit digits
  pub ended : IsEnd rest
  pub spelled : octal_value from digits ≡ n

Digits-cons :
    (v c : ℕ) (s : Bytes) (n : ℕ)
    → IsOctalDigit c
    → Digits (v * 8 + (c - b'0')) s n
    → Digits v (c ∷ s) n
Digits-cons v c s n h d = record {
  digits = c ∷ d.digits;
  rest = d.rest;
  split = ap (λ t. c ∷ t) d.split;
  octal = (h, d.octal);
  ended = d.ended;
  spelled = d.spelled;
}

-- There is room for `k` more digits.
HasRoom : ℕ → ℕ → Type 0
HasRoom v k = (v + 1) * 8 ^ k ≤ 2 ^ 64

pub room_for_digit : (v d p m : ℕ) → d ≤ 7 → (v + 1) * (p * 8) ≤ m → (v * 8 + d + 1) * p ≤ m
room_for_digit v d p m h r = let more = mul-le-mul_right {m = d} {n = 7} p h in omega arith

HasRoom-suc : (v d k : ℕ) → d ≤ 7 → HasRoom v (suc k) → HasRoom (v * 8 + d) k
unfolding HasRoom
HasRoom-suc v d k h r = room_for_digit v d (8 ^ k) (2 ^ 64) h (rw (pow-suc 8 k) at r)

pub eight_pow_pos : (k : ℕ) → 1 ≤ 8 ^ k
eight_pow_pos zero = omega arith
eight_pow_pos (suc k) = omega (arith, pow-suc 8 k, eight_pow_pos k)

pub mul_mono : (v a b : ℕ) → a ≤ b → v * a ≤ v * b
mul_mono v a b h = grind arith

HasRoom-lt : (v k : ℕ) → HasRoom v k → v < 2 ^ 64
unfolding HasRoom
HasRoom-lt v k r =
    let less = mul_mono (v + 1) 1 (8 ^ k) (eight_pow_pos k) in
    le_trans (omega arith) (le_trans less r)

-- After the first digit.
octal_loop_sound :
    (s : Bytes) (v n : ℕ) → HasRoom v (length s) → octal_loop s v true ≡ some n → Digits v s n
unfolding octal_loop
octal_loop_sound [] v n room e = record {
  digits = [];
  rest = [];
  split = refl;
  octal = tt;
  ended = tt;
  spelled = ground arith;
}
octal_loop_sound (c ∷ s) v n room e = elim (Bool-cases (c == 0 || c == b' ')) [
  | inl pad ↦ record {
    digits = [];
    rest = c ∷ s;
    split = refl;
    octal = tt;
    ended = ground arith;
    spelled = ground arith;
  }
  | inr other ↦
      let digit : IsOctalDigit c = ground arith in
      let d = c - b'0' in
      let room' = HasRoom-suc v d (length s) (omega arith) room in
      let fits = HasRoom-lt (v * 8 + d) (length s) room' in
      Digits-cons v c s n digit (octal_loop_sound s (v * 8 + d) n room' (ground arith))
]

-- Before the first digit.
pub record OctalField (field : Bytes) (n : ℕ) : Type 0 where
  pub padding : Bytes
  pub digits : Bytes
  pub rest : Bytes
  pub split : field ≡ padding ++ (digits ++ rest)
  pub pads : All IsPad padding
  pub non_empty : digits ≢ []
  pub octal : All IsOctalDigit digits
  pub ended : IsEnd rest
  pub spelled : octal_value 0 digits ≡ n

OctalField-cons : (c : ℕ) (s : Bytes) (n : ℕ) → IsPad c → OctalField s n → OctalField (c ∷ s) n
OctalField-cons c s n h o = record {
  padding = c ∷ o.padding;
  digits = o.digits;
  rest = o.rest;
  split = ap (λ t. c ∷ t) o.split;
  pads = (h, o.pads);
  non_empty = o.non_empty;
  octal = o.octal;
  ended = o.ended;
  spelled = o.spelled;
}

HasRoom-pred : (k : ℕ) → HasRoom 0 (suc k) → HasRoom 0 k
unfolding HasRoom
HasRoom-pred k r = omega (arith, pow-suc 8 k)

starts_with_digit :
    (c : ℕ) (s : Bytes) {n : ℕ} (d : Digits 0 (c ∷ s) n)
    → IsOctalDigit c
    → (c == 0 || c == b' ') ≡ false
    → d.digits ≢ []
starts_with_digit c s d digit other e =
    let whole : c ∷ s ≡ d.rest = d.split ∙ ap (λ ds. ds ++ d.rest) e in
    let pad : IsPad c = subst IsEnd (sym whole) d.ended in ground arith

octal_loop-OctalField :
    (s : Bytes) (n : ℕ) → HasRoom 0 (length s) → octal_loop s 0 false ≡ some n → OctalField s n
octal_loop-OctalField [] n room e = absurd (unfold octal_loop in ground arith)
octal_loop-OctalField (c ∷ s) n room e = elim (Bool-cases (c == 0 || c == b' ')) [
  | inl pad ↦
      OctalField-cons c s n (ground arith) (
        octal_loop-OctalField s n (HasRoom-pred (length s) room)
          (unfold octal_loop in ground arith))
  | inr other ↦
      let d = octal_loop_sound (c ∷ s) 0 n room (unfold octal_loop in ground arith) in
      let digit : IsOctalDigit c = unfold octal_loop in ground arith in
      record {
        padding = [];
        digits = d.digits;
        rest = d.rest;
        split = d.split;
        pads = tt;
        non_empty = starts_with_digit c s d digit other;
        octal = d.octal;
        ended = d.ended;
        spelled = d.spelled;
      }
]

octal_loop-end : (s : Bytes) (v : ℕ) → IsEnd s → octal_loop s v true ≡ some v
unfolding octal_loop
octal_loop-end [] v h = refl
octal_loop-end (c ∷ s) v h = ground arith

octal_loop-digits :
    (ds rest : Bytes) (v : ℕ)
    → HasRoom v (length ds)
    → All IsOctalDigit ds
    → IsEnd rest
    → octal_loop (ds ++ rest) v true ≡ some (octal_value v ds)
unfolding octal_loop
octal_loop-digits [] rest v room h e = octal_loop-end rest v e
octal_loop-digits (c ∷ ds) rest v room (digit, h) e =
    let d = c - b'0' in
    let room' = HasRoom-suc v d (length ds) (omega arith) room in
    let fits = HasRoom-lt (v * 8 + d) (length ds) room' in
    ground (arith, octal_loop-digits ds rest (v * 8 + d) room' h e)

octal_loop-first :
    (c : ℕ) (s : Bytes) → IsOctalDigit c → octal_loop (c ∷ s) 0 false ≡ octal_loop (c ∷ s) 0 true
unfolding octal_loop
octal_loop-first c s h = ground arith

octal_loop-pad : (c : ℕ) (s : Bytes) → IsPad c → octal_loop (c ∷ s) 0 false ≡ octal_loop s 0 false
unfolding octal_loop
octal_loop-pad c s h = ground arith

octal_field_complete :
    (pads ds rest : Bytes)
    → HasRoom 0 (length ds)
    → All IsPad pads
    → ds ≢ []
    → All IsOctalDigit ds
    → IsEnd rest
    → octal_loop (pads ++ (ds ++ rest)) 0 false ≡ some (octal_value 0 ds)
octal_field_complete [] [] rest room p f h e = absurd (f refl)
octal_field_complete [] (c ∷ ds) rest room p f (digit, h) e =
    let ih = octal_loop-digits (c ∷ ds) rest 0 room (digit, h) e in
    ground (arith, octal_loop-first c (ds ++ rest) digit)
octal_field_complete (c ∷ pads) ds rest room (pad, p) f h e =
    octal_loop-pad c (pads ++ (ds ++ rest)) pad ∙ octal_field_complete pads ds rest room p f h e

HasRoom-length : (k : ℕ) → k ≤ 21 → HasRoom 0 k
unfolding HasRoom
HasRoom-length k h = let p = pow-le-pow_right {n = 8} (omega arith) h in omega arith

-- A field of up to 21 bytes is accepted with value `n` exactly if it is padding, then one or more
-- octal digits that spell `n`, then nothing or padding and anything. No value wraps around.
pub parse_octal_field_iff :
    (field : Bytes) (n : ℕ)
    → length field ≤ 21
    → (parse_octal_field field ≡ some n) ↔ OctalField field n
parse_octal_field_iff field n h = (
  octal_loop-OctalField field n (HasRoom-length (length field) h),
  λ o.
      let size = length-append o.padding (o.digits ++ o.rest) in
      let size' = length-append o.digits o.rest in
      let whole = ap length o.split in
      rw o.split (
        octal_field_complete o.padding o.digits o.rest
          (HasRoom-length (length o.digits) (omega arith)) o.pads o.non_empty o.octal o.ended
        ∙ ap some o.spelled),
)
