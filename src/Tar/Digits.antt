-- ===== src/Tar/Digits.antt =====
-- consumer/src/installer.c: `parse_octal_field` on the octal digits of the layout.
use native.Mathlib.Nat.{pow-suc}
use fota_secure.Base.{
  ℕ, zero, suc, ◌+◌, ◌-◌, ◌*◌, ◌/◌, ◌%◌, ◌^◌, ◌≤◌, ◌<◌, ◌≡◌, ◌≢◌, inl, refl, ap, ◌∙◌, true, [], ◌∷◌,
  ◌++◌, some, arith, Bytes, length, length-append, replicate, All, All-append, AreBytes,
}
use fota_secure.Tar.{parse_octal_field, is_all_zero}
use fota_secure.Tar.Layout.{zeros, octal}
use fota_secure.Tar.Octal.{IsOctalDigit, octal_value, parse_octal_field_iff}

pub length-replicate {ℓ} : {A : Type ℓ} (n : ℕ) (b : A) → length (replicate n b) ≡ n
length-replicate zero b = refl
length-replicate (suc n) b = ap suc (length-replicate n b)

pub is_all_zero-replicate : (n : ℕ) → is_all_zero (zeros n) ≡ true
unfolding is_all_zero
is_all_zero-replicate zero = refl
is_all_zero-replicate (suc n) = is_all_zero-replicate n

pub replicate-AreBytes : (n : ℕ) → AreBytes (zeros n)
replicate-AreBytes zero = tt
replicate-AreBytes (suc n) = (omega arith, replicate-AreBytes n)

-- Octal digits spell their number.
pub length-octal : (k n : ℕ) → length (octal k n) ≡ k
length-octal zero n = refl
length-octal (suc k) n =
    omega (arith, length-append (octal k (n / 8)) ((b'0' + n % 8) ∷ []), length-octal k (n / 8))

octal-digits : (k n : ℕ) → All IsOctalDigit (octal k n)
octal-digits zero n = tt
octal-digits (suc k) n =
    let d : IsOctalDigit (b'0' + n % 8) = omega arith in
    All-append IsOctalDigit (octal k (n / 8)) ((b'0' + n % 8) ∷ []) (octal-digits k (n / 8)) (d, tt)

octal_value-append :
    (v : ℕ) (s t : Bytes) → octal_value v (s ++ t) ≡ octal_value (octal_value v s) t
octal_value-append v [] t = refl
octal_value-append v (c ∷ s) t = octal_value-append (v * 8 + (c - b'0')) s t

octal_value-octal : (k n : ℕ) → n < 8 ^ k → octal_value 0 (octal k n) ≡ n
octal_value-octal zero n h = omega arith
octal_value-octal (suc k) n h =
    let fits : n / 8 < 8 ^ k = omega (arith, pow-suc 8 k) in
    octal_value-append 0 (octal k (n / 8)) ((b'0' + n % 8) ∷ [])
    ∙ omega (arith, octal_value-octal k (n / 8) fits)

pub octal-AreBytes : (k n : ℕ) → AreBytes (octal k n)
octal-AreBytes zero n = tt
octal-AreBytes (suc k) n =
    let b : AreBytes ((b'0' + n % 8) ∷ []) = (omega arith, tt) in
    All-append (λ b. b < 256) (octal k (n / 8)) ((b'0' + n % 8) ∷ []) (octal-AreBytes k (n / 8)) b

octal-ne-nil : (k n : ℕ) → 0 < k → octal k n ≢ []
octal-ne-nil k n h e = absurd (omega (arith, length-octal k n, ap length e))

-- A field of digits and a NUL, with or without more behind it, is read as its number.
pub parse_octal_field-octal :
    (k n : ℕ) (rest : Bytes)
    → n < 8 ^ k
    → 0 < k
    → k + suc (length rest) ≤ 21
    → parse_octal_field (octal k n ++ 0 ∷ rest) ≡ some n
parse_octal_field-octal k n rest h p l =
    (parse_octal_field_iff (octal k n ++ 0 ∷ rest) n
        (omega (arith, length-append (octal k n) (0 ∷ rest), length-octal k n))).1
      (record {
        padding = [];
        digits = octal k n;
        rest = 0 ∷ rest;
        split = refl;
        pads = tt;
        non_empty = octal-ne-nil k n p;
        octal = octal-digits k n;
        ended = inl refl;
        spelled = octal_value-octal k n h;
      })
