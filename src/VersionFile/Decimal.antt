-- ===== src/VersionFile/Decimal.antt =====
-- consumer/src/version.c: the decimal print of a 32-bit number.
use native.Mathlib.Nat.{pow-suc}
use fota_secure.Base.{
  ℕ, zero, suc, ◌+◌, ◌-◌, ◌*◌, ◌/◌, ◌%◌, ◌^◌, ◌≤◌, ◌<◌, ◌≡◌, ◌≢◌, inl, inr, ap, ◌∙◌, Bool-cases, [],
  ◌∷◌, arith, Bytes, ◌==◌, length, All,
}
use fota_secure.Version.Dotted.{IsDigit, value, IsComponent}
use fota_secure.VersionFile.{digits, decimal}

-- Reading the digits of `n` and then `out` is reading `out` behind `n`.
value-digits : (fuel n : ℕ) (out : Bytes) → n < fuel → value 0 (digits fuel n out) ≡ value n out
unfolding digits
value-digits zero n out h = absurd (omega arith)
value-digits (suc fuel) n out h = elim (Bool-cases (n / 10 == 0)) [
  | inl last ↦
      let e : 0 * 10 + (b'0' + n % 10 - b'0') ≡ n = ground arith in
      rw last (ap (λ m. value m out) e)
  | inr more ↦
      let e : n / 10 * 10 + (b'0' + n % 10 - b'0') ≡ n = omega arith in
      rw more (
        value-digits fuel (n / 10) ((b'0' + n % 10) ∷ out) (ground arith) ∙ ap (λ m. value m out) e)
]

digits-IsDigit : (fuel n : ℕ) (out : Bytes) → All IsDigit out → All IsDigit (digits fuel n out)
unfolding digits
digits-IsDigit zero n out h = h
digits-IsDigit (suc fuel) n out h =
    let d : IsDigit (b'0' + n % 10) = omega arith in
    ground (arith, digits-IsDigit fuel (n / 10) ((b'0' + n % 10) ∷ out) (d, h))

digits-ne-nil : (fuel n c : ℕ) (out : Bytes) → digits fuel n (c ∷ out) ≢ []
unfolding digits
digits-ne-nil zero n c out h = cc
digits-ne-nil (suc fuel) n c out h =
    ground (arith, digits-ne-nil fuel (n / 10) (b'0' + n % 10) (c ∷ out))

length-digits :
    (k fuel n : ℕ) (out : Bytes) → n < 10 ^ k → 0 < k → length (digits fuel n out) ≤ k + length out
unfolding digits
length-digits zero fuel n out h p = absurd (omega arith)
length-digits (suc k) zero n out h p = omega arith
length-digits (suc zero) (suc fuel) n out h p = ground arith
length-digits (suc (suc k)) (suc fuel) n out h p =
    let step = pow-suc 10 (suc k) in
    ground (arith, length-digits (suc k) fuel (n / 10) ((b'0' + n % 10) ∷ out) (omega arith))

decimal-ne-nil : (n : ℕ) → decimal n ≢ []
unfolding decimal
decimal-ne-nil n = ground (arith, digits-ne-nil n (n / 10) (b'0' + n % 10) [])

pub decimal-IsComponent : (n : ℕ) → n < 2 ^ 32 → IsComponent n (decimal n)
unfolding decimal
decimal-IsComponent n h = record {
  non_empty = decimal-ne-nil n;
  digits = digits-IsDigit (suc n) n [] tt;
  spelled = value-digits (suc n) n [] (omega arith);
  fits = h;
}

pub length-decimal : (n : ℕ) → n < 2 ^ 32 → length (decimal n) ≤ 10
unfolding decimal
length-decimal n h = length-digits 10 (suc n) n [] (omega arith) (omega arith)
