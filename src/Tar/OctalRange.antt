-- ===== src/Tar/OctalRange.antt =====
-- consumer/src/installer.c: how large a number `parse_octal_field` can hand back.
use native.Mathlib.Nat.{le_trans, mod-le, pow-suc, pow-le-pow_right, mul-le-mul_right}
use fota_secure.Base.{
  ℕ, ◌+◌, ◌-◌, ◌*◌, ◌%◌, ◌^◌, ◌≤◌, ◌<◌, ◌≡◌, inl, inr, true, false, [], ◌∷◌, some, arith, Bytes,
  ltb, ◌||◌, Bool, length, Bool-cases,
}
use fota_secure.Tar.{octal_loop, parse_octal_field}
use fota_secure.Tar.Octal.{room_for_digit, eight_pow_pos, mul_mono}

room_lt : (v k m : ℕ) → (v + 1) * 8 ^ k ≤ m → v < m
room_lt v k m h =
    let less = mul_mono (v + 1) 1 (8 ^ k) (eight_pow_pos k) in
    le_trans (omega arith) (le_trans less h)

wrapped_room : (v w p m : ℕ) → (v + 1) * p ≤ m → (v % w + 1) * p ≤ m
wrapped_room v w p m h =
    le_trans (mul-le-mul_right {m = v % w + 1} {n = v + 1} p (ground (arith, mod-le v w))) h

octal_loop-lt :
    (s : Bytes) (v n m : ℕ) (seen : Bool)
    → (v + 1) * 8 ^ length s ≤ m
    → octal_loop s v seen ≡ some n
    → n < m
unfolding octal_loop
octal_loop-lt [] v n m seen h e = ground arith
octal_loop-lt (c ∷ s) v n m seen h e =
    let d = c - b'0' in
    let grown : (v + 1) * (8 ^ length s * 8) ≤ m = rw (pow-suc 8 (length s)) at h in
    let kept = le_trans (mul_mono (v + 1) (8 ^ length s) (8 ^ length s * 8) (omega arith)) grown in
    let small = room_lt v (length s) m kept in
    elim (Bool-cases (ltb c b'0' || ltb b'7' c)) [
      | inl other ↦ ground (arith, octal_loop-lt s v n m seen kept)
      | inr digit ↦
          let next =
            wrapped_room (v * 8 + d) (2 ^ 64) (8 ^ length s) m
              (room_for_digit v d (8 ^ length s) m (ground arith) grown) in
          ground (
            arith,
            octal_loop-lt s v n m seen kept,
            octal_loop-lt s ((v * 8 + d) % 2 ^ 64) n m true next,
          )
    ]

-- A field of 12 bytes holds less than 2 ^ 36.
pub parse_octal_field-lt :
    (field : Bytes) (n : ℕ) → length field ≤ 12 → parse_octal_field field ≡ some n → n < 2 ^ 36
parse_octal_field-lt field n h e =
    let p = pow-le-pow_right {n = 8} (omega arith) h in
    octal_loop-lt field 0 n (2 ^ 36) false (omega arith) e
