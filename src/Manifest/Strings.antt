-- ===== src/Manifest/Strings.antt =====
-- consumer/src/installer.c: the string and token readers of the manifest parser.
use fota_secure.Base.{
  ℕ, ◌≤◌, ◌<◌, ◌≡◌, inl, inr, refl, Bool, true, false, [], ◌∷◌, ◌++◌, Option, none, some, arith,
  Bytes, codes, ◌==◌, same_bytes, c_str, length, length-append, Bool-cases, Option-cases,
}
use fota_secure.Manifest.{
  json_body, extract_json_string, skip_json_whitespace, expect, FieldStep, malformed, close, comma,
  set_path, set_sha256, field_value, field_step, stored_path, stored_sha256, after_colon, after_key,
  at_field, ArrayStep, object, at_element, array_step,
}
use fota_secure.Tar.Entry.{length-c_str}

-- A string that was read fits its buffer with the NUL, and the position has moved on.
json_body_sound :
    (limit : ℕ) (s out : Bytes) (escaped : Bool) (value rest : Bytes)
    → length out < limit
    → json_body limit s out escaped ≡ some (value, rest)
    → (length value < limit) × (length rest < length s)
unfolding json_body
json_body_sound limit [] out escaped value rest h e = absurd (ground arith)
json_body_sound limit (c ∷ s) out true value rest h e =
    let grown = length-append out (c ∷ []) in
    ground (arith, json_body_sound limit s (out ++ c ∷ []) false value rest)
json_body_sound limit (c ∷ s) out false value rest h e =
    let grown = length-append out (c ∷ []) in
    ground (
      arith,
      json_body_sound limit s (out ++ c ∷ []) false value rest,
      json_body_sound limit s out true value rest,
    )

pub extract_json_string_sound :
    (limit : ℕ) (s value rest : Bytes)
    → 0 < limit
    → extract_json_string limit s ≡ some (value, rest)
    → (length value < limit) × (length rest < length s)
unfolding extract_json_string
extract_json_string_sound limit [] value rest h e = absurd (ground arith)
extract_json_string_sound limit (c ∷ s) value rest h e =
    ground (arith, json_body_sound limit s [] false value rest)

pub skip_json_whitespace-le : (s : Bytes) → length (skip_json_whitespace s) ≤ length s
unfolding skip_json_whitespace
skip_json_whitespace-le [] = omega arith
skip_json_whitespace-le (c ∷ s) = ground (arith, skip_json_whitespace-le s)

pub expect-lt : (c : ℕ) (s rest : Bytes) → expect c s ≡ some rest → length rest < length s
unfolding expect
expect-lt c [] rest e = absurd (ground arith)
expect-lt c (d ∷ s) rest e = ground arith

-- A round of the object loop that goes on is shorter, and what it stores is in bounds.
abbrev pub FieldIsGood : Bytes → FieldStep → Type 0
FieldIsGood s malformed = Unit
FieldIsGood s (close rest) = length rest < length s
FieldIsGood s (comma rest) = length rest < length s
FieldIsGood s (set_path p rest) = (length rest < length s) × (length p ≤ 255)
FieldIsGood s (set_sha256 h rest) = (length rest < length s) × (length h ≡ 64)

stored_path-good :
    (s : Bytes) (o : Option (Bytes × Bytes))
    → ((v rest : Bytes) → o ≡ some (v, rest) → (length v < 256) × (length rest < length s))
    → FieldIsGood s (stored_path o)
stored_path-good s none h = tt
stored_path-good s (some (v, rest)) h = ground (arith, h v rest refl, length-c_str v)

stored_sha256-good :
    (s : Bytes) (o : Option (Bytes × Bytes))
    → ((v rest : Bytes) → o ≡ some (v, rest) → (length v < 65) × (length rest < length s))
    → FieldIsGood s (stored_sha256 o)
stored_sha256-good s none h = tt
stored_sha256-good s (some (v, rest)) h = elim (Bool-cases (length (c_str v) == 64)) [
  | inl full ↦ rw full (ground (arith, h v rest refl))
  | inr other ↦ rw other tt
]

field_value-good : (key s : Bytes) → FieldIsGood s (field_value key s)
unfolding field_value
field_value-good key s = elim (Bool-cases (same_bytes (c_str key) (codes "path"))) [
  | inl is_path ↦ rw is_path (
      stored_path-good s (extract_json_string 256 s)
        (λ v rest e. extract_json_string_sound 256 s v rest (omega arith) e))
  | inr other ↦ elim (Bool-cases (same_bytes (c_str key) (codes "sha256"))) [
    | inl is_sha ↦
        rw (other, is_sha)
          (stored_sha256-good s (extract_json_string 65 s)
            (λ v rest e. extract_json_string_sound 65 s v rest (omega arith) e))
    | inr unknown ↦ rw (other, unknown) tt
  ]
]

FieldIsGood-weaken :
    (s t : Bytes) (f : FieldStep) → length s ≤ length t → FieldIsGood s f → FieldIsGood t f
FieldIsGood-weaken s t malformed h g = tt
FieldIsGood-weaken s t (close rest) h g = omega arith
FieldIsGood-weaken s t (comma rest) h g = omega arith
FieldIsGood-weaken s t (set_path p rest) h g = omega arith
FieldIsGood-weaken s t (set_sha256 p rest) h g = omega arith

after_colon-good : (key s : Bytes) → FieldIsGood s (after_colon key (expect b':' s))
after_colon-good key s = elim (Option-cases (expect b':' s)) [
  | inl missing ↦ rw missing tt
  | inr (rest, q) ↦
      let shorter = expect-lt b':' s rest q in
      rw q (
        FieldIsGood-weaken (skip_json_whitespace rest) s _
          (omega (arith, skip_json_whitespace-le rest))
          (field_value-good key (skip_json_whitespace rest)))
]

after_key-good : (s : Bytes) → FieldIsGood s (after_key (extract_json_string 16 s))
after_key-good s = elim (Option-cases (extract_json_string 16 s)) [
  | inl bad ↦ rw bad tt
  | inr ((key, rest), q) ↦
      let (fits, shorter) = extract_json_string_sound 16 s key rest (omega arith) q in
      rw q (
        FieldIsGood-weaken (skip_json_whitespace rest) s _
          (omega (arith, skip_json_whitespace-le rest))
          (after_colon-good key (skip_json_whitespace rest)))
]

at_field-good : (s : Bytes) → FieldIsGood s (at_field s)
at_field-good [] = tt
at_field-good (c ∷ s) = elim (Bool-cases (c == b'}')) [
  | inl closes ↦ rw closes (omega arith)
  | inr no_brace ↦ elim (Bool-cases (c == b',')) [
    | inl at_comma ↦ rw (no_brace, at_comma) (omega arith)
    | inr key ↦ rw (no_brace, key) (after_key-good (c ∷ s))
  ]
]

pub field_step-good : (s : Bytes) → FieldIsGood s (field_step s)
unfolding field_step
field_step-good s =
    FieldIsGood-weaken (skip_json_whitespace s) s _ (skip_json_whitespace-le s)
      (at_field-good (skip_json_whitespace s))

-- A round of the array loop that goes on is shorter.
abbrev pub ArrayIsGood : Bytes → ArrayStep → Type 0
ArrayIsGood s ArrayStep.malformed = Unit
ArrayIsGood s ArrayStep.close = Unit
ArrayIsGood s (ArrayStep.comma rest) = length rest < length s
ArrayIsGood s (object inside) = length inside < length s

at_element-good : (s t : Bytes) → length s ≤ length t → ArrayIsGood t (at_element s)
at_element-good [] t h = tt
at_element-good (c ∷ s) t h = elim (Bool-cases (c == b']')) [
  | inl closes ↦ rw closes tt
  | inr no_bracket ↦ elim (Bool-cases (c == b',')) [
    | inl at_comma ↦ rw (no_bracket, at_comma) (omega arith)
    | inr no_comma ↦ elim (Bool-cases (c == b'{')) [
      | inl opens ↦ rw (no_bracket, no_comma, opens) (omega arith)
      | inr other ↦ rw (no_bracket, no_comma, other) tt
    ]
  ]
]

pub array_step-good : (s : Bytes) → ArrayIsGood s (array_step s)
unfolding array_step
array_step-good s = at_element-good (skip_json_whitespace s) s (skip_json_whitespace-le s)
