-- ===== src/Manifest/Tokens.antt =====
-- consumer/src/installer.c: the token readers on printed tokens.
use fota_secure.Base.{
  ℕ, ◌+◌, ◌≤◌, ◌<◌, ◌≡◌, ◌≢◌, inl, inr, refl, sym, ap, ◌∙◌, false, ◌||◌, [], ◌∷◌, ◌++◌,
  append_assoc, append-nil, Option, some, arith, Bytes, codes, ◌==◌, same_bytes, c_str, length,
  length-append, All, Bool-cases,
}
use fota_secure.Manifest.{
  json_body, extract_json_string, skip_json_whitespace, expect, is_json_space, close, comma,
  set_path, set_sha256, field_value, field_step, at_field, stored_path, stored_sha256, after_key,
  after_colon,
}
use fota_secure.Manifest.Layout.{escape, quote, IsSpace, Spacing, IsSpacing, print_field}

-- White space in front of anything else is skipped.
pub skip_json_whitespace-IsSpace :
    (w : Bytes) (c : ℕ) (s : Bytes)
    → All IsSpace w
    → is_json_space c ≡ false
    → skip_json_whitespace (w ++ c ∷ s) ≡ c ∷ s
unfolding skip_json_whitespace
skip_json_whitespace-IsSpace [] c s h e = rw e
skip_json_whitespace-IsSpace (d ∷ w) c s (hd, h) e =
    ground (arith, skip_json_whitespace-IsSpace w c s h e)

json_body-escape :
    (limit : ℕ) (s out rest : Bytes)
    → length out + length s < limit
    → json_body limit (escape s ++ b'"' ∷ rest) out false ≡ some (out ++ s, rest)
unfolding json_body
json_body-escape limit [] out rest h = ap (λ o. some (o, rest)) (sym (append-nil out))
json_body-escape limit (c ∷ s) out rest h =
    let ih =
      json_body-escape limit s (out ++ c ∷ []) rest (omega (arith, length-append out (c ∷ []))) in
    let joined : ◌≡◌ {A = Option (Bytes × Bytes)} (some ((out ++ c ∷ []) ++ s, rest))
        (some (out ++ c ∷ s, rest)) =
      ap (λ o. some (o, rest)) (append_assoc out (c ∷ []) s) in
    elim (Bool-cases (c == b'"' || c == b'\\')) [
      | inl special ↦ rw special (ground (arith, ih, joined))
      | inr plain ↦ rw plain (ground (arith, ih, joined))
    ]

pub extract_json_string-quote :
    (limit : ℕ) (s rest : Bytes)
    → length s < limit
    → extract_json_string limit (quote s rest) ≡ some (s, rest)
unfolding extract_json_string
extract_json_string-quote limit s rest h = json_body-escape limit s [] rest (omega arith)

pub c_str-no_nul : (s : Bytes) → All (λ c. c ≢ 0) s → c_str s ≡ s
unfolding c_str
c_str-no_nul [] h = refl
c_str-no_nul (c ∷ s) (hc, h) = ground (arith, c_str-no_nul s h)

expect_self : (c : ℕ) (s : Bytes) → expect c (c ∷ s) ≡ some s
unfolding expect
expect_self c s = ground arith

-- A colon between white space.
pub colon_read :
    (w : Bytes) (s : Bytes)
    → All IsSpace w
    → expect b':' (skip_json_whitespace (w ++ b':' ∷ s)) ≡ some s
colon_read w s h =
    ap (expect b':') (skip_json_whitespace-IsSpace w b':' s h refl) ∙ expect_self b':' s

pub bracket_read :
    (w : Bytes) (s : Bytes)
    → All IsSpace w
    → expect b'[' (skip_json_whitespace (w ++ b'[' ∷ s)) ≡ some s
bracket_read w s h =
    ap (expect b'[') (skip_json_whitespace-IsSpace w b'[' s h refl) ∙ expect_self b'[' s

stored_sha256_lem :
    (hash rest : Bytes)
    → length hash ≡ 64
    → c_str hash ≡ hash
    → stored_sha256 (some (hash, rest)) ≡ set_sha256 hash rest
stored_sha256_lem hash rest h e = rw e (ground arith)

module _ (w : Spacing) (v : IsSpacing w) where
  -- A key, its colon, and the value behind.
  field_step-print_field :
      (key value rest : Bytes)
      → length key < 16
      → field_step (print_field w key value rest) ≡ field_value key (quote value rest)
  unfolding field_step print_field
  field_step-print_field key value rest h =
      ap at_field (skip_json_whitespace-IsSpace w.key b'"' _ v.key refl)
      ∙ ap after_key (extract_json_string-quote 16 key _ h)
      ∙ ap (after_colon key) (colon_read w.colon _ v.colon)
      ∙ ap (field_value key) (skip_json_whitespace-IsSpace w.value b'"' _ v.value refl)

  pub field_step-path :
      (path rest : Bytes)
      → length path ≤ 255
      → All (λ c. c ≢ 0) path
      → field_step (print_field w (codes "path") path rest) ≡ set_path path rest
  field_step-path path rest h n =
      field_step-print_field (codes "path") path rest (omega arith)
      ∙ unfold field_value c_str same_bytes in
        (ap stored_path (extract_json_string-quote 256 path rest (omega arith))
          ∙ ap (λ p. set_path p rest) (c_str-no_nul path n))

  pub field_step-sha256 :
      (hash rest : Bytes)
      → length hash ≡ 64
      → All (λ c. c ≢ 0) hash
      → field_step (print_field w (codes "sha256") hash rest) ≡ set_sha256 hash rest
  field_step-sha256 hash rest h n =
      field_step-print_field (codes "sha256") hash rest (omega arith)
      ∙ unfold field_value c_str same_bytes in
        (ap stored_sha256 (extract_json_string-quote 65 hash rest (omega arith))
          ∙ stored_sha256_lem hash rest h (c_str-no_nul hash n))

  pub field_step-comma : (s : Bytes) → field_step (w.comma ++ b',' ∷ s) ≡ comma s
  unfolding field_step
  field_step-comma s = ap at_field (skip_json_whitespace-IsSpace w.comma b',' s v.comma refl)

  pub field_step-close : (s : Bytes) → field_step (w.close ++ b'}' ∷ s) ≡ close s
  unfolding field_step
  field_step-close s = ap at_field (skip_json_whitespace-IsSpace w.close b'}' s v.close refl)
