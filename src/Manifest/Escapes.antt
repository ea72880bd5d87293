-- ===== src/Manifest/Escapes.antt =====
-- consumer/src/installer.c: `parse_manifest_files` on a path with an escape that the parser does not
-- have.
use fota_secure.Base.{
  ℕ, zero, suc, ◌*◌, ◌≤◌, ◌<◌, ◌≡◌, ◌≢◌, inl, inr, refl, ap, ◌∙◌, Bool, true, false, ◌||◌, List, [],
  ◌∷◌, ◌++◌, none, some, arith, Bytes, codes, ◌==◌, c_str, same_bytes, length, All, Bool-cases,
}
use fota_secure.Install.{manifest_parse, err}
use fota_secure.Manifest.{
  ManifestFile, json_body, extract_json_string, malformed, at_field, after_key, after_colon,
  field_value, stored_path, field_step, object_loop, at_element, array_step, object, array_loop,
  parse_manifest_files,
}
use fota_secure.Manifest.Layout.{
  escape, quote, Spacing, IsSpacing, print_object, files_key, IsFirst, IsPlain,
}
use fota_secure.Manifest.Objects.{le-append}
use fota_secure.Manifest.RoundTrip.{
  array_step-object, array_step-comma, lt-print_object, open_array-print_list,
}
use fota_secure.Manifest.Tokens.{
  skip_json_whitespace-IsSpace, extract_json_string-quote, colon_read,
}

-- The fields of a listing whose path has an escape behind some text.
unfoldable pub print_escaped_fields : Spacing → Bytes → ℕ → Bytes → Bytes
print_escaped_fields w text c rest =
    w.key
    ++ quote (codes "path")
        (w.colon ++ (b':' ∷ (w.value ++ b'"' ∷ (escape text ++ b'\\' ∷ c ∷ rest))))

-- A list of files, up to a listing whose path has an escape behind some text.
unfoldable pub print_escaped : Spacing → List ManifestFile → Bytes → ℕ → Bytes → Bytes
print_escaped w [] text c rest = w.item ++ b'{' ∷ print_escaped_fields w text c rest
print_escaped w (f ∷ fs) text c rest =
    print_object w f (w.comma ++ b',' ∷ print_escaped w fs text c rest)

-- Not one of the three bytes that the parser takes behind a backslash.
pub record IsUnsupported (c : ℕ) : Type 0 where
  pub no_quote : c ≢ b'"'
  pub no_backslash : c ≢ b'\\'
  pub no_slash : c ≢ b'/'

json_body-unsupported :
    (limit : ℕ) (text out rest : Bytes) (c : ℕ)
    → IsUnsupported c
    → json_body limit (escape text ++ b'\\' ∷ c ∷ rest) out false ≡ none
unfolding json_body
json_body-unsupported limit [] out rest c h =
    let q = h.no_quote in let b = h.no_backslash in let s = h.no_slash in ground arith
json_body-unsupported limit (d ∷ text) out rest c h =
    let ih = json_body-unsupported limit text (out ++ d ∷ []) rest c h in
    elim (Bool-cases (d == b'"' || d == b'\\')) [
      | inl special ↦ rw special (ground (arith, ih))
      | inr plain ↦ rw plain (ground (arith, ih))
    ]

extract_json_string-unsupported :
    (limit : ℕ) (text rest : Bytes) (c : ℕ)
    → IsUnsupported c
    → extract_json_string limit (b'"' ∷ (escape text ++ b'\\' ∷ c ∷ rest)) ≡ none
unfolding extract_json_string
extract_json_string-unsupported limit text rest c h = json_body-unsupported limit text [] rest c h

module _ (w : Spacing) (v : IsSpacing w) (text : Bytes) (c : ℕ) (rest : Bytes)
    (h : IsUnsupported c) where
  field_step-print_escaped_fields : field_step (print_escaped_fields w text c rest) ≡ malformed
  unfolding field_step print_escaped_fields
  field_step-print_escaped_fields =
      ap at_field (skip_json_whitespace-IsSpace w.key b'"' _ v.key refl)
      ∙ ap after_key (extract_json_string-quote 16 (codes "path") _ (omega arith))
      ∙ ap (after_colon (codes "path")) (colon_read w.colon _ v.colon)
      ∙ ap (field_value (codes "path")) (skip_json_whitespace-IsSpace w.value b'"' _ v.value refl)
      ∙ unfold field_value c_str same_bytes in
        ap stored_path (extract_json_string-unsupported 256 text rest c h)

  object_loop-print_escaped_fields :
      (fuel : ℕ)
      → object_loop (suc fuel) (print_escaped_fields w text c rest) none none
        ≡ some (err manifest_parse)
  unfolding object_loop
  object_loop-print_escaped_fields fuel = rw (field_step-print_escaped_fields, object_loop) refl

  escaped_object_at :
      array_step (w.item ++ b'{' ∷ print_escaped_fields w text c rest)
      ≡ object (print_escaped_fields w text c rest)
  unfolding array_step
  escaped_object_at = ap at_element (skip_json_whitespace-IsSpace w.item b'{' _ v.item refl)

  lt-print_escaped :
      (fs : List ManifestFile) → 2 * length fs < length (print_escaped w fs text c rest)
  unfolding print_escaped
  lt-print_escaped [] = le-append w.item _ (omega arith)
  lt-print_escaped (f ∷ fs) =
      let separated : length (b',' ∷ print_escaped w fs text c rest)
          ≤ length (w.comma ++ b',' ∷ print_escaped w fs text c rest) =
        le-append w.comma _ (omega arith) in
      omega (
        arith,
        lt-print_object w v f (w.comma ++ b',' ∷ print_escaped w fs text c rest),
        lt-print_escaped fs,
      )

  module _ (realloc : ℕ → Bool) (memory : (n : ℕ) → realloc n ≡ true) where
    array_loop-print_escaped :
        (fs files : List ManifestFile) (capacity fuel : ℕ)
        → All IsPlain fs
        → 2 * length fs < fuel
        → array_loop realloc fuel (print_escaped w fs text c rest) files capacity
          ≡ some (err manifest_parse)
    unfolding print_escaped array_loop
    array_loop-print_escaped fs files capacity zero plain enough = absurd (omega arith)
    array_loop-print_escaped [] files capacity (suc fuel) plain enough =
        rw
          (
            escaped_object_at,
            array_loop,
            object_loop-print_escaped_fields (length (print_escaped_fields w text c rest)),
          )
          refl
    array_loop-print_escaped (f ∷ fs) files capacity (suc zero) plain enough = absurd (omega arith)
    array_loop-print_escaped (f ∷ fs) files capacity (suc (suc fuel)) (p, plain) enough =
        let next = print_escaped w fs text c rest in
        let (room, step) =
          array_step-object w v realloc memory (suc fuel) f (w.comma ++ b',' ∷ next) files capacity
            p in
        step
        ∙ array_step-comma w v realloc memory fuel next (files ++ f ∷ []) room
        ∙ array_loop-print_escaped fs (files ++ f ∷ []) room fuel plain (omega arith)

-- A manifest is rejected as malformed if some listing in it begins with its path, and the string of
-- this path holds a backslash in front of a byte other than a quote, a backslash or a slash, behind
-- text in which each quote and each backslash is escaped. What comes after that byte and what stands
-- in front of the first "files" does not matter, the listings in front are plain ones, and every
-- allocation succeeds.
pub parse_manifest_files-print_escaped :
    (realloc : ℕ → Bool) (w : Spacing) (before : Bytes) (files : List ManifestFile) (text : Bytes)
    (c : ℕ) (rest : Bytes)
    → ((n : ℕ) → realloc n ≡ true)
    → IsSpacing w
    → All IsPlain files
    → IsUnsupported c
    → IsFirst files_key before
        (files_key ++ (w.colon ++ (b':' ∷ (w.value ++ (b'[' ∷ print_escaped w files text c rest)))))
    → parse_manifest_files realloc (
        before
        ++ (files_key
            ++ (w.colon ++ (b':' ∷ (w.value ++ (b'[' ∷ print_escaped w files text c rest))))))
      ≡ some (err manifest_parse)
unfolding parse_manifest_files
parse_manifest_files-print_escaped realloc w before files text c rest memory v plain h first =
    rw
      (
        open_array-print_list w v before (print_escaped w files text c rest) first,
        parse_manifest_files,
      )
      (array_loop-print_escaped w v text c rest h realloc memory files [] 0
        (suc (length (print_escaped w files text c rest))) plain
        (omega (arith, lt-print_escaped w v text c rest h files)))
