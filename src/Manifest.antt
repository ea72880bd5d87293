-- ===== src/Manifest.antt =====
-- consumer/src/installer.c: the narrow JSON parser for manifest.json. A position in the buffer is
-- the list of the bytes from there on.
pub mod Strings
pub mod Objects
pub mod Layout
pub mod Tokens
pub mod RoundTrip
pub mod Loops
pub mod Escapes
use fota_secure.Base.{
  ℕ, zero, suc, ◌+◌, ◌*◌, ◌%◌, ◌^◌, Bool, true, false, not, ◌&&◌, ◌||◌, List, [], ◌∷◌, ◌++◌, Option,
  none, some, Bytes, codes, leb, ◌==◌, same_bytes, c_str, if◌then◌else◌, ◌>>=◌, length, take, drop,
}
use fota_secure.Install.{InstallError, manifest_parse, io, Result, ok, err}

abbrev pub manifest_max_path_len : ℕ
manifest_max_path_len = 255

abbrev pub manifest_sha256_hex_len : ℕ
manifest_sha256_hex_len = 64

-- Both fields are C strings.
pub record ManifestFile : Type 0 where
  pub path : Bytes
  pub sha256_hex : Bytes

abbrev is_escapable : ℕ → Bool
is_escapable c = c == b'"' || c == b'\\' || c == b'/'

-- The loop between the quotes: the value so far, the capacity of `out`, and whether a backslash was
-- just read. `out_len + 1 >= out_cap` refuses a byte.
unfoldable pub json_body : ℕ → Bytes → Bytes → Bool → Option (Bytes × Bytes)
json_body cap [] out escaped = none
json_body cap (c ∷ s) out true =
    let rest = json_body cap s (out ++ c ∷ []) false in
    if not (is_escapable c) then none else if leb cap (length out + 1) then none else rest
json_body cap (c ∷ s) out false =
    let escape = json_body cap s out true in
    let rest = json_body cap s (out ++ c ∷ []) false in
    if c == b'"'
    then some (out, s)
    else if c == b'\\'
    then escape
    else if leb cap (length out + 1)
    then none
    else rest

-- `extract_json_string`: the bytes in front of the final NUL of `out`, and the position behind.
unfoldable pub extract_json_string : ℕ → Bytes → Option (Bytes × Bytes)
extract_json_string cap [] = none
extract_json_string cap (c ∷ s) = if not (c == b'"') then none else json_body cap s [] false

abbrev is_json_space : ℕ → Bool
is_json_space c = c == b' ' || c == b'\t' || c == b'\n' || c == b'\r'

unfoldable pub skip_json_whitespace : Bytes → Bytes
skip_json_whitespace [] = []
skip_json_whitespace (c ∷ s) = if is_json_space c then skip_json_whitespace s else c ∷ s

-- `pos >= buf_len || buf[pos] != c`, and the step past `c`.
unfoldable pub expect : ℕ → Bytes → Option Bytes
expect c [] = none
expect c (d ∷ s) = if not (d == c) then none else some s

-- The search for a key: the position behind its first occurrence.
unfoldable pub find_key : Bytes → Bytes → Option Bytes
find_key key [] = none
find_key key (c ∷ s) =
    let later = find_key key s in
    if leb (length key) (length (c ∷ s)) && same_bytes (take (length key) (c ∷ s)) key
    then some (drop (length key) (c ∷ s))
    else later

-- What one round of the loop over an object's fields does.
pub data FieldStep : Type 0 where
  malformed : FieldStep
  close comma : Bytes → FieldStep
  set_path set_sha256 : Bytes → Bytes → FieldStep

abbrev stored_path : Option (Bytes × Bytes) → FieldStep
stored_path none = malformed
stored_path (some (path, rest)) = set_path (c_str path) rest

abbrev stored_sha256 : Option (Bytes × Bytes) → FieldStep
stored_sha256 none = malformed
stored_sha256 (some (hex, rest)) =
    if not (length (c_str hex) == manifest_sha256_hex_len)
    then malformed
    else set_sha256 (c_str hex) rest

-- The value behind a field's key.
unfoldable pub field_value : Bytes → Bytes → FieldStep
field_value key s =
    if same_bytes (c_str key) (codes "path")
    then stored_path (extract_json_string (manifest_max_path_len + 1) s)
    else if same_bytes (c_str key) (codes "sha256")
    then stored_sha256 (extract_json_string (manifest_sha256_hex_len + 1) s)
    else malformed

abbrev after_colon : Bytes → Option Bytes → FieldStep
after_colon key none = malformed
after_colon key (some s) = field_value key (skip_json_whitespace s)

abbrev after_key : Option (Bytes × Bytes) → FieldStep
after_key none = malformed
after_key (some (key, s)) = after_colon key (expect b':' (skip_json_whitespace s))

abbrev at_field : Bytes → FieldStep
at_field [] = malformed
at_field (c ∷ s) =
    if c == b'}'
    then close s
    else if c == b','
    then comma s
    else after_key (extract_json_string 16 (c ∷ s))

unfoldable pub field_step : Bytes → FieldStep
field_step s = at_field (skip_json_whitespace s)

-- `!have_path || !have_sha256`
unfoldable pub finish_object : Option Bytes → Option Bytes → Bytes → Result (ManifestFile × Bytes)
finish_object none sha256 rest = err manifest_parse
finish_object (some path) none rest = err manifest_parse
finish_object (some path) (some hex) rest = ok (record { path = path; sha256_hex = hex }, rest)

-- The inner loop; `none` means that the fuel ran out.
unfoldable pub object_loop :
    ℕ → Bytes → Option Bytes → Option Bytes → Option (Result (ManifestFile × Bytes))
object_loop zero s path sha256 = none
object_loop (suc fuel) s path sha256 = elim (field_step s) [
  | malformed ↦ some (err manifest_parse)
  | close rest ↦ some (finish_object path sha256 rest)
  | comma rest ↦ object_loop fuel rest path sha256
  | set_path p rest ↦ object_loop fuel rest (some p) sha256
  | set_sha256 h rest ↦ object_loop fuel rest path (some h)
]

-- What one round of the loop over the array begins with.
pub data ArrayStep : Type 0 where
  malformed : ArrayStep
  close : ArrayStep
  comma object : Bytes → ArrayStep

abbrev at_element : Bytes → ArrayStep
at_element [] = ArrayStep.malformed
at_element (c ∷ s) =
    if c == b']'
    then ArrayStep.close
    else if c == b','
    then ArrayStep.comma s
    else if not (c == b'{')
    then ArrayStep.malformed
    else object s

unfoldable pub array_step : Bytes → ArrayStep
array_step s = at_element (skip_json_whitespace s)

abbrev pub grow : ℕ → ℕ
grow capacity = if capacity == 0 then 8 else capacity * 2 % 2 ^ 64

-- The outer loop. `realloc` gives room for so many files or fails.
unfoldable pub array_loop :
    (ℕ → Bool) → ℕ → Bytes → List ManifestFile → ℕ → Option (Result (List ManifestFile))
array_loop realloc zero s files capacity = none
array_loop realloc (suc fuel) s files capacity = elim (array_step s) [
  | ArrayStep.malformed ↦ some (err manifest_parse)
  | ArrayStep.close ↦ some (ok files)
  | ArrayStep.comma rest ↦ array_loop realloc fuel rest files capacity
  | object inside ↦ elim (object_loop (suc (length inside)) inside none none) [
    | none ↦ none
    | some (err e) ↦ some (err e)
    | some (ok (f, rest)) ↦ elim (length files == capacity) [
      | true ↦ elim (realloc (grow capacity)) [
        | false ↦ some (err io)
        | true ↦ array_loop realloc fuel rest (files ++ f ∷ []) (grow capacity)
      ]
      | false ↦ array_loop realloc fuel rest (files ++ f ∷ []) capacity
    ]
  ]
]

-- From the start of the buffer to the inside of the array.
unfoldable pub open_array : Bytes → Option Bytes
open_array buf = do
  s ← find_key (codes "\"files\"") buf
  s ← expect b':' (skip_json_whitespace s)
  expect b'[' (skip_json_whitespace s)

-- `parse_manifest_files`
unfoldable pub parse_manifest_files : (ℕ → Bool) → Bytes → Option (Result (List ManifestFile))
parse_manifest_files realloc buf = elim (open_array buf) [
  | none ↦ some (err manifest_parse)
  | some s ↦ array_loop realloc (suc (length s)) s [] 0
]
