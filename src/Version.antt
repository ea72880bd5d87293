-- ===== src/Version.antt =====
-- consumer/src/version.c and version.h: firmware versions and the downgrade decision.
pub mod Dotted
pub mod Parse
pub mod Compare
pub mod Downgrade
use fota_secure.Base.{
  ℕ, zero, ◌+◌, ◌-◌, ◌*◌, ◌%◌, ◌^◌, Bool, true, false, not, ◌||◌, List, [], ◌∷◌, ◌++◌, Option, none,
  some, Bytes, ltb, leb, ◌==◌, same_bytes, c_str, if◌then◌else◌, ◌>>=◌, length, ℤ, pos, negsuc,
  is_one,
}

abbrev pub version_parts : ℕ
version_parts = 4

abbrev pub secret_hash_size : ℕ
secret_hash_size = 32

-- `uint32_t parts[4]`
pub record Version : Type 0 where
  pub parts : List ℕ

pub data ParseResult : Type 0 where
  ok err_malformed : ParseResult

-- The inner loop over one component: `value` is a uint64_t, and more than 32 bits are an overflow.
unfoldable pub component_value : Bytes → ℕ → Option ℕ
component_value [] value = some value
component_value (c ∷ s) value =
    let value' = (value * 10 + (c - b'0')) % 2 ^ 64 in
    if ltb 0xFFFFFFFF value' then none else component_value s value'

-- A boundary: the component `data[component_start .. i)` is checked, read and stored.
unfoldable pub close_component : Bytes → List ℕ → Option (List ℕ)
unfolding component_value
close_component component parts =
    if length component == 0 || leb version_parts (length parts)
    then none
    else (do value ← component_value component 0; some (parts ++ (value % 2 ^ 32) ∷ []))

-- The loop over `data[0 .. content_len]`. The second argument is the component read so far.
unfoldable pub scan : Bytes → Bytes → List ℕ → Option (List ℕ)
unfolding close_component
scan [] component parts = close_component component parts
scan (c ∷ s) component parts = elim (c == b'.') [
  | true ↦ do parts' ← close_component component parts; scan s [] parts'
  | false ↦ if ltb c b'0' || ltb b'9' c then none else scan s (component ++ c ∷ []) parts
]

-- The test and the copy behind the loop.
unfoldable pub finish : Option (List ℕ) → Version → ParseResult × Option Version
finish none old = (err_malformed, some old)
finish (some parts) old =
    if not (length parts == version_parts)
    then (err_malformed, some old)
    else (ok, some (record { parts = parts }))

-- `fota_version_parse`, with the new content of `*out`.
unfoldable pub version_parse : Option Bytes → Option Version → ParseResult × Option Version
unfolding scan finish c_str
version_parse none out = (err_malformed, out)
version_parse (some d) none = (err_malformed, none)
version_parse (some d) (some old) =
    if length d == 0 || length (c_str d) == 0
    then (err_malformed, some old)
    else finish (scan (c_str d) [] []) old

-- The loop of `fota_version_compare`; both arrays have four parts.
unfoldable pub compare_parts : List ℕ → List ℕ → ℤ
compare_parts [] bs = pos 0
compare_parts (a ∷ as') [] = pos 0
compare_parts (a ∷ as') (b ∷ bs) =
    if ltb a b then negsuc 0 else if ltb b a then pos 1 else compare_parts as' bs

unfoldable pub version_compare : Version → Version → ℤ
unfolding compare_parts
version_compare a b = compare_parts a.parts b.parts

pub data DowngradeCheck : Type 0 where
  allow up_to_date blocked : DowngradeCheck

abbrev is_positive : ℤ → Bool
is_positive (pos n) = ltb 0 n
is_positive (negsuc n) = false

abbrev is_zero : ℤ → Bool
is_zero (pos n) = n == 0
is_zero (negsuc n) = false

-- The test of the secret. `sha256` is `EVP_Digest`: its return code, and the digest that it wrote.
unfoldable pub check_secret : (Bytes → ℤ × Bytes) → Bytes → Bytes → DowngradeCheck
check_secret sha256 secret stored =
    let (rc, computed) = sha256 secret in
    if not (is_one rc) || not (length computed == secret_hash_size)
    then blocked
    else if same_bytes computed stored
    then allow
    else blocked

unfoldable pub check_override : (Bytes → ℤ × Bytes) → Option Bytes → Option Bytes → DowngradeCheck
unfolding check_secret
check_override sha256 secret none = blocked
check_override sha256 none (some stored) = blocked
check_override sha256 (some secret) (some stored) =
    if length secret == 0 then blocked else check_secret sha256 secret stored

-- `fota_downgrade_check`
unfoldable pub downgrade_check :
    (Bytes → ℤ × Bytes) → Version → Version → Option Bytes → Option Bytes → DowngradeCheck
unfolding check_override
downgrade_check sha256 new installed secret stored =
    let cmp = version_compare new installed in
    if is_positive cmp
    then allow
    else if is_zero cmp
    then up_to_date
    else check_override sha256 secret stored
