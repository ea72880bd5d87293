-- ===== src/Tar.antt =====
-- consumer/src/installer.c: tar header parsing and `fota_tar_parse`.
pub mod Octal
pub mod OctalRange
pub mod Blocks
pub mod Digits
pub mod Layout
pub mod Fields
pub mod RoundTrip
pub mod Entry
pub mod Loop
use fota_secure.Base.{
  ℕ, zero, suc, ◌+◌, ◌-◌, ◌*◌, ◌/◌, ◌%◌, ◌^◌, Bool, true, false, not, ◌&&◌, ◌||◌, List, [], ◌∷◌,
  ◌++◌, Option, none, some, Bytes, ltb, leb, ◌==◌, c_str, if◌then◌else◌, length, get_or, take,
  slice,
}
use fota_secure.Install.{
  InstallError, invalid_arg, malformed_tar, unsafe_path, unsupported_entry, io, Result, ok, err,
  ◌>>=◌, ◌>>◌, require,
}
use fota_secure.TarPath.{path_is_safe}

abbrev pub tar_name_max : ℕ
tar_name_max = 100

abbrev pub tar_block_size : ℕ
tar_block_size = 512

abbrev pub tar_typeflag_offset : ℕ
tar_typeflag_offset = 156

abbrev pub tar_prefix_offset : ℕ
tar_prefix_offset = 345

abbrev pub tar_prefix_size : ℕ
tar_prefix_size = 155

abbrev pub tar_size_offset : ℕ
tar_size_offset = 124

abbrev pub tar_size_field_size : ℕ
tar_size_field_size = 12

abbrev pub tar_chksum_offset : ℕ
tar_chksum_offset = 148

abbrev pub tar_chksum_field_size : ℕ
tar_chksum_field_size = 8

pub data EntryType : Type 0 where
  file directory : EntryType

-- `data` and `size` are the bytes that they delimit.
pub record TarEntry : Type 0 where
  pub path : Bytes
  pub kind : EntryType
  pub content : Bytes

unfoldable pub is_all_zero : Bytes → Bool
is_all_zero [] = true
is_all_zero (b ∷ s) = b == 0 && is_all_zero s

-- The loop over the field; the flag is `seen_digit`, and a `size_t` has 64 bits.
unfoldable pub octal_loop : Bytes → ℕ → Bool → Option ℕ
octal_loop [] value seen = if seen then some value else none
octal_loop (c ∷ s) value seen =
    let skip = octal_loop s value seen in
    let digit = octal_loop s ((value * 2 ^ 3 + (c - b'0')) % 2 ^ 64) true in
    if c == 0 || c == b' '
    then (if seen then some value else skip)
    else if ltb c b'0' || ltb b'7' c
    then none
    else digit

abbrev pub parse_octal_field : Bytes → Option ℕ
parse_octal_field field = octal_loop field 0 false

-- The sum over `header[i ..]`; the checksum field counts as spaces.
unfoldable pub checksum_loop : ℕ → Bytes → ℕ → ℕ
checksum_loop i [] sum = sum
checksum_loop i (b ∷ header) sum = checksum_loop (i + 1) header (
    (sum
      + (if leb tar_chksum_offset i && ltb i (tar_chksum_offset + tar_chksum_field_size)
          then b' '
          else b))
    % 2 ^ 64)

abbrev pub compute_header_checksum : Bytes → ℕ
compute_header_checksum header = checksum_loop 0 (take tar_block_size header) 0

unfoldable pub checksum_matches : Bytes → Bool
checksum_matches header =
    elim (parse_octal_field (slice header tar_chksum_offset tar_chksum_field_size)) [
      | none ↦ false
      | some stored ↦ stored == compute_header_checksum header
    ]

unfoldable pub entry_type : ℕ → Result EntryType
entry_type typeflag =
    if typeflag == b'0' || typeflag == 0
    then ok file
    else if typeflag == b'5'
    then ok directory
    else err unsupported_entry

unfoldable pub entry_size : EntryType → Bytes → Result ℕ
entry_size kind header =
    elim (parse_octal_field (slice header tar_size_offset tar_size_field_size)) [
      | none ↦ err malformed_tar
      | some declared ↦ ok (elim kind [ directory ↦ 0 | file ↦ declared ])
    ]

-- Where the next header begins, in `size_t`.
unfoldable pub next_offset : ℕ → ℕ → ℕ
next_offset offset size =
    ((offset + tar_block_size) % 2 ^ 64
      + (size + tar_block_size - 1) % 2 ^ 64 / tar_block_size * tar_block_size)
    % 2 ^ 64

-- One header at `offset`, which is not all zero: the entry, and where the next header begins.
unfoldable pub parse_entry : Bytes → ℕ → Result (TarEntry × ℕ)
parse_entry tar offset =
    let header = slice tar offset tar_block_size in
    let name = c_str (take tar_name_max header) in
    do
      require (checksum_matches header) malformed_tar
      require (is_all_zero (slice header tar_prefix_offset tar_prefix_size)) unsupported_entry
      require (path_is_safe (some name)) unsafe_path
      kind ← entry_type (get_or header tar_typeflag_offset 0)
      size ← entry_size kind header
      require
          (not (ltb (next_offset offset size) offset || ltb (length tar) (next_offset offset size)))
          malformed_tar
      ok (
        record { path = name; kind = kind; content = slice tar (offset + tar_block_size) size },
        next_offset offset size,
      )

abbrev pub grow : ℕ → ℕ
grow capacity = if capacity == 0 then 16 else capacity * 2 % 2 ^ 64

-- The loop. `realloc` gives room for so many entries or fails; each size is asked for once.
-- `none` means that the fuel ran out.
unfoldable pub tar_loop :
    (ℕ → Bool) → ℕ → Bytes → ℕ → List TarEntry → ℕ → Option (Result (List TarEntry))
tar_loop realloc zero tar offset entries capacity = none
tar_loop realloc (suc fuel) tar offset entries capacity =
    if not (ltb offset (length tar))
    then some (err malformed_tar)
    else if ltb (length tar - offset) tar_block_size
    then some (err malformed_tar)
    else if is_all_zero (slice tar offset tar_block_size)
    then some (ok entries)
    else elim (parse_entry tar offset) [
      | err e ↦ some (err e)
      | ok (entry, next) ↦ elim (length entries == capacity) [
        | true ↦ elim (realloc (grow capacity)) [
          | false ↦ some (err io)
          | true ↦ tar_loop realloc fuel tar next (entries ++ entry ∷ []) (grow capacity)
        ]
        | false ↦ tar_loop realloc fuel tar next (entries ++ entry ∷ []) capacity
      ]
    ]

-- `fota_tar_parse`. Each round moves at least one block on, so the length is fuel enough.
unfoldable pub tar_parse : (ℕ → Bool) → Option Bytes → Option (Result (List TarEntry))
tar_parse realloc none = some (err invalid_arg)
tar_parse realloc (some tar) = tar_loop realloc (suc (length tar)) tar 0 [] 0
