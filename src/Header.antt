-- ===== src/Header.antt =====
-- consumer/src/header.c and header.h: the fixed header of a package.
-- A pointer that may be NULL is an `Option`; `*out` is passed in and handed back.
pub mod Layout
pub mod Laws
use fota_secure.Base.{
  ℕ, ◌*◌, ◌%◌, ◌^◌, bit_or, Bool, not, Option, none, some, codes, Bytes, ltb, ◌==◌, same_bytes,
  if◌then◌else◌, length, get_or, take, slice,
}

abbrev pub magic : Bytes
magic = codes "FOTS"

abbrev pub format_version : ℕ
format_version = 0x01

abbrev pub platform_tag_size : ℕ
platform_tag_size = 16

abbrev pub fw_version_size : ℕ
fw_version_size = 12

abbrev pub iv_size : ℕ
iv_size = 16

abbrev pub header_size : ℕ
header_size = 51

pub data HeaderResult : Type 0 where
  ok err_truncated err_bad_magic err_bad_version : HeaderResult

pub record Header : Type 0 where
  pub platform_tag : Bytes
  pub fw_version : Bytes
  pub wrapped_key_len : ℕ
  pub iv : Bytes

-- The local `parsed`, built once every check has passed.
abbrev read_fields : Bytes → Header
read_fields d = record {
  platform_tag = slice d 5 platform_tag_size;
  fw_version = slice d 21 fw_version_size;
  wrapped_key_len = bit_or (get_or d 33 0 * 2 ^ 8) (get_or d 34 0) % 2 ^ 16;
  iv = slice d 35 iv_size;
}

-- `fota_header_parse`, with the new content of `*out`.
unfoldable pub header_parse : Option Bytes → Option Header → HeaderResult × Option Header
header_parse none out = (err_truncated, out)
header_parse (some d) none = (err_truncated, none)
header_parse (some d) (some old) =
    if ltb (length d) header_size
    then (err_truncated, some old)
    else if not (same_bytes (take 4 d) magic)
    then (err_bad_magic, some old)
    else if not (get_or d 4 0 == format_version)
    then (err_bad_version, some old)
    else (ok, some (read_fields d))
