-- ===== src/Verify.antt =====
-- consumer/src/installer.c: `fota_verify_manifest` and what it calls but the parser.
pub mod Search
pub mod Listing
pub mod Duplicate
use fota_secure.Base.{
  ℕ, ◌+◌, ◌/◌, ◌%◌, Bool, true, false, not, ◌&&◌, List, [], ◌∷◌, Option, none, some, Bytes, codes,
  ◌==◌, same_bytes, if◌then◌else◌, length, get_or, max, ℤ, is_one,
}
use fota_secure.Install.{invalid_arg, manifest_missing, manifest_mismatch, io, Result, ok, err}
use fota_secure.Manifest.{ManifestFile, parse_manifest_files}
use fota_secure.Tar.{TarEntry, EntryType, file, directory}

abbrev pub manifest_name : Bytes
manifest_name = codes "manifest.json"

abbrev hex_digits : Bytes
hex_digits = codes "0123456789abcdef"

-- `bytes_to_hex_lower`; `b >> 4` and `b & 0x0F` are the quotient and the rest by 16.
unfoldable pub bytes_to_hex_lower : Bytes → Bytes
bytes_to_hex_lower [] = []
bytes_to_hex_lower (b ∷ s) =
    get_or hex_digits (b / 16) 0 ∷ get_or hex_digits (b % 16) 0 ∷ bytes_to_hex_lower s

abbrev pub is_file : TarEntry → Bool
is_file e = elim e.kind [ file ↦ true | directory ↦ false ]

-- `find_entry`. The search inside `fota_verify_manifest` makes the same test; the index that it
-- finds serves to fetch the entry, and to set a flag in `matched` that is never read.
unfoldable pub find_entry : List TarEntry → Bytes → Option TarEntry
find_entry [] path = none
find_entry (e ∷ es) path =
    if is_file e && same_bytes e.path path then some e else find_entry es path

-- The file entries but the manifest.
unfoldable pub count_files : List TarEntry → ℕ
count_files [] = 0
count_files (e ∷ es) =
    (if is_file e && not (same_bytes e.path manifest_name) then 1 else 0) + count_files es

module _ (sha256 : Bytes → ℤ × Bytes) where
  -- The hash of an entry against a listing.
  unfoldable pub check_digest : TarEntry → ManifestFile → Result (Unit {0})
  check_digest e f =
      let (rc, digest) = sha256 e.content in
      if not (is_one rc)
      then err io
      else if not (same_bytes (bytes_to_hex_lower digest) f.sha256_hex)
      then err manifest_mismatch
      else ok tt

  -- The loop over the listings; the number counts those that matched.
  unfoldable pub match_loop : List TarEntry → List ManifestFile → ℕ → Result ℕ
  match_loop entries [] matched = ok matched
  match_loop entries (f ∷ fs) matched = elim (find_entry entries f.path) [
    | none ↦ err manifest_mismatch
    | some e ↦ elim (check_digest e f) [
      | err reason ↦ err reason
      | ok _ ↦ match_loop entries fs (matched + 1)
    ]
  ]

  unfoldable pub check_count : List TarEntry → Result ℕ → Result (Unit {0})
  check_count entries (err reason) = err reason
  check_count entries (ok matched) =
      if not (matched == count_files entries) then err manifest_mismatch else ok tt

  -- `calloc` gets one byte for each entry, and at least one.
  unfoldable pub check_listing : (ℕ → Bool) → List TarEntry → List ManifestFile → Result (Unit {0})
  check_listing calloc entries files =
      if not (calloc (max (length entries) 1))
      then err io
      else check_count entries (match_loop entries files 0)

  -- `fota_verify_manifest`; `none` means that the fuel of the parser ran out.
  unfoldable pub verify_manifest :
      (ℕ → Bool) → (ℕ → Bool) → Option (List TarEntry) → Option (Result (Unit {0}))
  verify_manifest realloc calloc none = some (err invalid_arg)
  verify_manifest realloc calloc (some entries) = elim (find_entry entries manifest_name) [
    | none ↦ some (err manifest_missing)
    | some m ↦ elim (parse_manifest_files realloc m.content) [
      | none ↦ none
      | some (err reason) ↦ some (err reason)
      | some (ok files) ↦ some (check_listing calloc entries files)
    ]
  ]
