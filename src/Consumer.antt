-- ===== src/Consumer.antt =====
-- consumer/src/main.c and config.h: the whole run of the consumer.
mod Failures
pub mod Steps
pub mod Input
pub mod Opened
pub mod Safety
pub mod Confined
pub mod Main
pub mod Versions
pub mod Installs
pub mod Arguments
pub mod Platform
use fota_secure.Base.{
  ℕ, zero, suc, ◌+◌, ◌-◌, ◌*◌, ◌%◌, ◌^◌, Bool, true, false, not, ◌&&◌, ◌||◌, List, [], ◌∷◌, ◌++◌,
  Option, none, some, Bytes, codes, ltb, leb, ◌==◌, same_bytes, if◌then◌else◌, length, take, drop,
  slice, replicate, ℤ, pos, negsuc,
}
use fota_secure.Device.{Device}
use fota_secure.Extract.{InstallMemory, installer_extract}
use fota_secure.Fcrypto.{
  Libcrypto, CryptoResult, load_public_key, load_private_key, verify_signature, unwrap_key,
  decrypt_payload, aes_key_size, aes_iv_size,
}
use fota_secure.Gunzip.{Zlib}
use fota_secure.Header.{Header, HeaderResult, header_parse, header_size, platform_tag_size}
use fota_secure.Install.{
  InstallError, unsafe_path, unsupported_entry, decompressed_too_large, manifest_missing,
  manifest_parse, manifest_mismatch, Result,
}
use fota_secure.Version.{
  Version, ParseResult, version_parse, DowngradeCheck, allow, blocked, downgrade_check,
}
use fota_secure.VersionFile.{
  ReadResult, no_version, version_read_installed, version_write_installed,
  read_downgrade_secret_hash,
}

abbrev pub config_platform_tag : Bytes
config_platform_tag = codes "GENERIC"

abbrev pub install_dir : Bytes
install_dir = codes "/opt/fota-secure/install"

abbrev pub version_file : Bytes
version_file = codes "/etc/fota-secure/version"

abbrev pub signing_public_key_file : Bytes
signing_public_key_file = codes "/etc/fota-secure/signing_public.pem"

abbrev pub device_private_key_file : Bytes
device_private_key_file = codes "/etc/fota-secure/device_private.pem"

abbrev pub downgrade_secret_hash_file : Bytes
downgrade_secret_hash_file = codes "/etc/fota-secure/downgrade_secret.hash"

-- The exit codes, under their names.
pub data Exit : Type 0 where
  success generic_failure up_to_date malformed_header platform_mismatch : Exit
  signature_failed downgrade_blocked insufficient_disk_space decryption_failed : Exit
  installer_rejected : Exit

pub exit_code : Exit → ℕ
exit_code success = 0
exit_code generic_failure = 1
exit_code Exit.up_to_date = 2
exit_code malformed_header = 3
exit_code platform_mismatch = 4
exit_code signature_failed = 5
exit_code downgrade_blocked = 6
exit_code insufficient_disk_space = 7
exit_code decryption_failed = 8
exit_code installer_rejected = 9

-- A step of `main` goes on with a value, or leaves with an exit code.
pub data Step {ℓ} (A : Type ℓ) : Type ℓ where
  go : A → Step A
  leave : Exit → Step A

infixl 5 ◌>>=◌ ◌>>◌
abbrev pub ◌>>=◌ {ℓ κ} : {A : Type ℓ} {B : Type κ} → Step A → (A → Step B) → Step B
go a >>= f = f a
leave e >>= f = leave e

abbrev pub ◌>>◌ {ℓ} : {B : Type ℓ} → Step (Unit {0}) → Step B → Step B
m >> k = m >>= λ _. k

-- `if (!test) return e;`
abbrev pub require : Bool → Exit → Step (Unit {0})
require true e = go tt
require false e = leave e

-- A value, or an early return.
abbrev pub some_or {ℓ} : {A : Type ℓ} → Exit → Option A → Step A
some_or e none = leave e
some_or e (some a) = go a

-- `platform_tag_matches`
unfoldable pub platform_tag_matches : Bytes → Bool
platform_tag_matches header_tag =
    if ltb platform_tag_size (length config_platform_tag)
    then false
    else same_bytes header_tag
        (config_platform_tag ++ replicate (platform_tag_size - length config_platform_tag) 0)

-- `install_result_to_exit_code`
unfoldable pub install_result_to_exit_code : InstallError → Exit
install_result_to_exit_code unsafe_path = installer_rejected
install_result_to_exit_code unsupported_entry = installer_rejected
install_result_to_exit_code decompressed_too_large = installer_rejected
install_result_to_exit_code manifest_missing = installer_rejected
install_result_to_exit_code manifest_parse = installer_rejected
install_result_to_exit_code manifest_mismatch = installer_rejected
install_result_to_exit_code _ = generic_failure

-- The loop over `argv[2 ..]`: the last secret that was given.
unfoldable pub parse_secret : List Bytes → Option Bytes → Option Bytes
parse_secret [] secret = secret
parse_secret (arg ∷ []) secret = secret
parse_secret (arg ∷ value ∷ rest) secret =
    let taken = parse_secret rest (some value) in
    let passed = parse_secret (value ∷ rest) secret in
    if same_bytes arg (codes "--downgrade-secret") then taken else passed

-- The growth of the input buffer, and the loop of `read_all` over what `fread` delivers: the outer
-- `none` means that the fuel ran out, the inner one that there was no memory.
unfoldable pub grow_input : (ℕ → Bool) → ℕ → ℕ → Option ℕ
grow_input realloc total capacity =
    if not (total == capacity)
    then some capacity
    else if realloc (capacity * 2 % 2 ^ 64)
    then some (capacity * 2 % 2 ^ 64)
    else none

unfoldable pub read_loop : (ℕ → Bool) → ℕ → Bytes → Bytes → ℕ → Option (Option Bytes)
read_loop realloc zero input buf capacity = none
read_loop realloc (suc fuel) input buf capacity = elim (grow_input realloc (length buf) capacity) [
  | none ↦ some none
  | some room ↦ elim (length (take (room - length buf) input) == 0) [
    | true ↦ some (some buf)
    | false ↦
        read_loop realloc fuel (drop (room - length buf) input)
          (buf ++ take (room - length buf) input) room
  ]
]

-- `read_all` of a stream that delivers these bytes, and whose error flag is set or not.
unfoldable pub read_all : (ℕ → Bool) → Bytes → Bool → Option (Option Bytes)
read_all realloc input error =
    if not (realloc 65536)
    then some none
    else elim (read_loop realloc (suc (length input)) input [] 65536) [
      | none ↦ none
      | some none ↦ some none
      | some (some buf) ↦ some (if error then none else some buf)
    ]

-- Whether the allocations of a run succeed, by their size.
pub record Memory : Type 0 where
  pub input : ℕ → Bool
  pub signed_data : ℕ → Bool
  pub plaintext : ℕ → Bool
  pub install : InstallMemory

-- What a local holds before it is written.
abbrev unset_header : Header
unset_header = record { platform_tag = []; fw_version = []; wrapped_key_len = 0; iv = [] }

abbrev header_or_leave : HeaderResult × Option Header → Step Header
header_or_leave (HeaderResult.ok, some h) = go h
header_or_leave _ = leave malformed_header

abbrev version_or_leave : ParseResult × Option Version → Step Version
version_or_leave (ParseResult.ok, some v) = go v
version_or_leave _ = leave malformed_header

abbrev installed_or_leave : ReadResult × Version → Step Version
installed_or_leave (ReadResult.ok, v) = go v
installed_or_leave _ = leave generic_failure

abbrev decide_downgrade : DowngradeCheck → Step (Unit {0})
decide_downgrade allow = go tt
decide_downgrade DowngradeCheck.up_to_date = leave Exit.up_to_date
decide_downgrade blocked = leave downgrade_blocked

-- The sections of a package.
pub record Sections : Type 0 where
  pub wrapped_key : Bytes
  pub signature : Bytes
  pub ciphertext : Bytes

abbrev pub signature_size : ℕ
signature_size = 256

unfoldable pub split_sections : Bytes → ℕ → Step Sections
split_sections d wrapped_key_len =
    let wrapped_key_end = header_size + wrapped_key_len in
    let signature_end = wrapped_key_end + signature_size in
    if ltb (length d) signature_end
    then leave malformed_header
    else go (record {
      wrapped_key = slice d header_size wrapped_key_len;
      signature = slice d wrapped_key_end signature_size;
      ciphertext = drop signature_end d;
    })

-- The header, then the wrapped key, then the ciphertext.
abbrev pub signed_part : Bytes → Sections → Bytes
signed_part d parts = take header_size d ++ (parts.wrapped_key ++ parts.ciphertext)

module _ (D : Device) (C : Libcrypto) (mem : Memory) where
  -- Header, platform, version and downgrade: the header and the new version.
  unfoldable pub check_header : Bytes → Option Bytes → D.State → Step (Header × Version)
  check_header d secret s = do
    header ← header_or_leave (header_parse (some d) (some unset_header))
    require (platform_tag_matches header.platform_tag) platform_mismatch
    new ← version_or_leave (version_parse (some header.fw_version) (some no_version))
    installed ← installed_or_leave (version_read_installed D (some version_file) s)
    decide_downgrade (
        downgrade_check C.sha256 new installed secret
          (read_downgrade_secret_hash D downgrade_secret_hash_file s))
    go (header, new)

  -- `f_bavail * f_frsize` in 64 bits against the size of the ciphertext.
  unfoldable pub check_space : Bytes → D.State → Step (Unit {0})
  check_space ciphertext s = do
    space ← some_or generic_failure (D.free_space install_dir s)
    require (not (ltb (space.0 * space.1 % 2 ^ 64) (length ciphertext))) insufficient_disk_space

  abbrev verified_or_leave : CryptoResult (Unit {0}) → Step (Unit {0})
  verified_or_leave (CryptoResult.ok _) = go tt
  verified_or_leave (CryptoResult.err e) = leave signature_failed

  unfoldable pub check_signature : Bytes → Sections → D.State → Step (Unit {0})
  check_signature d parts s = do
    key ← some_or generic_failure (load_public_key C D (some signing_public_key_file) s)
    require (mem.signed_data (length (signed_part d parts))) generic_failure
    verified_or_leave
        (verify_signature C (some key) (some (signed_part d parts)) (some parts.signature))

  abbrev recovered_or_leave : CryptoResult Bytes → Step Bytes
  recovered_or_leave (CryptoResult.ok b) = go b
  recovered_or_leave (CryptoResult.err e) = leave decryption_failed

  -- The plaintext: unwrap the key, then decrypt.
  unfoldable pub recover : Header → Sections → D.State → Step Bytes
  recover header parts s = do
    key ← some_or generic_failure (load_private_key C D (some device_private_key_file) s)
    aes_key ← recovered_or_leave (unwrap_key C (some key) (some parts.wrapped_key) aes_key_size)
    require (length aes_key == aes_key_size) decryption_failed
    require (mem.plaintext (length parts.ciphertext + aes_iv_size)) generic_failure
    recovered_or_leave (decrypt_payload C aes_key header.iv parts.ciphertext)

  -- All that comes before the installer: the plaintext and the new version.
  unfoldable pub open_package : Bytes → Option Bytes → D.State → Step (Bytes × Version)
  open_package d secret s = do
    checked ← check_header d secret s
    parts ← split_sections d checked.0.wrapped_key_len
    check_space parts.ciphertext s
    check_signature d parts s
    plaintext ← recover checked.0 parts s
    go (plaintext, checked.1)

  -- What `main` does once the files are written.
  unfoldable pub record_version : Version → D.State → Exit × D.State
  record_version new s = elim (version_write_installed D (some version_file) (some new) s).0 [
    | pos n ↦
        if n == 0
        then (success, (version_write_installed D (some version_file) (some new) s).1)
        else (generic_failure, (version_write_installed D (some version_file) (some new) s).1)
    | negsuc n ↦ (generic_failure, (version_write_installed D (some version_file) (some new) s).1)
  ]

  module _ (Z : Zlib) where
    unfoldable pub install_package : Bytes × Version → D.State → Option (Exit × D.State)
    install_package (plaintext, new) s =
        elim (installer_extract D Z C.sha256 mem.install (some plaintext) (some install_dir) s) [
          | none ↦ none
          | some (Result.err e, s') ↦ some (install_result_to_exit_code e, s')
          | some (Result.ok _, s') ↦ some (record_version new s')
        ]

    -- `main` from the header on, with the bytes that were read.
    unfoldable pub run : Bytes → Option Bytes → D.State → Option (Exit × D.State)
    run d secret s = elim (open_package d secret s) [
      | leave e ↦ some (e, s)
      | go opened ↦ install_package opened s
    ]

    -- The input by its name: `none` if it cannot be opened, otherwise what `read_all` makes of it.
    unfoldable pub read_input : Bytes → D.State → Option (Option Bytes)
    read_input path s =
        if same_bytes path (codes "-")
        then read_all mem.input (D.stdin s) (D.stdin_error s)
        else elim (D.read_file path s) [
          | none ↦ some none
          | some input ↦ read_all mem.input input (D.read_error path s)
        ]

    -- `main`, on `argv[1 ..]`: the exit and the state; `none` means that a loop's fuel ran out.
    unfoldable pub main : List Bytes → D.State → Option (Exit × D.State)
    main [] s = some (generic_failure, s)
    main (path ∷ rest) s = elim (read_input path s) [
      | none ↦ none
      | some none ↦ some (generic_failure, s)
      | some (some d) ↦ run d (parse_secret rest none) s
    ]
