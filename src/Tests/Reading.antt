-- ===== src/Tests/Reading.antt =====
-- Witnesses for the theorems on headers, versions, octal fields and the cryptographic calls.
use fota_secure.Base.{
  ◌<◌, ◌≤◌, ◌≡◌, ◌≢◌, ◌↔◌, ◌⊎◌, refl, ◌++◌, none, some, arith, Bytes, codes, same_bytes, length,
  replicate, drop, get_or, AreBytes, c_str, ℤ, pos, negsuc,
}
use fota_secure.Consumer.{version_file, downgrade_secret_hash_file}
use fota_secure.Fcrypto.{CryptoResult, verify_signature, unwrap_key, decrypt_payload}
use fota_secure.Fcrypto.Decrypt.{IsPlaintext, HasSizes, decrypt_payload_iff}
use fota_secure.Fcrypto.Unwrap.{IsUnwrapped, unwrap_key_iff}
use fota_secure.Fcrypto.Signature.{IsVerified, verify_signature_iff}
use fota_secure.Header.{HeaderResult, header_parse, header_size}
use fota_secure.Header.Layout.{IsHeader, encode}
use fota_secure.Header.Laws.{
  header_parse-encode, encode-header_parse, header_parse_error, header_parse_errors,
}
use fota_secure.Tar.{parse_octal_field}
use fota_secure.Tar.Octal.{OctalField, parse_octal_field_iff}
use fota_secure.Version.{
  Version, ParseResult, version_parse, version_compare, compare_parts, downgrade_check, allow,
  up_to_date,
}
use fota_secure.Version.Compare.{IsOlder, version_compare_iff, version_compare_trans}
use fota_secure.Version.Dotted.{Spells}
use fota_secure.Version.Downgrade.{IsOverride, downgrade_check_iff}
use fota_secure.Version.Parse.{version_parse_iff}
use fota_secure.VersionFile.{
  ReadResult, version_read_installed, version_write_installed, read_downgrade_secret_hash,
  write_text, render, decimal, digits,
}
use fota_secure.VersionFile.Reads.{version_read_installed_iff, read_downgrade_secret_hash_iff}
use fota_secure.VersionFile.Contents.{ReadsAs}
use fota_secure.VersionFile.RoundTrip.{version_of, read-write_installed}
use fota_secure.Tests.Package.{package_header, device_files}
use fota_secure.Tests.World.{find_file, listing_device, listing_device-ReadsBack, copying_crypto}

abbrev hash : Bytes → ℤ × Bytes
hash = copying_crypto.sha256

package_header-IsHeader : IsHeader package_header
package_header-IsHeader = record {
  tag_size = refl;
  version_size = refl;
  iv_size = refl;
  key_len = omega arith;
}

header_parse-encode_example :
    header_parse (some (encode package_header ++ codes "rest")) (some package_header)
    ≡ (HeaderResult.ok, some package_header)
header_parse-encode_example =
    header_parse-encode package_header package_header (codes "rest") package_header-IsHeader

abbrev old_version : Version
old_version = version_of 1 2 9 0

abbrev new_version : Version
new_version = version_of 1 10 0 0

version_compare_iff_example :
    ((version_compare old_version new_version ≡ negsuc 0)
      ↔ IsOlder old_version.parts new_version.parts)
    × ((version_compare old_version new_version ≡ pos 1)
        ↔ IsOlder new_version.parts old_version.parts)
    × ((version_compare old_version new_version ≡ pos 0) ↔ (old_version.parts ≡ new_version.parts))
version_compare_iff_example = version_compare_iff old_version new_version refl

version_compare_trans_example : version_compare old_version (version_of 2 0 0 0) ≡ negsuc 0
unfolding version_compare compare_parts
version_compare_trans_example =
    version_compare_trans old_version new_version (version_of 2 0 0 0) refl refl

version_parse_iff_example :
    (version_parse (some (codes "1.10.0.0")) (some old_version)
      ≡ (ParseResult.ok, some new_version))
    ↔ ((length new_version.parts ≡ 4) × Spells new_version.parts (c_str (codes "1.10.0.0")))
version_parse_iff_example = version_parse_iff (codes "1.10.0.0") old_version new_version

downgrade_check_iff_example :
    ((downgrade_check hash new_version old_version none none ≡ allow) ↔ (
      IsOlder old_version.parts new_version.parts
      ⊎ (IsOlder new_version.parts old_version.parts × IsOverride hash none none)))
    × ((downgrade_check hash new_version old_version none none ≡ up_to_date)
        ↔ (new_version.parts ≡ old_version.parts))
downgrade_check_iff_example = downgrade_check_iff hash new_version old_version refl none none

version_read_installed_iff_example :
    (version_read_installed listing_device (some version_file) device_files
      ≡ (ReadResult.ok, old_version))
    ↔ ReadsAs (find_file version_file device_files) (ReadResult.ok, old_version)
version_read_installed_iff_example =
    version_read_installed_iff listing_device version_file device_files (ReadResult.ok, old_version)

abbrev secret_hash : Bytes
secret_hash = replicate 32 7

read_downgrade_secret_hash_iff_example :
    (read_downgrade_secret_hash listing_device downgrade_secret_hash_file device_files
      ≡ some secret_hash)
    ↔ ((find_file downgrade_secret_hash_file device_files ≡ some secret_hash)
        × (length secret_hash ≡ 32))
read_downgrade_secret_hash_iff_example =
    read_downgrade_secret_hash_iff listing_device downgrade_secret_hash_file secret_hash
      device_files

new_version-written :
    (version_write_installed listing_device (some version_file) (some new_version) device_files).0
    ≡ pos 0
unfolding version_write_installed write_text render decimal digits
new_version-written = refl

read-write_installed_example :
    version_read_installed listing_device
      (some version_file)
      (version_write_installed listing_device (some version_file) (some new_version) device_files).1
    ≡ (ReadResult.ok, new_version)
read-write_installed_example =
    read-write_installed listing_device listing_device-ReadsBack version_file new_version
      device_files (record { four = refl; words = omega arith }) new_version-written

parse_octal_field_iff_example :
    (parse_octal_field (codes " 0644 ") ≡ some 420) ↔ OctalField (codes " 0644 ") 420
parse_octal_field_iff_example = parse_octal_field_iff (codes " 0644 ") 420 (omega arith)

verify_signature_iff_example :
    (verify_signature copying_crypto
        (some (codes "key"))
        (some (codes "text"))
        (some (codes "short"))
      ≡ CryptoResult.ok tt)
    ↔ IsVerified copying_crypto (some (codes "key")) (some (codes "text")) (some (codes "short"))
verify_signature_iff_example =
    verify_signature_iff copying_crypto (some (codes "key")) (some (codes "text"))
      (some (codes "short"))

unwrap_key_iff_example :
    (unwrap_key copying_crypto (some (codes "key")) (some (replicate 32 9)) 32
      ≡ CryptoResult.ok (replicate 32 9))
    ↔ IsUnwrapped copying_crypto (codes "key") (replicate 32 9) 32 (replicate 32 9)
unwrap_key_iff_example =
    unwrap_key_iff copying_crypto (codes "key") (replicate 32 9) 32 (replicate 32 9)

decrypt_payload_iff_example :
    (decrypt_payload copying_crypto (replicate 32 9) (replicate 16 7) (codes "data")
      ≡ CryptoResult.ok (codes "data"))
    ↔ (HasSizes copying_crypto (replicate 32 9) (replicate 16 7) (codes "data")
        × IsPlaintext copying_crypto
            (replicate 32 9)
            (replicate 16 7)
            (codes "data")
            (codes "data"))
decrypt_payload_iff_example =
    decrypt_payload_iff copying_crypto (replicate 32 9) (replicate 16 7) (codes "data")
      (codes "data")

encoded_bytes : AreBytes (encode package_header)
unfolding encode
encoded_bytes = omega arith

encoded_parsed :
    header_parse (some (encode package_header)) (some package_header)
    ≡ (HeaderResult.ok, some package_header)
unfolding header_parse encode same_bytes
encoded_parsed = refl

encode-header_parse_example :
    IsHeader package_header
    × (encode package_header ++ drop header_size (encode package_header) ≡ encode package_header)
encode-header_parse_example =
    encode-header_parse (encode package_header) package_header package_header encoded_bytes
      encoded_parsed

short_refused : (header_parse (some (codes "short")) (some package_header)).0 ≢ HeaderResult.ok
unfolding header_parse
short_refused e = cc

header_parse_error_example :
    (header_parse (some (codes "short")) (some package_header)).1 ≡ some package_header
header_parse_error_example =
    header_parse_error (some (codes "short")) (some package_header) short_refused

header_parse_errors_example :
    (((header_parse (some (codes "short")) (some package_header)).0 ≡ HeaderResult.err_truncated)
      ↔ (5 < 51))
    × (((header_parse (some (codes "short")) (some package_header)).0 ≡ HeaderResult.err_bad_magic)
        ↔ ((51 ≤ 5) × (codes "shor" ≢ codes "FOTS")))
    × (((header_parse (some (codes "short")) (some package_header)).0
          ≡ HeaderResult.err_bad_version)
        ↔ ((51 ≤ 5) × (codes "shor" ≡ codes "FOTS") × (get_or (codes "short") 4 0 ≢ 1)))
header_parse_errors_example = header_parse_errors (codes "short") package_header
