-- ===== src/Consumer/Failures.antt =====
-- consumer/src/main.c: the early returns of a run and their exit codes.
use fota_secure.Base.{
  arith, refl, ◌≡◌, ◌≢◌, Bool, true, false, Option, none, some, Bytes, ℕ, length, ◌==◌, ◌+◌,
}
use fota_secure.Device.{Device}
use fota_secure.Fcrypto.{
  Libcrypto, CryptoResult, load_public_key, load_private_key, unwrap_key, aes_key_size, aes_iv_size,
}
use fota_secure.Header.{Header, HeaderResult, header_parse}
use fota_secure.Install.{InstallError}
use fota_secure.Version.{
  Version, ParseResult, version_parse, DowngradeCheck, allow, blocked, downgrade_check,
}
use fota_secure.VersionFile.{
  ReadResult, no_version, version_read_installed, read_downgrade_secret_hash,
}
use fota_secure.Consumer.{
  Exit, success, generic_failure, malformed_header, platform_mismatch, signature_failed,
  downgrade_blocked, insufficient_disk_space, decryption_failed, Step, go, leave, ◌>>=◌, require,
  some_or, Memory, check_header, check_space, check_signature, recover, split_sections,
  open_package, unset_header, install_result_to_exit_code, header_or_leave, version_or_leave,
  installed_or_leave, platform_tag_matches, decide_downgrade, verified_or_leave, recovered_or_leave,
  Sections, signed_part, version_file, install_dir, signing_public_key_file,
  device_private_key_file, downgrade_secret_hash_file,
}

-- The step does not leave with the code of success.
pub record IsFailing {A : Type 0} (m : Step A) : Type 0 where
  pub failed : (e : Exit) → m ≡ leave e → e ≢ success

IsFailing-go : {A : Type 0} (a : A) → IsFailing (go a)
IsFailing-go a = record { failed = λ e h. cc }

IsFailing-leave : {A : Type 0} (e : Exit) → e ≢ success → IsFailing {A = A} (leave e)
IsFailing-leave e n = record { failed = λ e' h same. n (ground arith) }

IsFailing-bind :
    {A B : Type 0} (m : Step A) (f : A → Step B)
    → IsFailing m
    → ((a : A) → IsFailing (f a))
    → IsFailing (m >>= f)
IsFailing-bind (go a) f hm hf = hf a
IsFailing-bind (leave e) f hm hf = IsFailing-leave e (hm.failed e refl)

IsFailing-require : (t : Bool) (e : Exit) → e ≢ success → IsFailing (require t e)
IsFailing-require true e n = IsFailing-go tt
IsFailing-require false e n = IsFailing-leave e n

IsFailing-some_or : {A : Type 0} (e : Exit) (o : Option A) → e ≢ success → IsFailing (some_or e o)
IsFailing-some_or e none n = IsFailing-leave e n
IsFailing-some_or e (some a) n = IsFailing-go a

header_or_leave-IsFailing : (r : HeaderResult × Option Header) → IsFailing (header_or_leave r)
header_or_leave-IsFailing (HeaderResult.ok, some h) = IsFailing-go h
header_or_leave-IsFailing (HeaderResult.ok, none) = IsFailing-leave malformed_header (λ e. cc)
header_or_leave-IsFailing (HeaderResult.err_truncated, h) =
    IsFailing-leave malformed_header (λ e. cc)
header_or_leave-IsFailing (HeaderResult.err_bad_magic, h) =
    IsFailing-leave malformed_header (λ e. cc)
header_or_leave-IsFailing (HeaderResult.err_bad_version, h) =
    IsFailing-leave malformed_header (λ e. cc)

version_or_leave-IsFailing : (r : ParseResult × Option Version) → IsFailing (version_or_leave r)
version_or_leave-IsFailing (ParseResult.ok, some v) = IsFailing-go v
version_or_leave-IsFailing (ParseResult.ok, none) = IsFailing-leave malformed_header (λ e. cc)
version_or_leave-IsFailing (ParseResult.err_malformed, v) =
    IsFailing-leave malformed_header (λ e. cc)

installed_or_leave-IsFailing : (r : ReadResult × Version) → IsFailing (installed_or_leave r)
installed_or_leave-IsFailing (ReadResult.ok, v) = IsFailing-go v
installed_or_leave-IsFailing (ReadResult.err_malformed_contents, v) =
    IsFailing-leave generic_failure (λ e. cc)

decide_downgrade-IsFailing : (r : DowngradeCheck) → IsFailing (decide_downgrade r)
decide_downgrade-IsFailing allow = IsFailing-go tt
decide_downgrade-IsFailing DowngradeCheck.up_to_date = IsFailing-leave Exit.up_to_date (λ e. cc)
decide_downgrade-IsFailing blocked = IsFailing-leave downgrade_blocked (λ e. cc)

split_sections-IsFailing : (d : Bytes) (n : ℕ) → IsFailing (split_sections d n)
unfolding split_sections
split_sections-IsFailing d n = record { failed = λ e h same. ground arith }

module _ (D : Device) (C : Libcrypto) (mem : Memory) where
  recovered_or_leave-IsFailing : (r : CryptoResult Bytes) → IsFailing (recovered_or_leave D C mem r)
  recovered_or_leave-IsFailing (CryptoResult.ok b) = IsFailing-go b
  recovered_or_leave-IsFailing (CryptoResult.err e) = IsFailing-leave decryption_failed (λ h. cc)

  verified_or_leave-IsFailing :
      (r : CryptoResult (Unit {0})) → IsFailing (verified_or_leave D C mem r)
  verified_or_leave-IsFailing (CryptoResult.ok b) = IsFailing-go tt
  verified_or_leave-IsFailing (CryptoResult.err e) = IsFailing-leave signature_failed (λ h. cc)

  check_header-IsFailing :
      (d : Bytes) (secret : Option Bytes) (s : D.State)
      → IsFailing (check_header D C mem d secret s)
  unfolding check_header
  check_header-IsFailing d secret s =
      IsFailing-bind (header_or_leave (header_parse (some d) (some unset_header))) _
        (header_or_leave-IsFailing _)
        (λ header.
          IsFailing-bind (require (platform_tag_matches header.platform_tag) platform_mismatch) _
            (IsFailing-require _ platform_mismatch (λ e. cc))
            (λ u.
              IsFailing-bind
                (version_or_leave (version_parse (some header.fw_version) (some no_version))) _
                (version_or_leave-IsFailing _)
                (λ new.
                  IsFailing-bind
                    (installed_or_leave (version_read_installed D (some version_file) s)) _
                    (installed_or_leave-IsFailing _)
                    (λ installed.
                      IsFailing-bind
                        (decide_downgrade (
                          downgrade_check C.sha256 new installed secret
                            (read_downgrade_secret_hash D downgrade_secret_hash_file s)))
                        _ (decide_downgrade-IsFailing _) (λ u. IsFailing-go (header, new))))))

  check_space-IsFailing :
      (ciphertext : Bytes) (s : D.State) → IsFailing (check_space D C mem ciphertext s)
  unfolding check_space
  check_space-IsFailing ciphertext s =
      IsFailing-bind (some_or generic_failure (D.free_space install_dir s)) _
        (IsFailing-some_or generic_failure _ (λ e. cc))
        (λ space. IsFailing-require _ insufficient_disk_space (λ e. cc))

  check_signature-IsFailing :
      (d : Bytes) (parts : Sections) (s : D.State) → IsFailing (check_signature D C mem d parts s)
  unfolding check_signature
  check_signature-IsFailing d parts s =
      IsFailing-bind
        (some_or generic_failure (load_public_key C D (some signing_public_key_file) s)) _
        (IsFailing-some_or generic_failure _ (λ e. cc))
        (λ key.
          IsFailing-bind (require (mem.signed_data (length (signed_part d parts))) generic_failure)
            _ (IsFailing-require _ generic_failure (λ e. cc)) (λ u. verified_or_leave-IsFailing _))

  recover-IsFailing :
      (header : Header) (parts : Sections) (s : D.State)
      → IsFailing (recover D C mem header parts s)
  unfolding recover
  recover-IsFailing header parts s =
      IsFailing-bind
        (some_or generic_failure (load_private_key C D (some device_private_key_file) s)) _
        (IsFailing-some_or generic_failure _ (λ e. cc))
        (λ key.
          IsFailing-bind
            (recovered_or_leave D C mem
              (unwrap_key C (some key) (some parts.wrapped_key) aes_key_size))
            _ (recovered_or_leave-IsFailing _)
            (λ aes_key.
              IsFailing-bind (require (length aes_key == aes_key_size) decryption_failed) _
                (IsFailing-require _ decryption_failed (λ e. cc))
                (λ u.
                  IsFailing-bind
                    (require (mem.plaintext (length parts.ciphertext + aes_iv_size))
                      generic_failure)
                    _ (IsFailing-require _ generic_failure (λ e. cc))
                    (λ u. recovered_or_leave-IsFailing _))))

  pub open_package-IsFailing :
      (d : Bytes) (secret : Option Bytes) (s : D.State)
      → IsFailing (open_package D C mem d secret s)
  unfolding open_package
  open_package-IsFailing d secret s =
      IsFailing-bind (check_header D C mem d secret s) _ (check_header-IsFailing d secret s)
        (λ checked.
          IsFailing-bind (split_sections d checked.0.wrapped_key_len) _
            (split_sections-IsFailing d _)
            (λ parts.
              IsFailing-bind (check_space D C mem parts.ciphertext s) _
                (check_space-IsFailing parts.ciphertext s)
                (λ u.
                  IsFailing-bind (check_signature D C mem d parts s) _
                    (check_signature-IsFailing d parts s)
                    (λ u.
                      IsFailing-bind (recover D C mem checked.0 parts s) _
                        (recover-IsFailing checked.0 parts s)
                        (λ plaintext. IsFailing-go (plaintext, checked.1))))))

pub install_result_to_exit_code-ne-success :
    (e : InstallError) → install_result_to_exit_code e ≢ success
unfolding install_result_to_exit_code
install_result_to_exit_code-ne-success e h = ground arith
