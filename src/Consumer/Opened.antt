-- ===== src/Consumer/Opened.antt =====
-- consumer/src/main.c: what is known of a package once its plaintext is there.
use fota_secure.Base.{
  ℕ, ◌+◌, ◌*◌, ◌%◌, ◌^◌, ◌≤◌, ◌≡◌, refl, subst, true, ◌++◌, Option, some, arith, Bytes, ◌==◌,
  length, take,
}
use fota_secure.Device.{Device}
use fota_secure.Fcrypto.{
  Libcrypto, CryptoResult, load_public_key, load_private_key, verify_signature, unwrap_key,
  decrypt_payload, aes_key_size,
}
use fota_secure.Header.{Header, HeaderResult, header_parse, header_size}
use fota_secure.Version.{
  Version, ParseResult, version_parse, DowngradeCheck, allow, downgrade_check,
}
use fota_secure.VersionFile.{
  ReadResult, no_version, version_read_installed, read_downgrade_secret_hash,
}
use fota_secure.Consumer.{
  Exit, go, some_or, platform_tag_matches, Memory, unset_header, header_or_leave, version_or_leave,
  installed_or_leave, decide_downgrade, Sections, split_sections, signed_part, check_header,
  check_space, check_signature, recover, open_package, verified_or_leave, recovered_or_leave,
  version_file, install_dir, downgrade_secret_hash_file, signing_public_key_file,
  device_private_key_file,
}
use fota_secure.Consumer.Steps.{
  bind-eq-go, go-injective, require-eq-go, some_or-eq-go, header_or_leave-eq-go,
  version_or_leave-eq-go, installed_or_leave-eq-go, split_sections-eq-go,
}

module _ (D : Device) (C : Libcrypto) (mem : Memory) (d : Bytes) (secret : Option Bytes)
    (s : D.State) where
  -- The header was accepted for this platform, and its version may be installed.
  pub record IsAdmitted (header : Header) (new : Version) : Type 0 where
    pub parsed : header_parse (some d) (some unset_header) ≡ (HeaderResult.ok, some header)
    pub platform : platform_tag_matches header.platform_tag ≡ true
    pub versioned :
        version_parse (some header.fw_version) (some no_version) ≡ (ParseResult.ok, some new)
    pub installed : Version
    pub installed_read : version_read_installed D (some version_file) s ≡ (ReadResult.ok, installed)
    pub allowed :
        downgrade_check C.sha256 new installed secret
          (read_downgrade_secret_hash D downgrade_secret_hash_file s)
        ≡ allow

  decide_downgrade-eq-go :
      (r : DowngradeCheck) {u : Unit {0}} → decide_downgrade r ≡ go u → r ≡ allow
  decide_downgrade-eq-go r e = ground arith

  check_header-eq-go :
      (header : Header) (new : Version)
      → check_header D C mem d secret s ≡ go (header, new)
      → IsAdmitted header new
  unfolding check_header
  check_header-eq-go header new e =
      let (h, parsed, e₁) =
        bind-eq-go (header_or_leave (header_parse (some d) (some unset_header))) _ e in
      let (platform, e₂) =
        require-eq-go (platform_tag_matches h.platform_tag) Exit.platform_mismatch _ e₁ in
      let (v, versioned, e₃) =
        bind-eq-go (version_or_leave (version_parse (some h.fw_version) (some no_version))) _ e₂ in
      let (i, read, e₄) =
        bind-eq-go (installed_or_leave (version_read_installed D (some version_file) s)) _ e₃ in
      let (u, allowed, e₅) =
        bind-eq-go
          (decide_downgrade (
            downgrade_check C.sha256 v i secret
              (read_downgrade_secret_hash D downgrade_secret_hash_file s)))
          _ e₄ in
      subst (λ ((h, v) : Header × Version). IsAdmitted h v) (go-injective (h, v) (header, new) e₅)
        (record {
          parsed = header_or_leave-eq-go _ h parsed;
          platform = platform;
          versioned = version_or_leave-eq-go _ v versioned;
          installed = i;
          installed_read = installed_or_leave-eq-go _ i read;
          allowed = decide_downgrade-eq-go _ allowed;
        })

  -- The signature over everything but itself was checked with the provisioned key.
  pub record IsAuthentic (parts : Sections) : Type 0 where
    pub cut : d ≡ take header_size d ++ (parts.wrapped_key ++ (parts.signature ++ parts.ciphertext))
    pub signature_length : length parts.signature ≡ 256
    pub key : C.Key
    pub key_loaded : load_public_key C D (some signing_public_key_file) s ≡ some key
    pub verified :
        verify_signature C (some key) (some (signed_part d parts)) (some parts.signature)
        ≡ CryptoResult.ok tt

  verified_or_leave-eq-go :
      (r : CryptoResult (Unit {0})) {u : Unit {0}}
      → verified_or_leave D C mem r ≡ go u
      → r ≡ CryptoResult.ok tt
  verified_or_leave-eq-go (CryptoResult.ok u) e = refl
  verified_or_leave-eq-go (CryptoResult.err why) e = cc

  check_signature-eq-go :
      (n : ℕ) (parts : Sections) {u : Unit {0}}
      → split_sections d n ≡ go parts
      → check_signature D C mem d parts s ≡ go u
      → IsAuthentic parts
  unfolding check_signature
  check_signature-eq-go n parts split e =
      let (key, loaded, e₁) =
        bind-eq-go
          (some_or Exit.generic_failure (load_public_key C D (some signing_public_key_file) s)) _
          e in
      let (memory, e₂) =
        require-eq-go (mem.signed_data (length (signed_part d parts))) Exit.generic_failure _ e₁ in
      let (cut, size) = split_sections-eq-go d n parts split in
      record {
        cut = cut;
        signature_length = size;
        key = key;
        key_loaded = some_or-eq-go Exit.generic_failure _ loaded;
        verified = verified_or_leave-eq-go _ e₂;
      }

  -- The plaintext is the decryption of the ciphertext under the unwrapped key.
  pub record IsDecrypted (header : Header) (parts : Sections) (plaintext : Bytes) : Type 0 where
    pub device_key : C.Key
    pub device_key_loaded : load_private_key C D (some device_private_key_file) s ≡ some device_key
    pub aes_key : Bytes
    pub unwrapped :
        unwrap_key C (some device_key) (some parts.wrapped_key) 32 ≡ CryptoResult.ok aes_key
    pub aes_key_length : length aes_key ≡ 32
    pub decrypted : decrypt_payload C aes_key header.iv parts.ciphertext ≡ CryptoResult.ok plaintext

  recovered_or_leave-eq-go :
      (r : CryptoResult Bytes) (b : Bytes)
      → recovered_or_leave D C mem r ≡ go b
      → r ≡ CryptoResult.ok b
  recovered_or_leave-eq-go r b e = ground arith

  recover-eq-go :
      (header : Header) (parts : Sections) (plaintext : Bytes)
      → recover D C mem header parts s ≡ go plaintext
      → IsDecrypted header parts plaintext
  unfolding recover
  recover-eq-go header parts plaintext e =
      let (key, loaded, e₁) =
        bind-eq-go
          (some_or Exit.generic_failure (load_private_key C D (some device_private_key_file) s)) _
          e in
      let (aes_key, unwrapped, e₂) =
        bind-eq-go
          (recovered_or_leave D C mem
            (unwrap_key C (some key) (some parts.wrapped_key) aes_key_size))
          _ e₁ in
      let (size, e₃) = require-eq-go (length aes_key == aes_key_size) Exit.decryption_failed _ e₂ in
      let (memory, e₄) =
        require-eq-go (mem.plaintext (length parts.ciphertext + 16)) Exit.generic_failure _ e₃ in
      record {
        device_key = key;
        device_key_loaded = some_or-eq-go Exit.generic_failure _ loaded;
        aes_key = aes_key;
        unwrapped = recovered_or_leave-eq-go _ aes_key unwrapped;
        aes_key_length = ground arith;
        decrypted = recovered_or_leave-eq-go _ plaintext e₄;
      }

  -- The file system of the installation directory has room for the ciphertext.
  pub record IsRoomy (ciphertext : Bytes) : Type 0 where
    pub blocks : ℕ
    pub block_size : ℕ
    pub free : D.free_space install_dir s ≡ some (blocks, block_size)
    pub fits : length ciphertext ≤ blocks * block_size % 2 ^ 64

  check_space-eq-go :
      (ciphertext : Bytes) {u : Unit {0}}
      → check_space D C mem ciphertext s ≡ go u
      → IsRoomy ciphertext
  unfolding check_space
  check_space-eq-go ciphertext e =
      let (space, free, e₁) =
        bind-eq-go (some_or Exit.generic_failure (D.free_space install_dir s)) _ e in
      record {
        blocks = space.0;
        block_size = space.1;
        free = some_or-eq-go Exit.generic_failure _ free;
        fits = ground arith;
      }

  -- All that `main` has established when it calls the installer.
  pub record IsOpened (plaintext : Bytes) (new : Version) : Type 0 where
    pub header : Header
    pub parts : Sections
    pub admitted : IsAdmitted header new
    pub split : split_sections d header.wrapped_key_len ≡ go parts
    pub roomy : IsRoomy parts.ciphertext
    pub authentic : IsAuthentic parts
    pub decrypted : IsDecrypted header parts plaintext

  pub open_package-eq-go :
      (plaintext : Bytes) (new : Version)
      → open_package D C mem d secret s ≡ go (plaintext, new)
      → IsOpened plaintext new
  unfolding open_package
  open_package-eq-go plaintext new e =
      let ((header, v), checked, e₁) = bind-eq-go (check_header D C mem d secret s) _ e in
      let (parts, split, e₂) = bind-eq-go (split_sections d header.wrapped_key_len) _ e₁ in
      let (u₁, space, e₃) = bind-eq-go (check_space D C mem parts.ciphertext s) _ e₂ in
      let (u₂, signed, e₄) = bind-eq-go (check_signature D C mem d parts s) _ e₃ in
      let (p, recovered, e₅) = bind-eq-go (recover D C mem header parts s) _ e₄ in
      subst (λ ((p, v) : Bytes × Version). IsOpened p v) (go-injective (p, v) (plaintext, new) e₅)
        (record {
          header = header;
          parts = parts;
          admitted = check_header-eq-go header v checked;
          split = split;
          roomy = check_space-eq-go parts.ciphertext space;
          authentic = check_signature-eq-go header.wrapped_key_len parts split signed;
          decrypted = recover-eq-go header parts p recovered;
        })
