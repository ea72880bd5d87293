-- ===== src/Fcrypto.antt =====
-- consumer/src/fcrypto.c: the wrappers of libcrypto, which is a parameter.
mod Steps
pub mod Signature
pub mod Unwrap
pub mod Decrypt
use fota_secure.Base.{
  ℕ, ◌+◌, ◌<◌, Bool, true, false, not, ◌||◌, ◌++◌, Option, none, some, Bytes, ltb, leb, ◌==◌,
  if◌then◌else◌, ◌>>=◌, length, ℤ, is_one,
}
use fota_secure.Device.{Device}

abbrev pub aes_key_size : ℕ
aes_key_size = 32

abbrev pub aes_iv_size : ℕ
aes_iv_size = 16

-- `INT32_MAX`
abbrev pub int32_max : ℕ
int32_max = 2147483647

pub data CryptoError : Type 0 where
  invalid_arg unwrap_failed verify_failed decrypt_failed : CryptoError

-- FOTA_CRYPTO_OK with what was handed back, or an error.
pub data CryptoResult (A : Type 0) : Type 0 where
  ok : A → CryptoResult A
  err : CryptoError → CryptoResult A

-- The calls of libcrypto, each with its return code. A context is changed by the calls on it; a
-- constructor may fail.
pub record Libcrypto : Type 1 where
  pub Key : Type 0
  pub KeyCtx : Type 0
  pub MdCtx : Type 0
  pub CipherCtx : Type 0
  -- `PEM_read_PrivateKey` and `PEM_read_PUBKEY` on the bytes of the file.
  pub read_private_key : Bytes → Option Key
  pub read_public_key : Bytes → Option Key
  -- `EVP_Digest` with `EVP_sha256()`
  pub sha256 : Bytes → ℤ × Bytes
  -- `EVP_PKEY_CTX_new` and the calls that set up OAEP with SHA-256
  pub key_ctx_new : Key → Option KeyCtx
  pub decrypt_init : KeyCtx → ℤ × KeyCtx
  pub set_oaep_padding : KeyCtx → ℤ × KeyCtx
  pub set_oaep_md : KeyCtx → ℤ × KeyCtx
  pub set_mgf1_md : KeyCtx → ℤ × KeyCtx
  -- `EVP_PKEY_decrypt` without and with an output buffer: the size, and the bytes
  pub decrypt_size : KeyCtx → Bytes → ℤ × ℕ × KeyCtx
  pub decrypt : KeyCtx → Bytes → ℕ → ℤ × Bytes × KeyCtx
  -- `OPENSSL_malloc`
  pub malloc : ℕ → Bool
  -- `EVP_MD_CTX_new`, `EVP_DigestVerifyInit` with SHA-256, `EVP_DigestVerify` of a signature
  pub md_ctx_new : Option MdCtx
  pub verify_init : MdCtx → Key → ℤ × MdCtx
  pub digest_verify : MdCtx → Bytes → Bytes → ℤ
  -- `EVP_CIPHER_CTX_new`, then AES-256-CBC: a key and an IV, the ciphertext, the rest
  pub cipher_ctx_new : Option CipherCtx
  pub cipher_init : CipherCtx → Bytes → Bytes → ℤ × CipherCtx
  pub cipher_update : CipherCtx → Bytes → ℤ × Bytes × CipherCtx
  pub cipher_final : CipherCtx → ℤ × Bytes

-- `call(…) == 1 && …`
abbrev pub succeeds : {A : Type 0} → ℤ → A → Option A
succeeds rc a = if is_one rc then some a else none

abbrev or_fail : {A : Type 0} → CryptoError → Option A → CryptoResult A
or_fail e none = err e
or_fail e (some a) = ok a

module _ (C : Libcrypto) where
  module _ (D : Device) where
    -- `fota_load_private_key`, `fota_load_public_key`
    unfoldable pub load_private_key : Option Bytes → D.State → Option C.Key
    load_private_key none s = none
    load_private_key (some path) s = do file ← D.read_file path s; C.read_private_key file

    unfoldable pub load_public_key : Option Bytes → D.State → Option C.Key
    load_public_key none s = none
    load_public_key (some path) s = do file ← D.read_file path s; C.read_public_key file

  -- The call with an output buffer of the size that was asked for; `tmp` may not be had, and the
  -- key must fit the caller's buffer.
  unfoldable pub decrypt_into : C.KeyCtx → Bytes → ℕ → ℕ → Option Bytes
  decrypt_into ctx wrapped required cap =
      let (rc, out, _) = C.decrypt ctx wrapped required in
      if not (C.malloc required)
      then none
      else if leb (length out) cap
      then succeeds rc out
      else none

  unfoldable pub unwrap_steps : C.Key → Bytes → ℕ → Option Bytes
  unwrap_steps key wrapped cap = do
    ctx ← C.key_ctx_new key
    ctx ← succeeds (C.decrypt_init ctx).0 (C.decrypt_init ctx).1
    ctx ← succeeds (C.set_oaep_padding ctx).0 (C.set_oaep_padding ctx).1
    ctx ← succeeds (C.set_oaep_md ctx).0 (C.set_oaep_md ctx).1
    ctx ← succeeds (C.set_mgf1_md ctx).0 (C.set_mgf1_md ctx).1
    required ← succeeds (C.decrypt_size ctx wrapped).0 (C.decrypt_size ctx wrapped).1
    decrypt_into (C.decrypt_size ctx wrapped).2 wrapped required cap

  -- `fota_unwrap_key`: the key, which has `*out_key_len` bytes; `cap` is `*out_key_len` on entry.
  unfoldable pub unwrap_key : Option C.Key → Option Bytes → ℕ → CryptoResult Bytes
  unwrap_key none wrapped cap = err invalid_arg
  unwrap_key (some key) none cap = err invalid_arg
  unwrap_key (some key) (some wrapped) cap = or_fail unwrap_failed (unwrap_steps key wrapped cap)

  unfoldable pub verify_steps : C.Key → Bytes → Bytes → Option (Unit {0})
  verify_steps key text signature = do
    ctx ← C.md_ctx_new
    ctx ← succeeds (C.verify_init ctx key).0 (C.verify_init ctx key).1
    succeeds (C.digest_verify ctx signature text) tt

  -- `fota_verify_signature`
  unfoldable pub verify_signature :
      Option C.Key → Option Bytes → Option Bytes → CryptoResult (Unit {0})
  verify_signature none text signature = err invalid_arg
  verify_signature (some key) none signature = err invalid_arg
  verify_signature (some key) (some text) none = err invalid_arg
  verify_signature (some key) (some text) (some signature) =
      or_fail verify_failed (verify_steps key text signature)

  unfoldable pub decrypt_steps : Bytes → Bytes → Bytes → Option Bytes
  decrypt_steps key iv ciphertext = do
    ctx ← C.cipher_ctx_new
    ctx ← succeeds (C.cipher_init ctx key iv).0 (C.cipher_init ctx key iv).1
    updated ← succeeds (C.cipher_update ctx ciphertext).0 (C.cipher_update ctx ciphertext)
    last ← succeeds (C.cipher_final updated.2).0 (C.cipher_final updated.2).1
    some (updated.1 ++ last)

  -- `fota_decrypt_payload`, of buffers that are not NULL: the plaintext.
  unfoldable pub decrypt_payload : Bytes → Bytes → Bytes → CryptoResult Bytes
  decrypt_payload key iv ciphertext =
      if not (length key == aes_key_size)
        || not (length iv == aes_iv_size)
        || length ciphertext == 0
        || ltb int32_max (length ciphertext)
      then err invalid_arg
      else or_fail decrypt_failed (decrypt_steps key iv ciphertext)
