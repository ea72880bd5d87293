-- ===== src/Fcrypto/Decrypt.antt =====
-- consumer/src/fcrypto.c: `fota_decrypt_payload`.
use fota_secure.Base.{
  ◌<◌, ◌^◌, ◌≡◌, ◌≢◌, ◌↔◌, sym, ap, ◌∙◌, true, ◌++◌, some, arith, Bytes, length, is_one,
}
use fota_secure.Fcrypto.{
  Libcrypto, ok, err, invalid_arg, decrypt_failed, or_fail, decrypt_steps, decrypt_payload,
}
use fota_secure.Fcrypto.Steps.{bind-eq-some, succeeds-bind, or_fail-eq-ok}

module _ (C : Libcrypto) where
  -- What `EVP_DecryptUpdate` and `EVP_DecryptFinal_ex` wrote, one behind the other.
  pub record IsPlaintext (key iv ciphertext out : Bytes) : Type 0 where
    pub ctx : C.CipherCtx
    pub ctx_made : C.cipher_ctx_new ≡ some ctx
    pub init_ok : is_one (C.cipher_init ctx key iv).0 ≡ true
    pub update_ok : is_one (C.cipher_update (C.cipher_init ctx key iv).1 ciphertext).0 ≡ true
    pub final_ok :
        is_one (C.cipher_final (C.cipher_update (C.cipher_init ctx key iv).1 ciphertext).2).0 ≡ true
    pub is_out :
        (C.cipher_update (C.cipher_init ctx key iv).1 ciphertext).1
          ++ (C.cipher_final (C.cipher_update (C.cipher_init ctx key iv).1 ciphertext).2).1
        ≡ out

  decrypt_steps_sound :
      (key iv ciphertext out : Bytes)
      → decrypt_steps C key iv ciphertext ≡ some out
      → IsPlaintext key iv ciphertext out
  unfolding decrypt_steps
  decrypt_steps_sound key iv ciphertext out e =
      let (ctx, made, e₁) = bind-eq-some C.cipher_ctx_new _ e in
      let c₁ = (C.cipher_init ctx key iv).1 in
      let (init_ok, e₂) = succeeds-bind (C.cipher_init ctx key iv).0 c₁ _ e₁ in
      let (update_ok, e₃) =
        succeeds-bind (C.cipher_update c₁ ciphertext).0 (C.cipher_update c₁ ciphertext) _ e₂ in
      let final = C.cipher_final (C.cipher_update c₁ ciphertext).2 in
      let (final_ok, e₄) = succeeds-bind final.0 final.1 _ e₃ in
      record {
        ctx = ctx;
        ctx_made = made;
        init_ok = init_ok;
        update_ok = update_ok;
        final_ok = final_ok;
        is_out = cc;
      }

  decrypt_steps_complete :
      (key iv ciphertext out : Bytes)
      → IsPlaintext key iv ciphertext out
      → decrypt_steps C key iv ciphertext ≡ some out
  unfolding decrypt_steps
  decrypt_steps_complete key iv ciphertext out p =
      rw (p.ctx_made, p.init_ok, p.update_ok, p.final_ok) (ap some p.is_out)

  -- The sizes that the call is made with: a `size_t` that is cast to `int` is not changed.
  pub record HasSizes (key iv ciphertext : Bytes) : Type 0 where
    pub key_size : length key ≡ 32
    pub iv_size : length iv ≡ 16
    pub non_empty : 0 < length ciphertext
    pub is_int : length ciphertext < 2 ^ 31

  decrypt_payload_sizes :
      (key iv ciphertext : Bytes)
      → HasSizes key iv ciphertext
      → decrypt_payload C key iv ciphertext
        ≡ or_fail decrypt_failed (decrypt_steps C key iv ciphertext)
  unfolding decrypt_payload
  decrypt_payload_sizes key iv ciphertext h =
      let a = h.key_size in
      let b = h.iv_size in let c = h.non_empty in let d = h.is_int in ground arith

  decrypt_payload-HasSizes :
      (key iv ciphertext : Bytes)
      → decrypt_payload C key iv ciphertext ≢ err invalid_arg
      → HasSizes key iv ciphertext
  unfolding decrypt_payload
  decrypt_payload-HasSizes key iv ciphertext h = record {
    key_size = ground arith;
    iv_size = ground arith;
    non_empty = ground arith;
    is_int = ground arith;
  }

  -- A payload is decrypted exactly if the key has 32 bytes, the IV 16, the ciphertext at least one
  -- and fewer than 2 ^ 31, and every call of the decryption returns 1; the plaintext is what the
  -- last two calls wrote.
  pub decrypt_payload_iff :
      (key iv ciphertext out : Bytes)
      → (decrypt_payload C key iv ciphertext ≡ ok out)
        ↔ (HasSizes key iv ciphertext × IsPlaintext key iv ciphertext out)
  decrypt_payload_iff key iv ciphertext out = (
    λ e.
        let sizes = decrypt_payload-HasSizes key iv ciphertext (λ bad. cc) in
        (
          sizes,
          decrypt_steps_sound key iv ciphertext out (
              or_fail-eq-ok decrypt_failed _
                (sym (decrypt_payload_sizes key iv ciphertext sizes) ∙ e)),
        ),
    λ (sizes, p).
        decrypt_payload_sizes key iv ciphertext sizes
        ∙ ap (or_fail decrypt_failed) (decrypt_steps_complete key iv ciphertext out p),
  )
