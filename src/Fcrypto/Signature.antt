-- ===== src/Fcrypto/Signature.antt =====
-- consumer/src/fcrypto.c: `fota_verify_signature`.
use fota_secure.Base.{◌≡◌, ◌↔◌, refl, true, Option, none, some, Bytes, is_one}
use fota_secure.Fcrypto.{Libcrypto, ok, verify_failed, verify_steps, verify_signature}
use fota_secure.Fcrypto.Steps.{bind-eq-some, succeeds-bind, succeeds-eq-some, or_fail-eq-ok}

module _ (C : Libcrypto) where
  -- Nothing was NULL, and every call that sets up the check and the check itself returned 1.
  pub record IsVerified (key : Option C.Key) (text signature : Option Bytes) : Type 0 where
    pub given_key : C.Key
    pub given_text : Bytes
    pub given_signature : Bytes
    pub is_key : key ≡ some given_key
    pub is_text : text ≡ some given_text
    pub is_signature : signature ≡ some given_signature
    pub ctx : C.MdCtx
    pub ctx_made : C.md_ctx_new ≡ some ctx
    pub set_up : is_one (C.verify_init ctx given_key).0 ≡ true
    pub valid :
        is_one (C.digest_verify (C.verify_init ctx given_key).1 given_signature given_text) ≡ true

  verify_signature_sound :
      (key : Option C.Key) (text signature : Option Bytes)
      → verify_signature C key text signature ≡ ok tt
      → IsVerified key text signature
  unfolding verify_signature verify_steps
  verify_signature_sound none text signature e = cc
  verify_signature_sound (some key) none signature e = cc
  verify_signature_sound (some key) (some text) none e = cc
  verify_signature_sound (some key) (some text) (some signature) e =
      let (ctx, made, e₁) = bind-eq-some C.md_ctx_new _ (or_fail-eq-ok verify_failed _ e) in
      let (set_up, e₂) = succeeds-bind (C.verify_init ctx key).0 (C.verify_init ctx key).1 _ e₁ in
      let (valid, e₃) =
        succeeds-eq-some (C.digest_verify (C.verify_init ctx key).1 signature text) tt e₂ in
      record {
        given_key = key;
        given_text = text;
        given_signature = signature;
        is_key = refl;
        is_text = refl;
        is_signature = refl;
        ctx = ctx;
        ctx_made = made;
        set_up = set_up;
        valid = valid;
      }

  verify_signature_complete :
      (key : Option C.Key) (text signature : Option Bytes)
      → IsVerified key text signature
      → verify_signature C key text signature ≡ ok tt
  unfolding verify_signature verify_steps
  verify_signature_complete key text signature v =
      rw (v.is_key, v.is_text, v.is_signature, v.ctx_made, v.set_up, v.valid) refl

  -- A signature is accepted exactly if key, text and signature are given, a context can be had, and
  -- both the set-up of the check and the check return 1; no other return code is a success.
  pub verify_signature_iff :
      (key : Option C.Key) (text signature : Option Bytes)
      → (verify_signature C key text signature ≡ ok tt) ↔ IsVerified key text signature
  verify_signature_iff key text signature =
      (verify_signature_sound key text signature, verify_signature_complete key text signature)
