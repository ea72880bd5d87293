-- ===== src/Fcrypto/Unwrap.antt =====
-- consumer/src/fcrypto.c: `fota_unwrap_key`.
use fota_secure.Base.{◌≤◌, ◌≡◌, ◌↔◌, refl, ℕ, true, some, arith, Bytes, length, ℤ, is_one}
use fota_secure.Fcrypto.{Libcrypto, ok, unwrap_failed, decrypt_into, unwrap_steps, unwrap_key}
use fota_secure.Fcrypto.Steps.{bind-eq-some, succeeds-bind, or_fail-eq-ok}

module _ (C : Libcrypto) where
  -- The context as the four calls that set it up leave it.
  abbrev begun : C.KeyCtx → C.KeyCtx
  begun ctx = (C.decrypt_init ctx).1

  abbrev padded : C.KeyCtx → C.KeyCtx
  padded ctx = (C.set_oaep_padding (begun ctx)).1

  abbrev hashed : C.KeyCtx → C.KeyCtx
  hashed ctx = (C.set_oaep_md (padded ctx)).1

  abbrev masked : C.KeyCtx → C.KeyCtx
  masked ctx = (C.set_mgf1_md (hashed ctx)).1

  -- The size that the first call asks for, and what the second one gives.
  abbrev asked : C.KeyCtx → Bytes → ℤ × ℕ × C.KeyCtx
  asked ctx wrapped = C.decrypt_size (masked ctx) wrapped

  abbrev given : C.KeyCtx → Bytes → ℤ × Bytes × C.KeyCtx
  given ctx wrapped = C.decrypt (asked ctx wrapped).2 wrapped (asked ctx wrapped).1

  -- A key that was unwrapped with OAEP, SHA-256 and MGF1: every call returned 1, the memory could
  -- be had, and the bytes fit the caller's buffer.
  pub record IsUnwrapped (key : C.Key) (wrapped : Bytes) (room : ℕ) (out : Bytes) : Type 0 where
    pub ctx : C.KeyCtx
    pub ctx_made : C.key_ctx_new key ≡ some ctx
    pub init_ok : is_one (C.decrypt_init ctx).0 ≡ true
    pub padding_ok : is_one (C.set_oaep_padding (begun ctx)).0 ≡ true
    pub hash_ok : is_one (C.set_oaep_md (padded ctx)).0 ≡ true
    pub mask_ok : is_one (C.set_mgf1_md (hashed ctx)).0 ≡ true
    pub size_ok : is_one (asked ctx wrapped).0 ≡ true
    pub memory : C.malloc (asked ctx wrapped).1 ≡ true
    pub fits : length (given ctx wrapped).1 ≤ room
    pub decrypt_ok : is_one (given ctx wrapped).0 ≡ true
    pub is_out : (given ctx wrapped).1 ≡ out

  decrypt_into-eq-some :
      (ctx : C.KeyCtx) (wrapped : Bytes) (required room : ℕ) (out : Bytes)
      → decrypt_into C ctx wrapped required room ≡ some out
      → (C.malloc required ≡ true)
        × (length (C.decrypt ctx wrapped required).1 ≤ room)
        × (is_one (C.decrypt ctx wrapped required).0 ≡ true)
        × ((C.decrypt ctx wrapped required).1 ≡ out)
  unfolding decrypt_into
  decrypt_into-eq-some ctx wrapped required room out e = ground arith

  unwrap_key_sound :
      (key : C.Key) (wrapped : Bytes) (room : ℕ) (out : Bytes)
      → unwrap_key C (some key) (some wrapped) room ≡ ok out
      → IsUnwrapped key wrapped room out
  unfolding unwrap_key unwrap_steps
  unwrap_key_sound key wrapped room out e =
      let (ctx, made, e₁) = bind-eq-some (C.key_ctx_new key) _ (or_fail-eq-ok unwrap_failed _ e) in
      let (init_ok, e₂) = succeeds-bind (C.decrypt_init ctx).0 (begun ctx) _ e₁ in
      let (padding_ok, e₃) = succeeds-bind (C.set_oaep_padding (begun ctx)).0 (padded ctx) _ e₂ in
      let (hash_ok, e₄) = succeeds-bind (C.set_oaep_md (padded ctx)).0 (hashed ctx) _ e₃ in
      let (mask_ok, e₅) = succeeds-bind (C.set_mgf1_md (hashed ctx)).0 (masked ctx) _ e₄ in
      let (size_ok, e₆) = succeeds-bind (asked ctx wrapped).0 (asked ctx wrapped).1 _ e₅ in
      let (memory, fits, decrypt_ok, is_out) =
        decrypt_into-eq-some (asked ctx wrapped).2 wrapped (asked ctx wrapped).1 room out e₆ in
      record {
        ctx = ctx;
        ctx_made = made;
        init_ok = init_ok;
        padding_ok = padding_ok;
        hash_ok = hash_ok;
        mask_ok = mask_ok;
        size_ok = size_ok;
        memory = memory;
        fits = fits;
        decrypt_ok = decrypt_ok;
        is_out = is_out;
      }

  decrypt_into_lem :
      (ctx : C.KeyCtx) (wrapped : Bytes) (required room : ℕ) (out : Bytes)
      → C.malloc required ≡ true
      → length (C.decrypt ctx wrapped required).1 ≤ room
      → is_one (C.decrypt ctx wrapped required).0 ≡ true
      → (C.decrypt ctx wrapped required).1 ≡ out
      → decrypt_into C ctx wrapped required room ≡ some out
  unfolding decrypt_into
  decrypt_into_lem ctx wrapped required room out m f d o = ground arith

  unwrap_key_complete :
      (key : C.Key) (wrapped : Bytes) (room : ℕ) (out : Bytes)
      → IsUnwrapped key wrapped room out
      → unwrap_key C (some key) (some wrapped) room ≡ ok out
  unfolding unwrap_key unwrap_steps
  unwrap_key_complete key wrapped room out u =
      let last =
        decrypt_into_lem (asked u.ctx wrapped).2 wrapped (asked u.ctx wrapped).1 room out u.memory
          u.fits u.decrypt_ok u.is_out in
      rw (u.ctx_made, u.init_ok, u.padding_ok, u.hash_ok, u.mask_ok, u.size_ok, last) refl

  -- A key is unwrapped exactly if every one of the calls returns 1, their memory can be had, and
  -- the result fits the room that the caller has.
  pub unwrap_key_iff :
      (key : C.Key) (wrapped : Bytes) (room : ℕ) (out : Bytes)
      → (unwrap_key C (some key) (some wrapped) room ≡ ok out) ↔ IsUnwrapped key wrapped room out
  unwrap_key_iff key wrapped room out =
      (unwrap_key_sound key wrapped room out, unwrap_key_complete key wrapped room out)
