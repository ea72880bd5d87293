-- ===== src/Header/Layout.antt =====
-- The layout that docs/FORMAT_SPEC.md gives, as a function from a header to its 51 bytes. It does
-- not mention the parser.
use fota_secure.Base.{◌/◌, ◌%◌, ◌<◌, ◌^◌, ◌≡◌, ◌∷◌, ◌++◌, Bytes, codes, length}
use fota_secure.Header.{Header}

-- magic, format version, platform tag, firmware version, big-endian key length, IV
unfoldable pub encode : Header → Bytes
encode h =
    codes "FOTS"
    ++ (1
        ∷ (h.platform_tag
            ++ (h.fw_version ++ ((h.wrapped_key_len / 256) ∷ (h.wrapped_key_len % 256) ∷ h.iv))))

-- The field sizes of the layout.
pub record IsHeader (h : Header) : Type 0 where
  pub tag_size : length h.platform_tag ≡ 16
  pub version_size : length h.fw_version ≡ 12
  pub iv_size : length h.iv ≡ 16
  pub key_len : h.wrapped_key_len < 2 ^ 16
