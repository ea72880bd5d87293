-- ===== src/Consumer/Platform.antt =====
-- consumer/src/main.c: a package for another platform.
use fota_secure.Base.{
  ◌≡◌, ◌≢◌, ◌↔◌, refl, true, false, inl, inr, ◌++◌, Option, some, Bytes, codes, replicate,
  same_bytes_sound, same_bytes_self, Bool-cases,
}
use fota_secure.Device.{Device}
use fota_secure.Fcrypto.{Libcrypto}
use fota_secure.Gunzip.{Zlib}
use fota_secure.Header.{Header}
use fota_secure.Header.Layout.{encode, IsHeader}
use fota_secure.Header.Laws.{header_parse-encode}
use fota_secure.Consumer.{
  platform_mismatch, leave, platform_tag_matches, Memory, unset_header, check_header, open_package,
  run,
}

-- The tag of this platform, filled up with NULs to its 16 bytes.
abbrev pub generic_tag : Bytes
generic_tag = codes "GENERIC" ++ replicate 9 0

platform_tag_matches_iff : (tag : Bytes) → (platform_tag_matches tag ≡ true) ↔ (tag ≡ generic_tag)
unfolding platform_tag_matches
platform_tag_matches_iff tag =
    (same_bytes_sound tag generic_tag, λ e. rw e (same_bytes_self generic_tag))

module _ (D : Device) (C : Libcrypto) (mem : Memory) (Z : Zlib) (h : Header) (rest : Bytes)
    (secret : Option Bytes) (s : D.State) where
  check_header-platform_mismatch :
      IsHeader h
      → platform_tag_matches h.platform_tag ≡ false
      → check_header D C mem (encode h ++ rest) secret s ≡ leave platform_mismatch
  unfolding check_header
  check_header-platform_mismatch v other =
      let parsed = header_parse-encode h unset_header rest v in rw (parsed, other) refl

  open_package-platform_mismatch :
      IsHeader h
      → platform_tag_matches h.platform_tag ≡ false
      → open_package D C mem (encode h ++ rest) secret s ≡ leave platform_mismatch
  unfolding open_package
  open_package-platform_mismatch v other =
      rw (open_package, check_header-platform_mismatch v other) refl

  -- A package that begins with an encoded header whose tag is not GENERIC, filled up with NULs, is
  -- refused with the exit for a wrong platform, whatever the rest of it holds and whatever the
  -- secret, and the state stays as it was.
  pub run-platform_mismatch :
      IsHeader h
      → h.platform_tag ≢ generic_tag
      → run D C mem Z (encode h ++ rest) secret s ≡ some (platform_mismatch, s)
  unfolding run
  run-platform_mismatch v other = elim (Bool-cases (platform_tag_matches h.platform_tag)) [
    | inl matches ↦ absurd (other ((platform_tag_matches_iff h.platform_tag).0 matches))
    | inr differs ↦ rw (open_package-platform_mismatch v differs, run) refl
  ]
