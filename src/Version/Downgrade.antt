-- ===== src/Version/Downgrade.antt =====
-- consumer/src/version.c: the outcomes of `fota_downgrade_check`.
use fota_secure.Base.{
  ◌≡◌, ◌≢◌, ◌↔◌, ◌⊎◌, inl, inr, refl, sym, ◌∙◌, true, Option, none, some, arith, same_bytes_sound,
  same_bytes_complete, length, ℤ, pos, negsuc, is_one, Bytes,
}
use fota_secure.Version.{
  Version, DowngradeCheck, allow, up_to_date, version_compare, check_override, downgrade_check,
}
use fota_secure.Version.Compare.{IsOlder, version_compare_iff, version_compare_cases}

module _ (sha256 : Bytes → ℤ × Bytes) where
  -- A non-empty secret was given, a hash is stored, and hashing the secret worked and gave that hash.
  pub record IsOverride (secret stored : Option Bytes) : Type 0 where
    pub given : Bytes
    pub hash : Bytes
    pub is_given : secret ≡ some given
    pub is_stored : stored ≡ some hash
    pub non_empty : length given ≢ 0
    pub hashed : is_one (sha256 given).0 ≡ true
    pub full_size : length (sha256 given).1 ≡ 32
    pub matches : (sha256 given).1 ≡ hash

  check_override_sound :
      (secret stored : Option Bytes)
      → check_override sha256 secret stored ≡ allow
      → IsOverride secret stored
  unfolding check_override
  check_override_sound secret none e = cc
  check_override_sound none (some hash) e = cc
  check_override_sound (some given) (some hash) e = record {
    given = given;
    hash = hash;
    is_given = refl;
    is_stored = refl;
    non_empty = ground arith;
    hashed = ground arith;
    full_size = ground arith;
    matches = same_bytes_sound (sha256 given).1 hash (ground arith);
  }

  check_override_complete :
      (secret stored : Option Bytes)
      → IsOverride secret stored
      → check_override sha256 secret stored ≡ allow
  unfolding check_override
  check_override_complete secret stored o =
      let filled = o.non_empty in
      let size = o.full_size in
      rw (o.is_given, o.is_stored)
        (ground (arith, o.hashed, same_bytes_complete (sha256 o.given).1 o.hash o.matches))

  check_override-ne-up_to_date :
      (secret stored : Option Bytes) → check_override sha256 secret stored ≢ up_to_date
  unfolding check_override
  check_override-ne-up_to_date secret none e = cc
  check_override-ne-up_to_date none (some hash) e = cc
  check_override-ne-up_to_date (some given) (some hash) e = ground arith

  module _ (new installed : Version) (same_size : length new.parts ≡ length installed.parts)
      (secret stored : Option Bytes) where
    abbrev decision : DowngradeCheck
    decision = downgrade_check sha256 new installed secret stored

    decision_older :
        version_compare new installed ≡ negsuc 0 → decision ≡ check_override sha256 secret stored
    unfolding downgrade_check
    decision_older e = rw e

    decision_newer : version_compare new installed ≡ pos 1 → decision ≡ allow
    unfolding downgrade_check
    decision_newer e = rw e

    decision_same : version_compare new installed ≡ pos 0 → decision ≡ up_to_date
    unfolding downgrade_check
    decision_same e = rw e

    -- An update is let in exactly if the installed version is older, or the new one is older
    -- and the secret matches; it is up to date exactly if the versions are equal.
    pub downgrade_check_iff :
        ((decision ≡ allow) ↔ (
          IsOlder installed.parts new.parts
          ⊎ (IsOlder new.parts installed.parts × IsOverride secret stored)))
        × ((decision ≡ up_to_date) ↔ (new.parts ≡ installed.parts))
    downgrade_check_iff =
        let (is_lt, is_gt, is_eq) = version_compare_iff new installed same_size in
        elim (version_compare_cases new installed same_size) [
          | inl lt ↦
              let d = decision_older lt in
              (
                (
                  λ e. inr (is_lt.0 lt, check_override_sound secret stored (sym d ∙ e)),
                  elim [
                    | inl o ↦ cc (is_gt.1 o)
                    | inr (o, ov) ↦ d ∙ check_override_complete secret stored ov
                  ],
                ),
                (
                  λ e. absurd (check_override-ne-up_to_date secret stored (sym d ∙ e)),
                  λ e. cc (is_eq.1 e),
                ),
              )
          | inr (inl gt) ↦
              let d = decision_newer gt in
              ((λ e. inl (is_gt.0 gt), λ o. d), (λ e. cc, λ e. cc (is_eq.1 e)))
          | inr (inr eq) ↦
              let d = decision_same eq in
              (
                (λ e. cc, elim [ inl o ↦ cc (is_gt.1 o) | inr (o, ov) ↦ cc (is_lt.1 o) ]),
                (λ e. is_eq.0 eq, λ e. d),
              )
        ]
