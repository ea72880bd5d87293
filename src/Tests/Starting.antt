-- ===== src/Tests/Starting.antt =====
-- Witnesses for the theorems on the arguments of `main` and on the platform of a package.
use fota_secure.Base.{
  ℕ, ◌≡◌, ◌≢◌, ◌↔◌, refl, ap, List, [], ◌∷◌, ◌++◌, none, some, arith, Bytes, codes, replicate,
}
use fota_secure.Consumer.{platform_mismatch, parse_secret, run}
use fota_secure.Consumer.Arguments.{Gives, last_of, parse_secret_iff}
use fota_secure.Consumer.Platform.{generic_tag, run-platform_mismatch}
use fota_secure.Header.{Header}
use fota_secure.Header.Layout.{encode, IsHeader}
use fota_secure.Tests.Package.{device_files}
use fota_secure.Tests.World.{listing_device, stored, copying_crypto, enough}

abbrev secret_words : List Bytes
secret_words =
    codes "--verbose"
    ∷ codes "--downgrade-secret"
    ∷ codes "old"
    ∷ codes "--downgrade-secret"
    ∷ codes "new"
    ∷ codes "--downgrade-secret"
    ∷ []

parse_secret_iff_example :
    (parse_secret secret_words none ≡ some (codes "new"))
    ↔ ((values : List Bytes) × Gives secret_words values × (last_of values ≡ some (codes "new")))
parse_secret_iff_example = parse_secret_iff secret_words (some (codes "new"))

abbrev foreign_header : Header
foreign_header = record {
  platform_tag = codes "OTHER" ++ replicate 11 0;
  fw_version = codes "1.2.0.0" ++ replicate 5 0;
  wrapped_key_len = 32;
  iv = replicate 16 7;
}

foreign_header-IsHeader : IsHeader foreign_header
foreign_header-IsHeader = record {
  tag_size = refl;
  version_size = refl;
  iv_size = refl;
  key_len = omega arith;
}

abbrev first_code : Bytes → ℕ
first_code [] = 0
first_code (c ∷ s) = c

foreign_tag : codes "OTHER" ++ replicate 11 0 ≢ generic_tag
foreign_tag same = absurd (omega (arith, ap first_code same))

run-platform_mismatch_example :
    run listing_device copying_crypto enough stored
      (encode foreign_header ++ codes "rest")
      none
      device_files
    ≡ some (platform_mismatch, device_files)
run-platform_mismatch_example =
    run-platform_mismatch listing_device copying_crypto enough stored foreign_header (codes "rest")
      none device_files foreign_header-IsHeader foreign_tag
