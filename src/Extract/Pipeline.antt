-- ===== src/Extract/Pipeline.antt =====
-- consumer/src/installer.c: the outcomes of `fota_installer_extract`.
use fota_secure.Base.{
  ℕ, ◌≡◌, ◌⊎◌, inl, inr, refl, Bool, List, Option, none, some, arith, Bytes, length, All, ℤ,
  Option-cases,
}
use fota_secure.Device.{Device}
use fota_secure.Gunzip.{Zlib, IsInflate, gunzip}
use fota_secure.Gunzip.Bounds.{IsInflated, gunzip-Returns}
use fota_secure.Install.{InstallError, Result, ok, err, Returns, Result-cases}
use fota_secure.Manifest.{ManifestFile, parse_manifest_files}
use fota_secure.Manifest.Loops.{parse_manifest_files-Returns}
use fota_secure.Tar.{TarEntry, tar_parse}
use fota_secure.Tar.Entry.{IsEntry}
use fota_secure.Tar.Loop.{tar_parse-Returns}
use fota_secure.Verify.{manifest_name, find_entry, count_files, verify_manifest, check_listing}
use fota_secure.Verify.Listing.{IsMatched, verify_manifest_iff}
use fota_secure.Extract.{
  InstallMemory, max_decompressed_size, write_entries, unpack_verified, installer_extract,
}

pub Returns-cases :
    {A : Type 0} {P : A → Type 0} (o : Option (Result A))
    → Returns P o
    → ((e : InstallError) × (o ≡ some (err e))) ⊎ ((a : A) × (o ≡ some (ok a)) × P a)
Returns-cases none r = absurd r
Returns-cases (some (ok a)) r = inr (a, refl, r)
Returns-cases (some (err e)) r = inl (e, refl)

module _ (sha256 : Bytes → ℤ × Bytes) (realloc calloc : ℕ → Bool) where
  -- An archive that has a manifest with these listings, each of which finds a file with its hash,
  -- and as many files besides as listings.
  pub record IsListed (entries : List TarEntry) : Type 0 where
    pub manifest : TarEntry
    pub files : List ManifestFile
    pub found : find_entry entries manifest_name ≡ some manifest
    pub parsed : parse_manifest_files realloc manifest.content ≡ some (ok files)
    pub matched : All (IsMatched sha256 entries) files
    pub counted : length files ≡ count_files entries

  -- The check of the manifest ends, and an archive that it accepts is listed.
  verify_manifest-Returns :
      (entries : List TarEntry)
      → Returns
          (λ (u : Unit {0}). IsListed entries)
          (verify_manifest sha256 realloc calloc (some entries))
  unfolding verify_manifest
  verify_manifest-Returns entries = elim (Option-cases (find_entry entries manifest_name)) [
    | inl missing ↦ rw (missing, verify_manifest) tt
    | inr (m, found) ↦
        elim (Returns-cases (parse_manifest_files realloc m.content)
          (parse_manifest_files-Returns realloc m.content)) [
            | inl (e, failed) ↦ rw (found, verify_manifest, failed) tt
            | inr (files, parsed, good) ↦
                elim (Result-cases (check_listing sha256 calloc entries files)) [
                  | inl (u, q) ↦
                      let accepted : verify_manifest sha256 realloc calloc (some entries)
                          ≡ some (ok tt) =
                        rw (found, verify_manifest, parsed, q) refl in
                      let (memory, all, count) =
                        (verify_manifest_iff sha256 realloc calloc entries m files found parsed).0
                          accepted in
                      rw (found, verify_manifest, parsed, q)
                        (record {
                          manifest = m;
                          files = files;
                          found = found;
                          parsed = parsed;
                          matched = all;
                          counted = count;
                        })
                  | inr (e, q) ↦ rw (found, verify_manifest, parsed, q) tt
                ]
          ]
  ]

module _ (Z : Zlib) (sha256 : Bytes → ℤ × Bytes) (mem : InstallMemory) where
  -- What is known of the entries before the first of them is written.
  pub record IsUnpacked (gz : Bytes) (entries : List TarEntry) : Type 0 where
    pub tar : Bytes
    pub inflated : IsInflated Z max_decompressed_size gz tar
    pub parsed : tar_parse mem.tar_entries (some tar) ≡ some (ok entries)
    pub safe : All (λ e. IsEntry tar e) entries
    pub verified :
        verify_manifest sha256 mem.manifest_files mem.matched_flags (some entries) ≡ some (ok tt)
    pub listed : IsListed sha256 mem.manifest_files mem.matched_flags entries

  pub unpack_verified-Returns :
      IsInflate Z → (gz : Bytes) → Returns (IsUnpacked gz) (unpack_verified Z sha256 mem gz)
  unfolding unpack_verified
  unpack_verified-Returns law gz =
      elim (Returns-cases (gunzip Z mem.gunzip_buf max_decompressed_size (some gz))
        (gunzip-Returns Z mem.gunzip_buf max_decompressed_size gz law (omega arith))) [
          | inl (e, failed) ↦ rw (failed, unpack_verified) tt
          | inr (tar, unzipped, inflated) ↦
              let fits = inflated.fits in
              elim (Returns-cases (tar_parse mem.tar_entries (some tar))
                (tar_parse-Returns mem.tar_entries tar (omega arith))) [
                  | inl (e, failed) ↦ rw (unzipped, unpack_verified, failed) tt
                  | inr (entries, parsed, safe) ↦
                      elim (Returns-cases
                        (verify_manifest sha256 mem.manifest_files mem.matched_flags (some entries))
                        (verify_manifest-Returns sha256 mem.manifest_files mem.matched_flags
                          entries)) [
                            | inl (e, failed) ↦ rw (unzipped, unpack_verified, parsed, failed) tt
                            | inr (u, verified, good) ↦
                                rw (unzipped, unpack_verified, parsed, verified)
                                  (record {
                                    tar = tar;
                                    inflated = inflated;
                                    parsed = parsed;
                                    safe = safe;
                                    verified = verified;
                                    listed = good;
                                  })
                          ]
                ]
        ]

  module _ (D : Device) where
    -- Under zlib's documented behaviour, an extraction ends for every input, whichever allocations
    -- fail. Either it returns an error and has changed nothing, or it writes the files of an archive
    -- that was inflated within the cap, whose paths are all safe, and that passed the check against
    -- its manifest: each listing of the manifest finds a file with its hash, and there are as many
    -- files, the manifest left out, as listings.
    pub installer_extract_cases :
        IsInflate Z
        → (gz dir : Bytes) (s : D.State)
        → ((e : InstallError) × (installer_extract D Z sha256 mem (some gz) (some dir) s
              ≡ some (err e, s)))
          ⊎ ((entries : List TarEntry) × (installer_extract D Z sha256 mem (some gz) (some dir) s
                ≡ some (write_entries D dir entries s))
              × IsUnpacked gz entries)
    unfolding installer_extract
    installer_extract_cases law gz dir s =
        elim (Returns-cases (unpack_verified Z sha256 mem gz) (unpack_verified-Returns law gz)) [
          | inl (e, failed) ↦ inl (e, rw (failed, installer_extract) refl)
          | inr (entries, unpacked, good) ↦
              inr (entries, rw (unpacked, installer_extract) refl, good)
        ]
