-- ===== src/Verify/Listing.antt =====
-- consumer/src/installer.c: `fota_verify_manifest` against the listings and the files.
use fota_secure.Base.{
  ℕ, ◌+◌, ◌≤◌, ◌≡◌, ◌≢◌, ◌↔◌, inl, inr, refl, sym, ap, ◌∙◌, subst, Bool, true, List, [], ◌∷◌, some,
  arith, Bytes, same_bytes_sound, same_bytes_self, length, All, max, ℤ, is_one, Option-cases, In,
  Distinct, In-All, fill,
}
use fota_secure.Install.{ok, ok-injective, Result-cases}
use fota_secure.Manifest.{ManifestFile, parse_manifest_files}
use fota_secure.Tar.{TarEntry}
use fota_secure.Verify.{
  manifest_name, bytes_to_hex_lower, is_file, find_entry, count_files, check_digest, match_loop,
  check_count, check_listing, verify_manifest,
}
use fota_secure.Verify.Search.{
  file_paths, paths, length-file_paths, length-paths, find_entry-IsFileAt, In-file_paths,
  find_entry_unique, some-injective,
}

module _ (sha256 : Bytes → ℤ × Bytes) where
  -- The content of an entry has the hash of a listing.
  pub record HasDigest (e : TarEntry) (f : ManifestFile) : Type 0 where
    pub hashed : is_one (sha256 e.content).0 ≡ true
    pub equal : bytes_to_hex_lower (sha256 e.content).1 ≡ f.sha256_hex

  check_digest-eq-ok :
      (e : TarEntry) (f : ManifestFile) {u : Unit {0}}
      → check_digest sha256 e f ≡ ok u
      → HasDigest e f
  unfolding check_digest
  check_digest-eq-ok e f h = record {
    hashed = ground arith;
    equal = same_bytes_sound (bytes_to_hex_lower (sha256 e.content).1) f.sha256_hex (ground arith);
  }

  check_digest-HasDigest :
      (e : TarEntry) (f : ManifestFile) → HasDigest e f → check_digest sha256 e f ≡ ok tt
  unfolding check_digest
  check_digest-HasDigest e f h = rw (h.hashed, h.equal, same_bytes_self f.sha256_hex) refl

  -- A listing whose path finds a file entry with its hash.
  abbrev pub IsMatched : List TarEntry → ManifestFile → Type 0
  IsMatched entries f = (e : TarEntry) × (find_entry entries f.path ≡ some e) × HasDigest e f

  match_loop_sound :
      (entries : List TarEntry) (fs : List ManifestFile) (k : ℕ) {n : ℕ}
      → match_loop sha256 entries fs k ≡ ok n
      → All (IsMatched entries) fs × (n ≡ k + length fs)
  unfolding match_loop
  match_loop_sound entries [] k h = (tt, sym (ok-injective _ _ h) ∙ omega arith)
  match_loop_sound entries (f ∷ fs) k {n} h = elim (Option-cases (find_entry entries f.path)) [
    | inl missing ↦ absurd (ground arith)
    | inr (e, found) ↦ elim (Result-cases (check_digest sha256 e f)) [
      | inr (why, bad) ↦ absurd (ground arith)
      | inl (u, good) ↦
          let rest : match_loop sha256 entries fs (k + 1) ≡ ok n = ground arith in
          let (all, count) : All (IsMatched entries) fs × (n ≡ k + 1 + length fs) =
            match_loop_sound entries fs (k + 1) rest in
          (((e, found, check_digest-eq-ok e f good), all), omega arith)
    ]
  ]

  match_loop_complete :
      (entries : List TarEntry) (fs : List ManifestFile) (k : ℕ)
      → All (IsMatched entries) fs
      → match_loop sha256 entries fs k ≡ ok (k + length fs)
  unfolding match_loop
  match_loop_complete entries [] k h = ap ok (omega arith)
  match_loop_complete entries (f ∷ fs) k ((e, found, good), h) =
      rw (found, match_loop, check_digest-HasDigest e f good)
        (match_loop_complete entries fs (k + 1) h ∙ ap ok (omega arith))

  module _ (realloc calloc : ℕ → Bool) (entries : List TarEntry) (m : TarEntry)
      (files : List ManifestFile) where
    verify_manifest-check_listing :
        find_entry entries manifest_name ≡ some m
        → parse_manifest_files realloc m.content ≡ some (ok files)
        → verify_manifest sha256 realloc calloc (some entries)
          ≡ some (check_listing sha256 calloc entries files)
    unfolding verify_manifest
    verify_manifest-check_listing found parsed = rw (found, verify_manifest, parsed) refl

    check_listing_sound :
        check_listing sha256 calloc entries files ≡ ok tt
        → (calloc (max (length entries) 1) ≡ true)
          × All (IsMatched entries) files
          × (length files ≡ count_files entries)
    unfolding check_listing check_count
    check_listing_sound h = elim (Result-cases (match_loop sha256 entries files 0)) [
      | inr (why, bad) ↦ absurd (ground arith)
      | inl (n, matched) ↦
          let (all, count) : All (IsMatched entries) files × (n ≡ 0 + length files) =
            match_loop_sound entries files 0 matched in
          (ground arith, all, ground arith)
    ]

    check_listing_complete :
        calloc (max (length entries) 1) ≡ true
        → All (IsMatched entries) files
        → length files ≡ count_files entries
        → check_listing sha256 calloc entries files ≡ ok tt
    unfolding check_listing check_count
    check_listing_complete memory all count =
        rw (memory, match_loop_complete entries files 0 all, count) (ground arith)

    -- An archive whose manifest was found and read is accepted if and only if every listing finds a
    -- file entry with its hash and there are as many file entries, the manifest left out, as
    -- listings, provided that the flags could be allocated.
    pub verify_manifest_iff :
        find_entry entries manifest_name ≡ some m
        → parse_manifest_files realloc m.content ≡ some (ok files)
        → (verify_manifest sha256 realloc calloc (some entries) ≡ some (ok tt)) ↔ (
            (calloc (max (length entries) 1) ≡ true)
            × All (IsMatched entries) files
            × (length files ≡ count_files entries))
    verify_manifest_iff found parsed =
        let same = verify_manifest-check_listing found parsed in
        (
          (λ h. check_listing_sound (some-injective _ _ (sym same ∙ h))),
          (λ (memory, all, count). same ∙ ap some (check_listing_complete memory all count)),
        )

    listed_are_files :
        All (IsMatched entries) files
        → ¬ In manifest_name (paths files)
        → (fs : List ManifestFile) → All (IsMatched entries) fs
        → ¬ In manifest_name (paths fs)
        → All (λ p. In p (file_paths entries)) (paths fs)
    unfolding paths
    listed_are_files h other [] all absent = tt
    listed_are_files h other (f ∷ fs) ((e, found, good), all) absent =
        let (i, at) = find_entry-IsFileAt entries f.path e found in
        (
          In-file_paths entries f.path e i at (λ q. absent (inl (sym q))),
          listed_are_files h other fs all (λ j. absent (inr j)),
        )

    listing_of :
        (p : Bytes) (fs : List ManifestFile)
        → All (IsMatched entries) fs
        → In p (paths fs)
        → (f : ManifestFile) × In f fs × (f.path ≡ p) × IsMatched entries f
    unfolding paths
    listing_of p [] all i = absurd i
    listing_of p (f ∷ fs) (good, all) (inl q) = (f, inl refl, sym q, good)
    listing_of p (f ∷ fs) (good, all) (inr i) =
        let (g, j, same, found) = listing_of p fs all i in (g, inr j, same, found)

    no_longer :
        length files ≡ count_files entries → length (file_paths entries) ≤ length (paths files)
    no_longer count = rw (length-file_paths entries, length-paths files, count) (omega arith)

    good_at :
        (e : TarEntry)
        → Distinct (file_paths entries)
        → In e entries
        → is_file e ≡ true
        → e.path ≢ manifest_name
        → (f : ManifestFile) → f.path ≡ e.path
        → IsMatched entries f
        → HasDigest e f
    good_at e unique i is_one_file other f same (e', found, good) =
        let here = find_entry_unique entries e.path e unique other i (is_one_file, refl) in
        subst (λ x. HasDigest x f)
          (some-injective e' e (sym found ∙ (ap (find_entry entries) same ∙ here))) good

    -- If an archive is accepted, the paths of its manifest are distinct and the manifest does not
    -- list itself, then every file entry but the manifest is listed, with the hash of its content.
    pub verify_manifest_covers :
        find_entry entries manifest_name ≡ some m
        → parse_manifest_files realloc m.content ≡ some (ok files)
        → Distinct (paths files)
        → ¬ In manifest_name (paths files)
        → verify_manifest sha256 realloc calloc (some entries) ≡ some (ok tt)
        → (e : TarEntry) → In e entries
        → is_file e ≡ true
        → e.path ≢ manifest_name
        → (f : ManifestFile) × In f files × (f.path ≡ e.path) × HasDigest e f
    verify_manifest_covers found parsed distinct absent h e i is_one_file other =
        let (memory, all, count) = (verify_manifest_iff found parsed).0 h in
        let (covered, unique) =
          fill (paths files) (file_paths entries) distinct
            (listed_are_files all absent files all absent) (no_longer count) in
        let listed =
          In-All (λ p. In p (paths files)) e.path (file_paths entries) covered
            (In-file_paths entries e.path e i (is_one_file, refl) other) in
        let (f, j, same, good) = listing_of e.path files all listed in
        (f, j, same, good_at e unique i is_one_file other f same good)
