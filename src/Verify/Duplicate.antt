-- ===== src/Verify/Duplicate.antt =====
-- consumer/src/installer.c: `fota_verify_manifest` on a manifest that lists a path twice.
use fota_secure.Base.{
  ℕ, ◌≡◌, ◌≢◌, inl, inr, refl, sym, ◌∙◌, Bool, true, List, [], ◌∷◌, some, Bytes, same_bytes_self, ℤ,
  Bool-cases, In,
}
use fota_secure.Install.{ok}
use fota_secure.Manifest.{ManifestFile, parse_manifest_files}
use fota_secure.Tar.{TarEntry}
use fota_secure.Verify.{manifest_name, is_file, find_entry, count_files, verify_manifest}
use fota_secure.Verify.Search.{paths, IsFileAt, IsFileAt-test, path_of, differ}
use fota_secure.Verify.Listing.{HasDigest, IsMatched, verify_manifest_iff}

module _ (sha256 : Bytes → ℤ × Bytes) where
  two_files-count :
      (m a b : TarEntry)
      → IsFileAt manifest_name m
      → is_file a ≡ true
      → a.path ≢ manifest_name
      → is_file b ≡ true
      → b.path ≢ manifest_name
      → count_files (m ∷ a ∷ b ∷ []) ≡ 2
  unfolding count_files
  two_files-count m a b (fm, qm) fa qa fb qb =
      rw
        (
          fm,
          qm,
          same_bytes_self manifest_name,
          fa,
          differ a.path manifest_name qa,
          fb,
          differ b.path manifest_name qb,
        )
        refl

  first_found :
      (x : TarEntry) (xs : List TarEntry) (path : Bytes)
      → IsFileAt path x
      → find_entry (x ∷ xs) path ≡ some x
  unfolding find_entry
  first_found x xs path at = rw (IsFileAt-test path x at) refl

  second_found :
      (x y : TarEntry) (xs : List TarEntry) (path : Bytes)
      → x.path ≢ path
      → IsFileAt path y
      → find_entry (x ∷ y ∷ xs) path ≡ some y
  unfolding find_entry
  second_found x y xs path other at = elim (Bool-cases (is_file x)) [
    | inl f ↦ rw (f, differ x.path path other, IsFileAt-test path y at) refl
    | inr f ↦ rw (f, IsFileAt-test path y at) refl
  ]

  -- The flags of the listings that matched are not read, so a path that is listed twice makes up
  -- for a file that is not listed. An archive of the manifest and two files `a` and `b`, whose
  -- manifest lists `a` twice with its hash and `b` not at all, is accepted, whatever `b` holds, if
  -- the flags could be allocated.
  pub verify_manifest-duplicate :
      (realloc calloc : ℕ → Bool) (m a b : TarEntry) (f : ManifestFile)
      → IsFileAt manifest_name m
      → parse_manifest_files realloc m.content ≡ some (ok (f ∷ f ∷ []))
      → IsFileAt f.path a
      → a.path ≢ manifest_name
      → HasDigest sha256 a f
      → is_file b ≡ true
      → b.path ≢ manifest_name
      → b.path ≢ f.path
      → calloc 3 ≡ true
      → (verify_manifest sha256 realloc calloc (some (m ∷ a ∷ b ∷ [])) ≡ some (ok tt))
        × (¬ In b.path (paths (f ∷ f ∷ [])))
  unfolding paths
  verify_manifest-duplicate realloc calloc m a b f at_m parsed at_a not_m good is_b b_not_m b_not_f
        memory =
      let found =
        second_found m a (b ∷ []) f.path
          (λ e. not_m (path_of f.path a at_a ∙ (sym e ∙ path_of manifest_name m at_m))) at_a in
      let matched : IsMatched sha256 (m ∷ a ∷ b ∷ []) f = (a, found, good) in
      (
        (verify_manifest_iff sha256 realloc calloc (m ∷ a ∷ b ∷ []) m (f ∷ f ∷ [])
              (first_found m (a ∷ b ∷ []) manifest_name at_m) parsed).1
            (
              memory,
              (matched, (matched, tt)),
              sym (two_files-count m a b at_m at_a.0 not_m is_b b_not_m),
            ),
        λ i. elim i [
          | inl e ↦ b_not_f e
          | inr (inl e) ↦ b_not_f e
          | inr (inr none_left) ↦ none_left
        ],
      )
