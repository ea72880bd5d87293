-- ===== src/VersionFile/Reads.antt =====
-- consumer/src/version.c: `fota_version_read_installed` and the stored secret hash.
use fota_secure.Base.{
  ◌≡◌, ◌↔◌, inl, inr, refl, sym, ap, ◌∙◌, subst, not, ◌||◌, Option, none, some, arith, Bytes, ◌==◌,
  if◌then◌else◌, c_str, length, length-take, length-drop, take, drop, take_all, Bool-cases,
  Option-cases,
}
use fota_secure.Device.{Device}
use fota_secure.Version.{Version}
use fota_secure.VersionFile.{
  ReadResult, ok, no_version, read_content, version_read_installed, read_downgrade_secret_hash,
}
use fota_secure.VersionFile.RoundTrip.{IsVersion, Spells-words}
use fota_secure.VersionFile.Contents.{
  ReadsAs, read_content-ReadsAs, read_content-of-ReadsAs, missing, long, blank, version, garbled,
}

no_version-IsVersion : IsVersion no_version
no_version-IsVersion = record { four = refl; words = omega arith }

module _ (D : Device) where
  version_read_installed-none :
      (path : Bytes) (s : D.State)
      → D.read_file path s ≡ none
      → version_read_installed D (some path) s ≡ (ok, no_version)
  unfolding version_read_installed
  version_read_installed-none path s e = rw (e, version_read_installed) refl

  version_read_installed-some :
      (path content : Bytes) (s : D.State)
      → D.read_file path s ≡ some content
      → version_read_installed D (some path) s ≡ read_content content
  unfolding version_read_installed
  version_read_installed-some path content s e = rw (e, version_read_installed) refl

  version_read_installed-ReadsAs :
      (path : Bytes) (s : D.State)
      → ReadsAs (D.read_file path s) (version_read_installed D (some path) s)
  version_read_installed-ReadsAs path s = elim (Option-cases (D.read_file path s)) [
    | inl gone ↦ rw (gone, version_read_installed-none path s gone) missing
    | inr (content, there) ↦
        rw (there, version_read_installed-some path content s there) (read_content-ReadsAs content)
  ]

  -- What the version file is read as: a missing file, an empty one and one of white space stand for
  -- 0.0.0.0; a text with white space behind it, 64 bytes at most, stands for the version that its
  -- bytes before the first NUL spell; a longer file, and a text that spells none, are an error.
  pub version_read_installed_iff :
      (path : Bytes) (s : D.State) (r : ReadResult × Version)
      → (version_read_installed D (some path) s ≡ r) ↔ ReadsAs (D.read_file path s) r
  version_read_installed_iff path s r = (
    λ e. subst (ReadsAs (D.read_file path s)) e (version_read_installed-ReadsAs path s),
    λ h. elim (Option-cases (D.read_file path s)) [
      | inl gone ↦ version_read_installed-none path s gone ∙ of_none r (rw gone at h)
      | inr (content, there) ↦
          version_read_installed-some path content s there
          ∙ read_content-of-ReadsAs content r (rw there at h)
    ],
  )
    where
      of_none : (r : ReadResult × Version) → ReadsAs none r → (ok, no_version) ≡ r
      of_none r missing = refl

  -- The installed version has four parts of 32 bits, whatever the file holds.
  pub version_read_installed-IsVersion :
      (path : Option Bytes) (s : D.State) (v : Version)
      → version_read_installed D path s ≡ (ok, v)
      → IsVersion v
  unfolding version_read_installed
  version_read_installed-IsVersion none s v e =
      subst IsVersion (ap (λ (r : ReadResult × Version). r.1) e) no_version-IsVersion
  version_read_installed-IsVersion (some path) s v e =
      of_ReadsAs (D.read_file path s) (ok, v) ((version_read_installed_iff path s (ok, v)).0 e)
    where
      of_ReadsAs : (f : Option Bytes) (r : ReadResult × Version) → ReadsAs f r → IsVersion r.1
      of_ReadsAs f r missing = no_version-IsVersion
      of_ReadsAs f r (long h) = no_version-IsVersion
      of_ReadsAs f r (blank h t) = no_version-IsVersion
      of_ReadsAs f r (version {v = w} text h t filled four sp) = record {
        four = four;
        words = Spells-words w.parts (c_str text) sp;
      }
      of_ReadsAs f r (garbled text h t filled unspelt) = no_version-IsVersion

  secret_hash_content :
      (content hash : Bytes)
      → ((if not (length (take 32 content) == 32) || not (length (take 1 (drop 32 content)) == 0)
            then none
            else some (take 32 content))
          ≡ some hash)
        ↔ ((content ≡ hash) × (length hash ≡ 32))
  secret_hash_content content hash =
      let kept = length-take 32 content in
      let more = length-take 1 (drop 32 content) in
      let left = length-drop 32 content in
      (
        λ e. elim (Bool-cases (length content == 32)) [
          | inl exact ↦ let whole = take_all 32 content (ground arith) in ground arith
          | inr other ↦ absurd (ground arith)
        ],
        λ (same, size).
            let size' : length content ≡ 32 = ap length same ∙ size in
            let whole = take_all 32 content (omega arith) in ground arith,
      )

  -- A secret hash is stored exactly if its file is there and holds just the 32 bytes of the hash.
  pub read_downgrade_secret_hash_iff :
      (path hash : Bytes) (s : D.State)
      → (read_downgrade_secret_hash D path s ≡ some hash)
        ↔ ((D.read_file path s ≡ some hash) × (length hash ≡ 32))
  unfolding read_downgrade_secret_hash
  read_downgrade_secret_hash_iff path hash s = elim (Option-cases (D.read_file path s)) [
    | inl gone ↦ (
      λ e. cc (rw (gone, read_downgrade_secret_hash) at e),
      λ (found, size). cc (sym gone ∙ found),
    )
    | inr (content, there) ↦ (
      λ e.
          let (same, size) =
            (secret_hash_content content hash).0 (rw (there, read_downgrade_secret_hash) at e) in
          (there ∙ ap some same, size),
      λ (found, size).
          rw (there, read_downgrade_secret_hash)
            ((secret_hash_content content hash).1 (cc (sym there ∙ found), size)),
    )
  ]
