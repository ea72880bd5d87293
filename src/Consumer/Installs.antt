-- ===== src/Consumer/Installs.antt =====
-- consumer/src/main.c: what the files of a package hold after a successful run.
use fota_secure.Base.{
  ℕ, Option, ◌≡◌, ◌≢◌, refl, sym, ap, ◌∙◌, subst, true, List, [], ◌∷◌, ◌++◌, some, arith, Bytes,
  leb, length, length-append, same_bytes, Bool-cases, In, In-All, inl, inr,
}
use fota_secure.Device.{Device}
use fota_secure.Extract.{full_path, write_entries, unpack_verified, installer_extract}
use fota_secure.Extract.Pipeline.{IsUnpacked, unpack_verified-Returns}
use fota_secure.Install.{ok, Returns}
use fota_secure.Extract.Installs.{IsElsewhere, IsFileSystem, AreApart, write_entries-reads_back}
use fota_secure.Fcrypto.{Libcrypto}
use fota_secure.Gunzip.{Zlib, IsInflate}
use fota_secure.Tar.{TarEntry}
use fota_secure.Tar.Entry.{IsEntry}
use fota_secure.TarPath.{path_is_safe}
use fota_secure.TarPath.Components.{components}
use fota_secure.TarPath.Confined.{enter, resolve, path_is_safe-IsBelow}
use fota_secure.Verify.{manifest_name, is_file}
use fota_secure.Version.{Version}
use fota_secure.VersionFile.{render, write_text, version_write_installed}
use fota_secure.Consumer.{
  Exit, success, go, Memory, open_package, install_package, run, install_dir, version_file,
}
use fota_secure.Consumer.Safety.{finish, after_install}
use fota_secure.Consumer.Versions.{record_version-eq-success, finish-eq-success}

abbrev first_byte : List Bytes → ℕ
first_byte [] = 0
first_byte ([] ∷ ps) = 0
first_byte ((c ∷ p) ∷ ps) = c

-- The version file is not below the installation directory.
version_file_outside :
    (names : List Bytes)
    → ¬ (resolve [] (components version_file) ≡ names ++ resolve [] (components install_dir))
unfolding same_bytes enter resolve
version_file_outside [] e = absurd (omega (arith, ap first_byte e))
version_file_outside (n ∷ names) e =
    absurd (omega (arith, ap length e, length-append names (resolve [] (components install_dir))))

version_file-IsElsewhere :
    (path : Bytes)
    → path_is_safe (some path) ≡ true
    → IsElsewhere version_file (full_path install_dir path)
version_file-IsElsewhere path safe same =
    let below = path_is_safe-IsBelow [] install_dir path safe in
    version_file_outside below.names (same ∙ below.path_down)

module _ (D : Device) (fs : IsFileSystem D) where
  write_text-others :
      (path text q : Bytes) (s : D.State)
      → IsElsewhere path q
      → D.read_file q (write_text D path text s).1 ≡ D.read_file q s
  unfolding write_text
  write_text-others path text q s away =
      let e₁ = fs.by_open path q s away in
      let s₁ = (D.open_write path s).1 in
      let e₂ = fs.by_write path text q s₁ away in
      let e₃ = fs.by_close path q (D.write path text s₁).1 away in ground (arith, e₁, e₂, e₃)

  version_write_installed-others :
      (path q : Bytes) (v : Version) (s : D.State)
      → IsElsewhere path q
      → D.read_file q (version_write_installed D (some path) (some v) s).1 ≡ D.read_file q s
  unfolding version_write_installed
  version_write_installed-others path q v s away = elim (Bool-cases (leb 64 (length (render v)))) [
    | inl long ↦ rw (long, version_write_installed) refl
    | inr short ↦ rw (short, version_write_installed) (write_text-others path (render v) q s away)
  ]

  module _ (C : Libcrypto) (mem : Memory) (Z : Zlib) (law : IsInflate Z) where
    unpack_verified-IsUnpacked :
        (plaintext : Bytes) (entries : List TarEntry)
        → unpack_verified Z C.sha256 mem.install plaintext ≡ some (ok entries)
        → IsUnpacked Z C.sha256 mem.install plaintext entries
    unpack_verified-IsUnpacked plaintext entries unpacked =
        subst (Returns (IsUnpacked Z C.sha256 mem.install plaintext)) unpacked
          (unpack_verified-Returns Z C.sha256 mem.install law plaintext)

    module _ (d : Bytes) (secret : Option Bytes) (s : D.State) (plaintext : Bytes) (new : Version)
        (entries : List TarEntry) where
      extract-write_entries :
          unpack_verified Z C.sha256 mem.install plaintext ≡ some (ok entries)
          → installer_extract D Z C.sha256 mem.install (some plaintext) (some install_dir) s
            ≡ some (write_entries D install_dir entries s)
      unfolding installer_extract
      extract-write_entries unpacked = rw (unpacked, installer_extract) refl

      run-finish :
          open_package D C mem d secret s ≡ go (plaintext, new)
          → unpack_verified Z C.sha256 mem.install plaintext ≡ some (ok entries)
          → run D C mem Z d secret s
            ≡ some (finish D C mem new (write_entries D install_dir entries s))
      unfolding run install_package
      run-finish opened unpacked =
          let wrote = extract-write_entries unpacked in
          rw (opened, run, wrote, install_package)
            (after_install D C mem new (write_entries D install_dir entries s))

      -- Under zlib's documented behaviour, on a file system without links: if a package is accepted
      -- and unpacked to entries that lead to different places, and the run on it ends in success,
      -- then every file of the archive but the manifest is in its place below the installation
      -- directory, with the content that the archive has for it.
      pub run-reads_back :
          (s' : D.State)
          → open_package D C mem d secret s ≡ go (plaintext, new)
          → unpack_verified Z C.sha256 mem.install plaintext ≡ some (ok entries)
          → run D C mem Z d secret s ≡ some (success, s')
          → AreApart D fs install_dir entries
          → (e : TarEntry) → In e entries
          → is_file e ≡ true
          → e.path ≢ manifest_name
          → D.read_file (full_path install_dir e.path) s' ≡ some e.content
      run-reads_back s' opened unpacked ran apart e present f other =
          let wrote = write_entries D install_dir entries s in
          let i = unpack_verified-IsUnpacked plaintext entries unpacked in
          let finished = some_same (sym (run-finish opened unpacked) ∙ ran) in
          let (written, recorded) = finish-eq-success D C mem new wrote s' finished in
          let (zero_returned, same) = record_version-eq-success D C mem new wrote.1 s' recorded in
          let good = In-All (λ (x : TarEntry). IsEntry i.tar x) e entries i.safe present in
          let away = version_file-IsElsewhere e.path good.safe in
          ap (D.read_file (full_path install_dir e.path)) (sym same)
          ∙ version_write_installed-others version_file (full_path install_dir e.path) new wrote.1
              away
          ∙ write_entries-reads_back D fs install_dir entries s apart written e present f other
        where
          some_same : {a b : Exit × D.State} → some a ≡ some b → a ≡ b
          some_same same = cc
