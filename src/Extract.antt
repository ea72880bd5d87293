-- ===== src/Extract.antt =====
-- consumer/src/installer.c: writing the files, and `fota_installer_extract`.
pub mod Writes
pub mod Installs
pub mod Pipeline
use fota_secure.Base.{
  ℕ, ◌+◌, ◌*◌, Bool, true, false, not, ◌&&◌, ◌||◌, List, [], ◌∷◌, ◌++◌, Option, none, some, Bytes,
  leb, ltb, ◌==◌, same_bytes, if◌then◌else◌, length, ℤ,
}
use fota_secure.Device.{Device, MkdirResult, made, already_there, failed}
use fota_secure.Gunzip.{Zlib, gunzip}
use fota_secure.Install.{invalid_arg, io, InstallError, Result, ok, err}
use fota_secure.Tar.{TarEntry, EntryType, file, directory, tar_parse}
use fota_secure.Verify.{manifest_name, is_file, verify_manifest}

-- The size of `full_path`.
abbrev pub path_buf_size : ℕ
path_buf_size = 4096

abbrev pub max_decompressed_size : ℕ
max_decompressed_size = 512 * 1024 * 1024

-- `snprintf("%s/%s", install_dir, path)`
abbrev pub full_path : Bytes → Bytes → Bytes
full_path dir path = dir ++ b'/' ∷ path

-- Whether the allocations of one run succeed, by their size; no size is asked for twice in a loop.
pub record InstallMemory : Type 0 where
  pub gunzip_buf : ℕ → Bool
  pub tar_entries : ℕ → Bool
  pub manifest_files : ℕ → Bool
  pub matched_flags : ℕ → Bool

module _ (Z : Zlib) (sha256 : Bytes → ℤ × Bytes) (mem : InstallMemory) where
  -- The three steps that touch no file: the entries, once the archive is checked against its manifest.
  unfoldable pub unpack_verified : Bytes → Option (Result (List TarEntry))
  unpack_verified gz = elim (gunzip Z mem.gunzip_buf max_decompressed_size (some gz)) [
    | none ↦ none
    | some (err e) ↦ some (err e)
    | some (ok tar) ↦ elim (tar_parse mem.tar_entries (some tar)) [
      | none ↦ none
      | some (err e) ↦ some (err e)
      | some (ok entries) ↦
          elim (verify_manifest sha256 mem.manifest_files mem.matched_flags (some entries)) [
            | none ↦ none
            | some (err e) ↦ some (err e)
            | some (ok _) ↦ some (ok entries)
          ]
    ]
  ]

module _ (D : Device) where
  -- The loop over the slashes behind the directory: the path so far, and the rest of it.
  unfoldable pub make_parents : Bytes → Bytes → D.State → Bool × D.State
  make_parents done [] s = (true, s)
  make_parents done (c ∷ rest) s =
      let (made_it, s') = D.mkdir done s in
      let on = make_parents (done ++ c ∷ []) rest s in
      let after = make_parents (done ++ c ∷ []) rest s' in
      if not (c == b'/')
      then on
      else elim made_it [ failed ↦ (false, s') | made ↦ after | already_there ↦ after ]

  -- `ensure_parent_dirs`: whether it returned 0.
  unfoldable pub ensure_parent_dirs : Bytes → Bytes → D.State → Bool × D.State
  ensure_parent_dirs dir path s =
      if leb path_buf_size (length (full_path dir path))
      then (false, s)
      else make_parents (dir ++ b'/' ∷ []) path s

  -- `fwrite` is called only for a file that is not empty.
  unfoldable pub write_content : Bytes → Bytes → D.State → ℕ × D.State
  write_content path [] s = (0, s)
  write_content path (b ∷ content) s = D.write path (b ∷ content) s

  -- From `fopen` to `fclose`.
  unfoldable pub write_file : Bytes → Bytes → D.State → Bool × D.State
  write_file path content s =
      let (opened, s₁) = D.open_write path s in
      let (count, s₂) = write_content path content s₁ in
      let (closed, s₃) = D.close path s₂ in
      if not opened then (false, s₁) else (count == length content && closed, s₃)

  -- `write_entry_file`: whether it returned 0. The length test of the path is made again.
  unfoldable pub write_entry_file : Bytes → TarEntry → D.State → Bool × D.State
  write_entry_file dir e s =
      let (parents, s') = ensure_parent_dirs dir e.path s in
      if not parents
      then (false, s')
      else if leb path_buf_size (length (full_path dir e.path))
      then (false, s')
      else write_file (full_path dir e.path) e.content s'

  -- The loop that writes: directories and the manifest are passed over.
  unfoldable pub write_entries : Bytes → List TarEntry → D.State → Result (Unit {0}) × D.State
  write_entries dir [] s = (ok tt, s)
  write_entries dir (e ∷ es) s =
      let (written, s') = write_entry_file dir e s in
      let skip = write_entries dir es s in
      let next = write_entries dir es s' in
      if not (is_file e) || same_bytes e.path manifest_name
      then skip
      else if not written
      then (err io, s')
      else next

  module _ (Z : Zlib) (sha256 : Bytes → ℤ × Bytes) (mem : InstallMemory) where
    -- `fota_installer_extract`; `none` means that a loop's fuel ran out.
    unfoldable pub installer_extract :
        Option Bytes → Option Bytes → D.State → Option (Result (Unit {0}) × D.State)
    installer_extract none dir s = some (err invalid_arg, s)
    installer_extract (some gz) none s = some (err invalid_arg, s)
    installer_extract (some gz) (some dir) s = elim (unpack_verified Z sha256 mem gz) [
      | none ↦ none
      | some (err e) ↦ some (err e, s)
      | some (ok entries) ↦ some (write_entries dir entries s)
    ]
