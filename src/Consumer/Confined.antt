-- ===== src/Consumer/Confined.antt =====
-- consumer/src/main.c: the paths that a run writes to.
use fota_secure.Base.{
  ◌≡◌, inl, inr, sym, subst, Option, some, Bytes, All, true, arith, leb, length, Bool-cases, List,
  [], ◌∷◌,
}
use fota_secure.Device.{Device}
use fota_secure.Extract.{write_entries}
use fota_secure.Extract.Writes.{IsKept, write_entries-keeps}
use fota_secure.Fcrypto.{Libcrypto}
use fota_secure.Gunzip.{Zlib, IsInflate}
use fota_secure.Install.{Result, ok, err}
use fota_secure.Tar.Entry.{IsEntry}
use fota_secure.TarPath.{path_is_safe}
use fota_secure.Version.{Version}
use fota_secure.VersionFile.{render, write_text, version_write_installed}
use fota_secure.Consumer.{Exit, Memory, record_version, run, install_dir, version_file}
use fota_secure.Consumer.Safety.{finish, run_cases}

-- A property of the state that no call on a path inside of the installation directory changes, and
-- no call on the version file.
pub record IsApart (D : Device) (P : D.State → Type 0) : Type 0 where
  pub inside : IsKept D install_dir P
  pub by_open : (s : D.State) → P s → P (D.open_write version_file s).1
  pub by_write : (b : Bytes) (s : D.State) → P s → P (D.write version_file b s).1
  pub by_close : (s : D.State) → P s → P (D.close version_file s).1

All-map :
    {A : Type 0} (P Q : A → Type 0) → ((x : A) → P x → Q x) → (xs : List A) → All P xs → All Q xs
All-map P Q f [] h = tt
All-map P Q f (x ∷ xs) (h, hs) = (f x h, All-map P Q f xs hs)

module _ (D : Device) (P : D.State → Type 0) (apart : IsApart D P) where
  write_text-keeps : (text : Bytes) (s : D.State) → P s → P (write_text D version_file text s).1
  unfolding write_text
  write_text-keeps text s p =
      let p₁ = apart.by_open s p in
      let p₂ = apart.by_write text (D.open_write version_file s).1 p₁ in
      let p₃ = apart.by_close (D.write version_file text (D.open_write version_file s).1).1 p₂ in
      ground arith

  version_write_installed-keeps :
      (v : Version) (s : D.State)
      → P s
      → P (version_write_installed D (some version_file) (some v) s).1
  unfolding version_write_installed
  version_write_installed-keeps v s p = elim (Bool-cases (leb 64 (length (render v)))) [
    | inl long ↦ rw (long, version_write_installed) p
    | inr short ↦ rw (short, version_write_installed) (write_text-keeps (render v) s p)
  ]

  module _ (C : Libcrypto) (mem : Memory) where
    record_version-keeps : (new : Version) (s : D.State) → P s → P (record_version D C mem new s).1
    unfolding record_version
    record_version-keeps new s p = let p' = version_write_installed-keeps new s p in ground arith

    finish-keeps :
        (new : Version) (r : Result (Unit {0}) × D.State) → P r.1 → P (finish D C mem new r).1
    finish-keeps new (err e, s) p = p
    finish-keeps new (ok u, s) p = record_version-keeps new s p

    module _ (Z : Zlib) (law : IsInflate Z) (d : Bytes) (secret : Option Bytes) (s : D.State) where
      -- Under zlib's documented behaviour, a run ends, and whichever way it ends, it keeps every
      -- property of the state that no call on a path inside of the installation directory changes
      -- and no call on the version file.
      pub run-keeps :
          P s → (result : Exit × D.State) × (run D C mem Z d secret s ≡ some result) × P result.1
      run-keeps p = elim (run_cases D C mem Z law d secret s) [
        | inl (e, failed, left) ↦ ((e, s), left, p)
        | inr (result, ran, i) ↦ (
          result,
          ran,
          subst (λ (r : Exit × D.State). P r.1) (sym i.finished)
              (finish-keeps i.new (write_entries D install_dir i.entries s) (
                write_entries-keeps D install_dir P apart.inside i.entries s
                  (All-map (λ e. IsEntry i.unpacked.tar e) (λ e. path_is_safe (some e.path) ≡ true)
                    (λ e h. h.safe) i.entries i.unpacked.safe)
                  p)),
        )
      ]
