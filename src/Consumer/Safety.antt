-- ===== src/Consumer/Safety.antt =====
-- consumer/src/main.c: the outcomes of a run.
use fota_secure.Base.{◌≡◌, ◌≢◌, ◌⊎◌, inl, inr, refl, List, Option, none, some, Bytes}
use fota_secure.Device.{Device}
use fota_secure.Extract.{write_entries}
use fota_secure.Extract.Pipeline.{IsUnpacked, installer_extract_cases}
use fota_secure.Fcrypto.{Libcrypto}
use fota_secure.Gunzip.{Zlib, IsInflate}
use fota_secure.Install.{Result, ok, err}
use fota_secure.Tar.{TarEntry}
use fota_secure.Version.{Version}
use fota_secure.Consumer.{
  Exit, success, Step, go, leave, Memory, open_package, install_package, record_version, run,
  install_result_to_exit_code, install_dir,
}
use fota_secure.Consumer.Failures.{open_package-IsFailing, install_result_to_exit_code-ne-success}
use fota_secure.Consumer.Opened.{IsOpened, open_package-eq-go}

Step-cases : {A : Type 0} (m : Step A) → ((e : Exit) × (m ≡ leave e)) ⊎ ((a : A) × (m ≡ go a))
Step-cases (leave e) = inl (e, refl)
Step-cases (go a) = inr (a, refl)

module _ (D : Device) (C : Libcrypto) (mem : Memory) where
  -- The end of a run, by how writing the files ended.
  abbrev pub finish : Version → Result (Unit {0}) × D.State → Exit × D.State
  finish new (err e, s) = (install_result_to_exit_code e, s)
  finish new (ok u, s) = record_version D C mem new s

  pub after_install :
      (new : Version) (r : Result (Unit {0}) × D.State)
      → (elim (some r) [
        | none ↦ none
        | some (err e, s') ↦ some (install_result_to_exit_code e, s')
        | some (ok _, s') ↦ some (record_version D C mem new s')
      ])
        ≡ some (finish new r)
  after_install new (err e, s) = refl
  after_install new (ok u, s) = refl

  module _ (Z : Zlib) (law : IsInflate Z) (d : Bytes) (secret : Option Bytes) (s : D.State) where
    -- A run that wrote: what was established before it did.
    pub record IsInstalling (result : Exit × D.State) : Type 0 where
      pub plaintext : Bytes
      pub new : Version
      pub entries : List TarEntry
      pub opened : IsOpened D C mem d secret s plaintext new
      pub unpacked : IsUnpacked Z C.sha256 mem.install plaintext entries
      pub finished : result ≡ finish new (write_entries D install_dir entries s)

    -- Under zlib's documented behaviour, `main` ends for every package that it has read, whichever
    -- allocations fail. Either it leaves the state as it was and its exit is not success, or, before
    -- the first file was written, the header was accepted for this platform and version, the disk
    -- had room for the ciphertext, the signature over the package was verified with the provisioned
    -- key, the payload was decrypted, every entry of the archive had a safe path, each listing of
    -- the archive's manifest found a file with its hash, and there were as many files, the manifest
    -- left out, as listings.
    pub run_cases :
        ((e : Exit) × (e ≢ success) × (run D C mem Z d secret s ≡ some (e, s)))
        ⊎ ((result : Exit × D.State) × (run D C mem Z d secret s ≡ some result)
            × IsInstalling result)
    unfolding run install_package
    run_cases = elim (Step-cases (open_package D C mem d secret s)) [
      | inl (e, left) ↦
          inl (e, (open_package-IsFailing D C mem d secret s).failed e left, rw (left, run) refl)
      | inr ((plaintext, new), opened) ↦
          let established = open_package-eq-go D C mem d secret s plaintext new opened in
          elim (installer_extract_cases Z C.sha256 mem.install D law plaintext install_dir s) [
            | inl (e, refused) ↦ inl (
              install_result_to_exit_code e,
              install_result_to_exit_code-ne-success e,
              rw (opened, run, refused, install_package) refl,
            )
            | inr (entries, wrote, unpacked) ↦ inr (
              finish new (write_entries D install_dir entries s),
              rw (opened, run, wrote, install_package)
                  (after_install new (write_entries D install_dir entries s)),
              record {
                plaintext = plaintext;
                new = new;
                entries = entries;
                opened = established;
                unpacked = unpacked;
                finished = refl;
              },
            )
          ]
    ]
