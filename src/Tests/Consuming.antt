-- ===== src/Tests/Consuming.antt =====
-- Witnesses for the theorems on `main` and its parts: an update that is installed.
use fota_secure.Base.{
  ◌^◌, ◌<◌, ◌≡◌, ◌≢◌, ◌⊎◌, inl, inr, refl, sym, ap, subst, true, false, List, [], ◌∷◌, none, some,
  arith, Bytes, codes, ltb, same_bytes, same_bytes_sound, length, length-append, ◌++◌, All,
  Bool-cases,
}
use fota_secure.Consumer.{
  Exit, success, generic_failure, version_file, signing_public_key_file, install_dir, read_all, run,
  main, parse_secret,
}
use fota_secure.Consumer.Confined.{IsApart}
use fota_secure.Consumer.Input.{Refused, read_all_cases}
use fota_secure.Consumer.Main.{IsBounded, IsRunOn, main_cases, main-keeps, main_success}
use fota_secure.Consumer.Safety.{IsInstalling, run_cases}
use fota_secure.Consumer.Versions.{IsUpdate, run_success, run_again}
use fota_secure.Extract.{write_entries}
use fota_secure.Extract.Writes.{IsInside, write_entries-keeps}
use fota_secure.Tar.{TarEntry, file}
use fota_secure.TarPath.{path_is_safe, no_dotdot, is_dotdot}
use fota_secure.TarPath.Confined.{resolve, enter}
use fota_secure.TarPath.Components.{components}
use fota_secure.Tests.Package.{device_files, tool, tool_bytes, update, update_small}
use fota_secure.Tests.Runs.{updated_files, installs, main_installs}
use fota_secure.Tests.World.{
  Files, find_file, listing_device, listing_device-ReadsBack, stored, stored-IsInflate,
  copying_crypto, enough,
}

run_cases_example :
    ((e : Exit) × (e ≢ success)
      × (run listing_device copying_crypto enough stored update none device_files
          ≡ some (e, device_files)))
    ⊎ ((result : Exit × Files) × (run listing_device copying_crypto enough stored update none
            device_files
          ≡ some result)
        × IsInstalling listing_device copying_crypto enough stored stored-IsInflate update none
            device_files result)
run_cases_example =
    run_cases listing_device copying_crypto enough stored stored-IsInflate update none device_files

run_success_example :
    IsUpdate listing_device copying_crypto enough stored stored-IsInflate listing_device-ReadsBack
      update none device_files updated_files
run_success_example =
    run_success listing_device copying_crypto enough stored stored-IsInflate
      listing_device-ReadsBack update none device_files updated_files installs

run_again_example :
    run listing_device copying_crypto enough stored update (some (codes "secret")) updated_files
    ≡ some (Exit.up_to_date, updated_files)
run_again_example =
    run_again listing_device copying_crypto enough stored stored-IsInflate listing_device-ReadsBack
      update none (some (codes "secret")) device_files updated_files installs

find_file-All :
    (P : Bytes → Type 0) (s : Files)
    → All (λ (f : Bytes × Bytes). P f.1) s
    → (path b : Bytes) → find_file path s ≡ some b
    → P b
unfolding find_file
find_file-All P [] h path b e = cc
find_file-All P ((name, content) ∷ s) (p, h) path b e = elim (Bool-cases (same_bytes path name)) [
  | inl here ↦ subst P (found (rw here at e)) p
  | inr there ↦ find_file-All P s h path b (rw there at e)
]
  where
    found : {x y : Bytes} → some x ≡ some y → x ≡ y
    found e = cc

device_files-IsBounded : IsBounded listing_device device_files
device_files-IsBounded = record {
  by_stdin = omega arith;
  by_file =
      find_file-All (λ b. length b < 2 ^ 63) device_files
        (omega arith, (small update update_small, (omega arith, (omega arith, (omega arith, tt)))));
}
  where
    small : (b : Bytes) → ltb (length b) (2 ^ 63) ≡ true → length b < 2 ^ 63
    small b h = ground arith

main_cases_example :
    (main listing_device copying_crypto enough stored (codes "update.fota" ∷ []) device_files
      ≡ some (generic_failure, device_files))
    ⊎ ((result : Exit × Files) × (main listing_device copying_crypto enough stored
            (codes "update.fota" ∷ [])
            device_files
          ≡ some result)
        × IsRunOn listing_device copying_crypto enough stored
            (codes "update.fota" ∷ [])
            device_files
            result)
main_cases_example =
    main_cases listing_device copying_crypto enough stored stored-IsInflate
      (codes "update.fota" ∷ []) device_files device_files-IsBounded

main_success_example :
    (on : IsRunOn listing_device copying_crypto enough stored
      (codes "update.fota" ∷ [])
      device_files
      (success, updated_files))
    × IsUpdate listing_device copying_crypto enough stored stored-IsInflate listing_device-ReadsBack
        on.d
        (parse_secret on.rest none)
        device_files
        updated_files
main_success_example =
    main_success listing_device copying_crypto enough stored stored-IsInflate
      listing_device-ReadsBack (codes "update.fota" ∷ []) device_files updated_files
      device_files-IsBounded main_installs

-- The public key is in its place.
abbrev HasKey : Files → Type 0
HasKey s = find_file signing_public_key_file s ≡ some (codes "pub")

HasKey-cons :
    (path content : Bytes) (s : Files)
    → same_bytes signing_public_key_file path ≡ false
    → HasKey s
    → HasKey ((path, content) ∷ s)
unfolding find_file
HasKey-cons path content s other h = rw other h

-- The key is not below the installation directory.
key_not_below :
    (names : List Bytes)
    → ¬ (
        resolve [] (components signing_public_key_file)
        ≡ names ++ resolve [] (components install_dir))
unfolding same_bytes resolve enter
key_not_below [] e = cc
key_not_below (n ∷ names) e =
    absurd (omega (arith, ap length e, length-append names (resolve [] (components install_dir))))

key_outside :
    (path : Bytes) → IsInside install_dir path → same_bytes signing_public_key_file path ≡ false
unfolding same_bytes resolve enter
key_outside path inside = elim (Bool-cases (same_bytes signing_public_key_file path)) [
  | inr other ↦ other
  | inl same ↦
      let b =
        subst (IsInside install_dir) (sym (same_bytes_sound signing_public_key_file path same))
          inside [] in
      absurd (key_not_below b.names b.path_down)
]

HasKey-IsApart : IsApart listing_device HasKey
unfolding same_bytes
HasKey-IsApart = record {
  inside = record {
    by_mkdir = λ path s inside h. h;
    by_open = λ path s inside h. HasKey-cons path [] s (key_outside path inside) h;
    by_write = λ path b s inside h. HasKey-cons path b s (key_outside path inside) h;
    by_close = λ path s inside h. h;
  };
  by_open = λ s h. HasKey-cons version_file [] s refl h;
  by_write = λ b s h. HasKey-cons version_file b s refl h;
  by_close = λ s h. h;
}

device_files-HasKey : HasKey device_files
unfolding find_file same_bytes
device_files-HasKey = refl

main-keeps_example :
    (result : Exit × Files) × (main listing_device copying_crypto enough stored
        (codes "update.fota" ∷ [])
        device_files
      ≡ some result)
    × HasKey result.1
main-keeps_example =
    main-keeps listing_device copying_crypto enough stored stored-IsInflate HasKey HasKey-IsApart
      (codes "update.fota" ∷ []) device_files device_files-IsBounded device_files-HasKey

read_all_cases_example :
    (read_all (λ n. true) tool_bytes false ≡ some (some tool_bytes))
    ⊎ ((read_all (λ n. true) tool_bytes false ≡ some none) × Refused (λ n. true))
read_all_cases_example = read_all_cases (λ n. true) tool_bytes false (omega arith)

abbrev tool_entries : List TarEntry
tool_entries = record { path = tool; kind = file; content = tool_bytes } ∷ []

tool_safe : path_is_safe (some tool) ≡ true
unfolding path_is_safe no_dotdot is_dotdot same_bytes
tool_safe = refl

write_entries-keeps_example :
    HasKey (write_entries listing_device install_dir tool_entries device_files).1
write_entries-keeps_example =
    write_entries-keeps listing_device install_dir HasKey HasKey-IsApart.inside tool_entries
      device_files (tool_safe, tt) device_files-HasKey
