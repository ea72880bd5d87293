-- ===== src/Tests/Unpacking.antt =====
-- Witnesses for the theorems on archives, paths and extractions.
use fota_secure.Base.{
  ℕ, ◌^◌, ◌<◌, ◌≡◌, ◌↔◌, ◌⊎◌, inl, refl, true, List, [], ◌∷◌, ◌++◌, some, arith, Bytes, codes,
  same_bytes, length, replicate, All, ltb, ℤ,
}
use fota_secure.Consumer.{install_dir}
use fota_secure.Extract.{installer_extract, write_entries}
use fota_secure.Extract.Pipeline.{IsUnpacked, installer_extract_cases}
use mathlib.Core.List.{map}
use fota_secure.Gunzip.{gunzip}
use fota_secure.Gunzip.Bounds.{IsInflated, gunzip-Returns}
use fota_secure.Install.{InstallError, ok, err, Returns}
use fota_secure.Tar.{TarEntry, tar_parse}
use fota_secure.Tar.Entry.{IsEntry}
use fota_secure.Tar.Layout.{
  Member, archive, IsMember, entry_of, member_blocks, header, front, back, checksum,
}
use fota_secure.Tar.Loop.{tar_parse-Returns}
use fota_secure.Tar.RoundTrip.{tar_parse-archive}
use fota_secure.TarPath.{path_is_safe, no_dotdot, is_dotdot}
use fota_secure.TarPath.Components.{IsSafe, components, path_is_safe_iff}
use fota_secure.TarPath.Confined.{
  IsBelow, resolve, path_is_safe-IsBelow, path_is_safe-parent-IsBelow,
}
use fota_secure.Tests.Package.{member_of, tool, tool_bytes}
use fota_secure.Tests.World.{
  listing_device, stored, stored-IsInflate, copying_crypto, enough_install,
}
use fota_secure.Tests.Conditions.{are_below_256, have_no_nul, bytes_by, no_nul_by}

abbrev hash : Bytes → ℤ × Bytes
hash = copying_crypto.sha256

abbrev tool_member : Member
tool_member = member_of tool tool_bytes

tool_member-IsMember : IsMember tool_member
unfolding path_is_safe no_dotdot is_dotdot same_bytes have_no_nul are_below_256
tool_member-IsMember = record {
  safe = refl;
  short = omega arith;
  no_nul = no_nul_by tool refl;
  path_bytes = bytes_by tool refl;
  ids_size = refl;
  ids_bytes = bytes_by (replicate 24 b'0') refl;
  mtime_size = refl;
  mtime_bytes = bytes_by (replicate 12 b'0') refl;
  names_size = refl;
  names_bytes = bytes_by (replicate 188 0) refl;
  flag = inl refl;
  fits = omega arith;
  bare = λ e. cc;
}

abbrev tool_tar : Bytes
unfolding archive member_blocks header front back checksum
tool_tar = archive (tool_member ∷ []) []

tool_tar-short : ltb (length (archive (tool_member ∷ []) [])) (2 ^ 64) ≡ true
unfolding archive member_blocks header front back checksum
tool_tar-short = refl

below : (n m : ℕ) → ltb n m ≡ true → n < m
below n m h = ground arith

tar_parse-archive_example :
    tar_parse (λ n. true) (some (archive (tool_member ∷ []) []))
    ≡ some (ok (map entry_of (tool_member ∷ [])))
tar_parse-archive_example =
    tar_parse-archive (λ n. true) (tool_member ∷ []) [] (λ n. refl) (tool_member-IsMember, tt)
      (below (length (archive (tool_member ∷ []) [])) (2 ^ 64) tool_tar-short)

tar_parse-Returns_example :
    Returns
      (All (λ e. IsEntry (archive (tool_member ∷ []) []) e))
      (tar_parse (λ n. true) (some (archive (tool_member ∷ []) [])))
tar_parse-Returns_example =
    tar_parse-Returns (λ n. true) (archive (tool_member ∷ []) [])
      (below (length (archive (tool_member ∷ []) [])) (2 ^ 64) tool_tar-short)

gunzip-Returns_example :
    Returns (IsInflated stored 100 tool_bytes) (gunzip stored (λ n. true) 100 (some tool_bytes))
gunzip-Returns_example =
    gunzip-Returns stored (λ n. true) 100 tool_bytes stored-IsInflate (omega arith)

path_is_safe_iff_example : (path_is_safe (some (codes "a/../b")) ≡ true) ↔ IsSafe (codes "a/../b")
path_is_safe_iff_example = path_is_safe_iff (codes "a/../b")

tool-safe : path_is_safe (some tool) ≡ true
unfolding path_is_safe no_dotdot is_dotdot same_bytes
tool-safe = refl

path_is_safe-IsBelow_example :
    IsBelow
      (resolve [] (components install_dir))
      (resolve [] (components (install_dir ++ b'/' ∷ tool)))
path_is_safe-IsBelow_example = path_is_safe-IsBelow [] install_dir tool tool-safe

path_is_safe-parent-IsBelow_example :
    IsBelow
      (resolve [] (components install_dir))
      (resolve [] (components (install_dir ++ b'/' ∷ codes "bin")))
path_is_safe-parent-IsBelow_example =
    path_is_safe-parent-IsBelow [] install_dir (codes "bin") (codes "tool") tool-safe

installer_extract_cases_example :
    ((e : InstallError) × (installer_extract listing_device stored hash enough_install
          (some tool_tar)
          (some install_dir)
          []
        ≡ some (err e, [])))
    ⊎ ((entries : List TarEntry) × (installer_extract listing_device stored hash enough_install
            (some tool_tar)
            (some install_dir)
            []
          ≡ some (write_entries listing_device install_dir entries []))
        × IsUnpacked stored hash enough_install tool_tar entries)
installer_extract_cases_example =
    installer_extract_cases stored hash enough_install listing_device stored-IsInflate tool_tar
      install_dir []
