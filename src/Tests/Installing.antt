-- ===== src/Tests/Installing.antt =====
-- Witness for the theorem on the files that a run leaves behind.
use fota_secure.Base.{
  ◌≡◌, ◌≢◌, refl, sym, ap, inl, inr, [], ◌∷◌, some, none, arith, Bytes, length, same_bytes,
  same_bytes_sound, same_bytes_self, Bool-cases,
}
use fota_secure.Consumer.{install_dir}
use fota_secure.Consumer.Installs.{run-reads_back}
use fota_secure.Extract.{full_path}
use fota_secure.Extract.Installs.{IsElsewhere, IsFileSystem, AreApart}
use fota_secure.Tar.{file}
use fota_secure.TarPath.Components.{components}
use fota_secure.TarPath.Confined.{enter, resolve}
use fota_secure.Verify.{manifest_name}
use fota_secure.VersionFile.RoundTrip.{version_of}
use fota_secure.Tests.Package.{device_files, tar_bytes, tool, tool_bytes, update}
use fota_secure.Tests.Runs.{updated_files, installs, package_entries, opens, unpacks}
use fota_secure.Tests.World.{
  Files, find_file, listing_device, listing_device-ReadsBack, stored, stored-IsInflate,
  copying_crypto, enough,
}

find_file-others :
    (path content q : Bytes) (s : Files)
    → IsElsewhere path q
    → find_file q ((path, content) ∷ s) ≡ find_file q s
unfolding find_file
find_file-others path content q s away = elim (Bool-cases (same_bytes q path)) [
  | inl same ↦
      absurd (away (ap (λ p. resolve [] (components p)) (sym (same_bytes_sound q path same))))
  | inr other ↦ rw other refl
]

listing_device-IsFileSystem : IsFileSystem listing_device
unfolding find_file
listing_device-IsFileSystem = record {
  written = listing_device-ReadsBack;
  created = λ path s opened closed. rw (same_bytes_self path) refl;
  by_mkdir = λ path q b s there. there;
  by_open = λ path q s away. find_file-others path [] q s away;
  by_write = λ path b q s away. find_file-others path b q s away;
  by_close = λ path q s away. refl;
}

package_entries-AreApart :
    AreApart listing_device listing_device-IsFileSystem install_dir package_entries
unfolding resolve enter same_bytes
package_entries-AreApart = ((deeper, tt), (tt, tt))
  where
    deeper : IsElsewhere (full_path install_dir tool) (full_path install_dir manifest_name)
    deeper same = absurd (omega (arith, ap length same))

not_manifest : tool ≢ manifest_name
not_manifest e = cc

run-reads_back_example : find_file (full_path install_dir tool) updated_files ≡ some tool_bytes
run-reads_back_example =
    run-reads_back listing_device listing_device-IsFileSystem copying_crypto enough stored
      stored-IsInflate update none device_files tar_bytes (version_of 1 2 0 0) package_entries
      updated_files opens unpacks installs package_entries-AreApart
      (record { path = tool; kind = file; content = tool_bytes }) (inr (inl refl)) refl not_manifest
