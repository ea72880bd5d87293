-- ===== src/Tests/Listings.antt =====
-- Witnesses for the theorems on manifests and on their check against an archive.
use fota_secure.Base.{
  ◌≡◌, ◌≢◌, sym, ◌↔◌, inl, inr, refl, true, List, [], ◌∷◌, ◌++◌, some, arith, Bytes, codes,
  same_bytes, All, ℤ, In,
}
use fota_secure.Install.{manifest_parse, ok, err, Returns}
use fota_secure.Manifest.{ManifestFile, parse_manifest_files}
use fota_secure.Manifest.Escapes.{print_escaped, IsUnsupported, parse_manifest_files-print_escaped}
use fota_secure.Manifest.Layout.{
  IsSpacing, IsPlain, IsFirst, files_key, print_manifest, print_files,
}
use fota_secure.Manifest.Loops.{IsListing, parse_manifest_files-Returns}
use fota_secure.Manifest.RoundTrip.{parse_manifest_files-print_manifest}
use fota_secure.Tar.{file, TarEntry}
use fota_secure.Verify.{manifest_name, find_entry, count_files, verify_manifest, bytes_to_hex_lower}
use fota_secure.Verify.Listing.{IsMatched, HasDigest, verify_manifest_iff, verify_manifest_covers}
use fota_secure.Verify.Duplicate.{verify_manifest-duplicate}
use fota_secure.Verify.Search.{paths}
use fota_secure.Tests.Package.{
  one_space, tool, tool_bytes, tool_listing, before_files, manifest_bytes,
}
use fota_secure.Tests.World.{copying_crypto}
use fota_secure.Tests.Conditions.{have_no_nul, is_first, no_nul_by, is_first_by}

abbrev hash : Bytes → ℤ × Bytes
hash = copying_crypto.sha256

one_space-IsSpacing : IsSpacing one_space
one_space-IsSpacing = record {
  key = tt;
  colon = tt;
  value = (inl refl, tt);
  comma = tt;
  item = (inl refl, tt);
  close = tt;
  end = tt;
}

tool_listing-IsPlain : IsPlain tool_listing
unfolding have_no_nul
tool_listing-IsPlain = record {
  path_fits = omega arith;
  path_no_nul = no_nul_by tool refl;
  hash_size = refl;
  hash_no_nul = no_nul_by tool_listing.sha256_hex refl;
}

-- Two listings of one file.
abbrev twice : List ManifestFile
twice = tool_listing ∷ tool_listing ∷ []

files_key-IsFirst :
    (files : List ManifestFile)
    → IsFirst files_key before_files (
        files_key
        ++ (one_space.colon
            ++ (b':' ∷ (one_space.value ++ (b'[' ∷ print_files one_space files (codes "}"))))))
unfolding is_first same_bytes
files_key-IsFirst files =
    is_first_by files_key before_files
      (files_key
        ++ (one_space.colon
            ++ (b':' ∷ (one_space.value ++ (b'[' ∷ print_files one_space files (codes "}"))))))
      refl

parse_manifest_files-print_manifest_lem :
    (files : List ManifestFile)
    → All IsPlain files
    → parse_manifest_files (λ n. true) (print_manifest one_space before_files files (codes "}"))
      ≡ some (ok files)
parse_manifest_files-print_manifest_lem files plain =
    parse_manifest_files-print_manifest (λ n. true) one_space before_files files (codes "}")
      (λ n. refl) one_space-IsSpacing plain (files_key-IsFirst files)

parse_manifest_files-print_manifest_example :
    parse_manifest_files
      (λ n. true)
      (print_manifest one_space before_files (tool_listing ∷ []) (codes "}"))
    ≡ some (ok (tool_listing ∷ []))
parse_manifest_files-print_manifest_example =
    parse_manifest_files-print_manifest (λ n. true) one_space before_files (tool_listing ∷ [])
      (codes "}") (λ n. refl) one_space-IsSpacing (tool_listing-IsPlain, tt)
      (files_key-IsFirst (tool_listing ∷ []))

-- A list of files up to a name with a newline in it, which `json.dumps` prints as a backslash and an n.
abbrev escaped_list : Bytes
escaped_list = print_escaped one_space (tool_listing ∷ []) (codes "bin/a") b'n' (codes "b\"}]}")

escaped_list-IsFirst :
    IsFirst files_key before_files
      (files_key ++ (one_space.colon ++ (b':' ∷ (one_space.value ++ (b'[' ∷ escaped_list)))))
unfolding is_first same_bytes
escaped_list-IsFirst =
    is_first_by files_key before_files
      (files_key ++ (one_space.colon ++ (b':' ∷ (one_space.value ++ (b'[' ∷ escaped_list))))) refl

newline_escape-IsUnsupported : IsUnsupported b'n'
newline_escape-IsUnsupported = record {
  no_quote = λ e. absurd (omega (arith, e));
  no_backslash = λ e. absurd (omega (arith, e));
  no_slash = λ e. absurd (omega (arith, e));
}

parse_manifest_files-print_escaped_example :
    parse_manifest_files
      (λ n. true)
      (before_files
        ++ (files_key ++ (one_space.colon ++ (b':' ∷ (one_space.value ++ (b'[' ∷ escaped_list))))))
    ≡ some (err manifest_parse)
parse_manifest_files-print_escaped_example =
    parse_manifest_files-print_escaped (λ n. true) one_space before_files (tool_listing ∷ [])
      (codes "bin/a") b'n' (codes "b\"}]}") (λ n. refl) one_space-IsSpacing
      (tool_listing-IsPlain, tt) newline_escape-IsUnsupported escaped_list-IsFirst

parse_manifest_files-Returns_example :
    Returns (All (λ f. IsListing f)) (parse_manifest_files (λ n. true) manifest_bytes)
parse_manifest_files-Returns_example = parse_manifest_files-Returns (λ n. true) manifest_bytes

abbrev manifest_entry : Bytes → TarEntry
manifest_entry content = record { path = manifest_name; kind = file; content = content }

abbrev plain_file : Bytes → Bytes → TarEntry
plain_file path content = record { path = path; kind = file; content = content }

abbrev good_entries : List TarEntry
good_entries = manifest_entry manifest_bytes ∷ plain_file tool tool_bytes ∷ []

good_entries-found : find_entry good_entries manifest_name ≡ some (manifest_entry manifest_bytes)
unfolding find_entry same_bytes
good_entries-found = refl

tool_found : find_entry good_entries tool ≡ some (plain_file tool tool_bytes)
unfolding find_entry same_bytes
tool_found = refl

tool-HasDigest : HasDigest hash (plain_file tool tool_bytes) tool_listing
unfolding bytes_to_hex_lower
tool-HasDigest = record { hashed = refl; equal = refl }

manifest_bytes-parsed :
    parse_manifest_files (λ n. true) manifest_bytes ≡ some (ok (tool_listing ∷ []))
unfolding print_manifest
manifest_bytes-parsed =
    parse_manifest_files-print_manifest_lem (tool_listing ∷ []) (tool_listing-IsPlain, tt)

verify_manifest_iff_example :
    (verify_manifest hash (λ n. true) (λ n. true) (some good_entries) ≡ some (ok tt)) ↔ (
      (true ≡ true)
      × All (IsMatched hash good_entries) (tool_listing ∷ [])
      × (1 ≡ count_files good_entries))
verify_manifest_iff_example =
    verify_manifest_iff hash (λ n. true) (λ n. true) good_entries (manifest_entry manifest_bytes)
      (tool_listing ∷ []) good_entries-found manifest_bytes-parsed

good_entries-accepted :
    verify_manifest hash (λ n. true) (λ n. true) (some good_entries) ≡ some (ok tt)
unfolding count_files same_bytes
good_entries-accepted =
    (verify_manifest_iff hash (λ n. true) (λ n. true) good_entries (manifest_entry manifest_bytes)
        (tool_listing ∷ []) good_entries-found manifest_bytes-parsed).1
      (refl, ((plain_file tool tool_bytes, tool_found, tool-HasDigest), tt), refl)

not_manifest : tool ≢ manifest_name
not_manifest e = cc

tool_not_manifest : ¬ In manifest_name (paths (tool_listing ∷ []))
unfolding paths
tool_not_manifest (inl e) = not_manifest (sym e)
tool_not_manifest (inr i) = i

verify_manifest_covers_example :
    (f : ManifestFile) × In f (tool_listing ∷ [])
    × (f.path ≡ tool)
    × HasDigest hash (plain_file tool tool_bytes) f
unfolding paths
verify_manifest_covers_example =
    verify_manifest_covers hash (λ n. true) (λ n. true) good_entries (manifest_entry manifest_bytes)
      (tool_listing ∷ []) good_entries-found manifest_bytes-parsed (λ i. i, tt) tool_not_manifest
      good_entries-accepted (plain_file tool tool_bytes) (inr (inl refl)) refl not_manifest

twice_bytes-parsed :
    parse_manifest_files (λ n. true) (print_manifest one_space before_files twice (codes "}"))
    ≡ some (ok twice)
twice_bytes-parsed =
    parse_manifest_files-print_manifest_lem twice (tool_listing-IsPlain, (tool_listing-IsPlain, tt))

verify_manifest-duplicate_example :
    (verify_manifest hash
        (λ n. true)
        (λ n. true)
        (some (
          manifest_entry (print_manifest one_space before_files twice (codes "}"))
          ∷ plain_file tool tool_bytes
          ∷ plain_file (codes "evil") (codes "boo")
          ∷ []))
      ≡ some (ok tt))
    × (¬ In (codes "evil") (paths twice))
verify_manifest-duplicate_example =
    verify_manifest-duplicate hash (λ n. true) (λ n. true)
      (manifest_entry (print_manifest one_space before_files twice (codes "}")))
      (plain_file tool tool_bytes) (plain_file (codes "evil") (codes "boo")) tool_listing
      (refl, refl) twice_bytes-parsed (refl, refl) (λ e. cc) tool-HasDigest refl (λ e. cc) (λ e. cc)
      refl
