-- ===== src/Manifest/Layout.antt =====
-- The text of manifest.json in the order of packager/fota_secure/manifest.py, with any white space
-- between its tokens, and with no reference to the parser. Each piece stands in front of what
-- follows it. Of the escapes of `json.dumps`, these are the two that the parser shares.
use fota_secure.Base.{
  ℕ, ◌≤◌, ◌≡◌, ◌≢◌, ◌⊎◌, ◌||◌, List, [], ◌∷◌, ◌++◌, Bytes, codes, ◌==◌, if◌then◌else◌, length, take,
  All,
}
use fota_secure.Manifest.{ManifestFile}

-- A backslash in front of each quote and backslash, and every other byte as it is.
abbrev pub escape : Bytes → Bytes
escape [] = []
escape (c ∷ s) = if c == b'"' || c == b'\\' then b'\\' ∷ c ∷ escape s else c ∷ escape s

abbrev pub quote : Bytes → Bytes → Bytes
quote s rest = b'"' ∷ (escape s ++ b'"' ∷ rest)

abbrev pub IsSpace : ℕ → Type 0
IsSpace c = (c ≡ b' ') ⊎ (c ≡ b'\t') ⊎ (c ≡ b'\n') ⊎ (c ≡ b'\r')

-- The white space in front of a key, a colon, a value, a comma, an object, the end of an object and
-- the end of the list.
pub record Spacing : Type 0 where
  pub key : Bytes
  pub colon : Bytes
  pub value : Bytes
  pub comma : Bytes
  pub item : Bytes
  pub close : Bytes
  pub end : Bytes

pub record IsSpacing (w : Spacing) : Type 0 where
  pub key : All IsSpace w.key
  pub colon : All IsSpace w.colon
  pub value : All IsSpace w.value
  pub comma : All IsSpace w.comma
  pub item : All IsSpace w.item
  pub close : All IsSpace w.close
  pub end : All IsSpace w.end

unfoldable pub print_field : Spacing → Bytes → Bytes → Bytes → Bytes
print_field w key value rest =
    w.key ++ quote key (w.colon ++ (b':' ∷ (w.value ++ quote value rest)))

unfoldable pub print_fields : Spacing → ManifestFile → Bytes → Bytes
print_fields w f rest =
    print_field w (codes "path") f.path
      (w.comma ++ (b',' ∷ print_field w (codes "sha256") f.sha256_hex (w.close ++ b'}' ∷ rest)))

unfoldable pub print_object : Spacing → ManifestFile → Bytes → Bytes
print_object w f rest = w.item ++ b'{' ∷ print_fields w f rest

unfoldable pub print_more : Spacing → List ManifestFile → Bytes → Bytes
print_more w [] rest = w.end ++ b']' ∷ rest
print_more w (f ∷ fs) rest = w.comma ++ b',' ∷ print_object w f (print_more w fs rest)

unfoldable pub print_files : Spacing → List ManifestFile → Bytes → Bytes
print_files w [] rest = print_more w [] rest
print_files w (f ∷ fs) rest = print_object w f (print_more w fs rest)

abbrev pub files_key : Bytes
files_key = codes "\"files\""

unfoldable pub print_manifest : Spacing → Bytes → List ManifestFile → Bytes → Bytes
print_manifest w before files rest =
    before ++ (files_key ++ (w.colon ++ (b':' ∷ (w.value ++ (b'[' ∷ print_files w files rest)))))

-- The key stands nowhere in front of the place where `behind` begins.
abbrev pub IsFirst : Bytes → Bytes → Bytes → Type 0
IsFirst key [] behind = Unit
IsFirst key (c ∷ before) behind =
    (take (length key) (c ∷ (before ++ behind)) ≢ key) × IsFirst key before behind

-- A listing of C strings that fit.
pub record IsPlain (f : ManifestFile) : Type 0 where
  pub path_fits : length f.path ≤ 255
  pub path_no_nul : All (λ c. c ≢ 0) f.path
  pub hash_size : length f.sha256_hex ≡ 64
  pub hash_no_nul : All (λ c. c ≢ 0) f.sha256_hex
