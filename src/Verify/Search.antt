-- ===== src/Verify/Search.antt =====
-- consumer/src/installer.c: the search for an entry by its path, and the paths of the files of an
-- archive.
use fota_secure.Base.{
  suc, ◌≡◌, ◌≢◌, inl, inr, refl, sym, ap, subst, Bool, true, false, not, ◌&&◌, List, [], ◌∷◌, some,
  arith, Bytes, same_bytes, same_bytes_sound, same_bytes_self, if◌then◌else◌, length, Bool-cases,
  In, Distinct,
}
use fota_secure.Manifest.{ManifestFile}
use fota_secure.Tar.{TarEntry}
use fota_secure.Verify.{manifest_name, is_file, find_entry, count_files}

pub some-injective : {A : Type 0} (a b : A) → some a ≡ some b → a ≡ b
some-injective a b h = cc

-- The file entries but the manifest, by their paths.
unfoldable pub file_paths : List TarEntry → List Bytes
file_paths [] = []
file_paths (e ∷ es) =
    let rest = file_paths es in
    if is_file e && not (same_bytes e.path manifest_name) then e.path ∷ rest else rest

unfoldable pub paths : List ManifestFile → List Bytes
paths [] = []
paths (f ∷ fs) = f.path ∷ paths fs

pub length-file_paths : (es : List TarEntry) → length (file_paths es) ≡ count_files es
unfolding file_paths count_files
length-file_paths [] = refl
length-file_paths (e ∷ es) =
    elim (Bool-cases (is_file e && not (same_bytes e.path manifest_name))) [
      | inl counted ↦ rw (counted, length-file_paths es) (omega arith)
      | inr other ↦ rw (other, length-file_paths es) (omega arith)
    ]

pub length-paths : (fs : List ManifestFile) → length (paths fs) ≡ length fs
unfolding paths
length-paths [] = refl
length-paths (f ∷ fs) = ap suc (length-paths fs)

both : (a b : Bool) → a && b ≡ true → (a ≡ true) × (b ≡ true)
both a b h = ground arith

-- A file entry that a search for its path may find.
abbrev pub IsFileAt : Bytes → TarEntry → Type 0
IsFileAt path e = (is_file e ≡ true) × (e.path ≡ path)

pub path_of : (path : Bytes) (e : TarEntry) → IsFileAt path e → e.path ≡ path
path_of path e at = at.1

pub IsFileAt-test :
    (path : Bytes) (e : TarEntry) → IsFileAt path e → is_file e && same_bytes e.path path ≡ true
IsFileAt-test path e (f, q) = rw (f, q, same_bytes_self path) refl

test-IsFileAt :
    (path : Bytes) (e : TarEntry) → is_file e && same_bytes e.path path ≡ true → IsFileAt path e
test-IsFileAt path e h =
    let (f, q) = both (is_file e) (same_bytes e.path path) h in (f, same_bytes_sound e.path path q)

pub find_entry-IsFileAt :
    (es : List TarEntry) (path : Bytes) (e : TarEntry)
    → find_entry es path ≡ some e
    → In e es × IsFileAt path e
unfolding find_entry
find_entry-IsFileAt [] path e = λ h. absurd (ground arith)
find_entry-IsFileAt (x ∷ es) path e = elim (Bool-cases (is_file x && same_bytes x.path path)) [
  | inl found ↦ rw found (λ h.
      let same : x ≡ e = some-injective x e h in
      (inl (sym same), subst (IsFileAt path) same (test-IsFileAt path x found)))
  | inr other ↦ rw other (λ h. let (i, at) = find_entry-IsFileAt es path e h in (inr i, at))
]

-- A file that is counted.
IsCounted : TarEntry → Type 0
IsCounted e = is_file e && not (same_bytes e.path manifest_name) ≡ true

pub differ : (a b : Bytes) → a ≢ b → same_bytes a b ≡ false
differ a b h = elim (Bool-cases (same_bytes a b)) [
  | inl same ↦ absurd (h (same_bytes_sound a b same))
  | inr other ↦ other
]

IsFileAt-IsCounted :
    (path : Bytes) (e : TarEntry) → IsFileAt path e → path ≢ manifest_name → IsCounted e
unfolding IsCounted
IsFileAt-IsCounted path e (f, q) other = rw (f, q, differ path manifest_name other) refl

pub In-file_paths :
    (es : List TarEntry) (path : Bytes) (e : TarEntry)
    → In e es
    → IsFileAt path e
    → path ≢ manifest_name
    → In path (file_paths es)
unfolding file_paths IsCounted
In-file_paths [] path e i at other = absurd i
In-file_paths (x ∷ es) path e (inl q) at other =
    let at' : IsFileAt path x = subst (IsFileAt path) q at in
    rw (IsFileAt-IsCounted path x at' other) (inl (sym (path_of path x at')))
In-file_paths (x ∷ es) path e (inr i) at other =
    elim (Bool-cases (is_file x && not (same_bytes x.path manifest_name))) [
      | inl counted ↦ rw counted (inr (In-file_paths es path e i at other))
      | inr skipped ↦ rw skipped (In-file_paths es path e i at other)
    ]

Distinct-tail :
    (x : TarEntry) (es : List TarEntry) → Distinct (file_paths (x ∷ es)) → Distinct (file_paths es)
unfolding file_paths
Distinct-tail x es = elim (Bool-cases (is_file x && not (same_bytes x.path manifest_name))) [
  | inl counted ↦ rw counted (λ d. d.1)
  | inr skipped ↦ rw skipped (λ d. d)
]

Distinct-head :
    (x : TarEntry) (es : List TarEntry)
    → IsCounted x
    → Distinct (file_paths (x ∷ es))
    → ¬ In x.path (file_paths es)
unfolding file_paths IsCounted
Distinct-head x es counted = rw counted (λ d. d.0)

-- If no two files share a path, the search for the path of a file finds it.
pub find_entry_unique :
    (es : List TarEntry) (path : Bytes) (e : TarEntry)
    → Distinct (file_paths es)
    → path ≢ manifest_name
    → In e es
    → IsFileAt path e
    → find_entry es path ≡ some e
unfolding find_entry
find_entry_unique [] path e d other i at = absurd i
find_entry_unique (x ∷ es) path e d other (inl q) at =
    rw (subst (λ y. is_file y && same_bytes y.path path ≡ true) q (IsFileAt-test path e at))
      (ap some (sym q))
find_entry_unique (x ∷ es) path e d other (inr i) at =
    elim (Bool-cases (is_file x && same_bytes x.path path)) [
      | inr differs ↦ rw differs (find_entry_unique es path e (Distinct-tail x es d) other i at)
      | inl found ↦
          let at' = test-IsFileAt path x found in
          let fresh = Distinct-head x es (IsFileAt-IsCounted path x at' other) d in
          absurd (
            fresh (
              subst (λ p. In p (file_paths es)) (sym (path_of path x at'))
                (In-file_paths es path e i at other)))
    ]
