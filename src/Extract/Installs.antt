-- ===== src/Extract/Installs.antt =====
-- consumer/src/installer.c: the content of the files that are written.
use fota_secure.Base.{
  ◌≡◌, ◌≢◌, inl, inr, refl, ap, ◌∙◌, subst, true, not, ◌||◌, List, [], ◌∷◌, ◌++◌, some, arith,
  Bytes, leb, ◌==◌, same_bytes, same_bytes_sound, length, All, Bool-cases, In,
}
use fota_secure.Device.{Device, ReadsBack}
use fota_secure.Install.{ok}
use fota_secure.Tar.{TarEntry}
use fota_secure.TarPath.Components.{components}
use fota_secure.TarPath.Confined.{resolve}
use fota_secure.Verify.{manifest_name, is_file}
use fota_secure.Extract.{
  path_buf_size, full_path, make_parents, ensure_parent_dirs, write_content, write_file,
  write_entry_file, write_entries,
}
use fota_secure.Extract.Writes.{MkdirResult-cases}

-- Two absolute paths that lead to different places.
abbrev pub IsElsewhere : Bytes → Bytes → Type 0
IsElsewhere p q = resolve [] (components p) ≢ resolve [] (components q)

-- A file system without links: a call on one path leaves the content of other files alone, a file
-- that is there keeps its content under `mkdir`, and what was created or written without an error is
-- read back.
pub record IsFileSystem (D : Device) : Type 0 where
  pub written : ReadsBack D
  pub created :
      (path : Bytes) (s : D.State)
      → (D.open_write path s).0 ≡ true
      → (D.close path (D.open_write path s).1).0 ≡ true
      → D.read_file path (D.close path (D.open_write path s).1).1 ≡ some []
  pub by_mkdir :
      (path q b : Bytes) (s : D.State)
      → D.read_file q s ≡ some b
      → D.read_file q (D.mkdir path s).1 ≡ some b
  pub by_open :
      (path q : Bytes) (s : D.State)
      → IsElsewhere path q
      → D.read_file q (D.open_write path s).1 ≡ D.read_file q s
  pub by_write :
      (path b q : Bytes) (s : D.State)
      → IsElsewhere path q
      → D.read_file q (D.write path b s).1 ≡ D.read_file q s
  pub by_close :
      (path q : Bytes) (s : D.State)
      → IsElsewhere path q
      → D.read_file q (D.close path s).1 ≡ D.read_file q s

not_skipped :
    (e : TarEntry)
    → is_file e ≡ true
    → e.path ≢ manifest_name
    → ¬ (not (is_file e) || same_bytes e.path manifest_name ≡ true)
not_skipped e f other skipped = elim (Bool-cases (same_bytes e.path manifest_name)) [
  | inl same ↦ other (same_bytes_sound e.path manifest_name same)
  | inr differs ↦ cc (rw (f, differs) at skipped)
]

module _ (D : Device) (fs : IsFileSystem D) where
  make_parents-others :
      (done rest q b : Bytes) (s : D.State)
      → D.read_file q s ≡ some b
      → D.read_file q (make_parents D done rest s).1 ≡ some b
  unfolding make_parents
  make_parents-others done [] q b s h = h
  make_parents-others done (c ∷ rest) q b s h = elim (Bool-cases (c == b'/')) [
    | inr inside ↦ rw inside (make_parents-others (done ++ c ∷ []) rest q b s h)
    | inl slash ↦
        let kept = fs.by_mkdir done q b s h in
        let after = make_parents-others (done ++ c ∷ []) rest q b (D.mkdir done s).1 kept in
        elim (MkdirResult-cases (D.mkdir done s).0) [
          | inl r ↦ rw (slash, r) kept
          | inr (inl r) ↦ rw (slash, r) after
          | inr (inr r) ↦ rw (slash, r) after
        ]
  ]

  write_content-others :
      (path b q : Bytes) (s : D.State)
      → IsElsewhere path q
      → D.read_file q (write_content D path b s).1 ≡ D.read_file q s
  unfolding write_content
  write_content-others path [] q s away = refl
  write_content-others path (b ∷ bs) q s away = fs.by_write path (b ∷ bs) q s away

  write_file-others :
      (path b q : Bytes) (s : D.State)
      → IsElsewhere path q
      → D.read_file q (write_file D path b s).1 ≡ D.read_file q s
  unfolding write_file
  write_file-others path b q s away =
      let first = fs.by_open path q s away in
      elim (Bool-cases (D.open_write path s).0) [
        | inl opened ↦ rw opened (
            fs.by_close path q _ away
            ∙ write_content-others path b q (D.open_write path s).1 away
            ∙ first)
        | inr refused ↦ rw refused first
      ]

  -- What `write_file` reports to be written is read back.
  write_file-reads_back :
      (path content : Bytes) (s : D.State)
      → (write_file D path content s).0 ≡ true
      → D.read_file path (write_file D path content s).1 ≡ some content
  unfolding write_file write_content
  write_file-reads_back path [] s e = ground (arith, fs.created path s)
  write_file-reads_back path (b ∷ bs) s e = ground (arith, fs.written.reads_back path (b ∷ bs) s)

  module _ (dir : Bytes) where
    write_entry_file-others :
        (e : TarEntry) (q b : Bytes) (s : D.State)
        → IsElsewhere (full_path dir e.path) q
        → D.read_file q s ≡ some b
        → D.read_file q (write_entry_file D dir e s).1 ≡ some b
    unfolding write_entry_file ensure_parent_dirs
    write_entry_file-others e q b s away h =
        let parents = make_parents-others (dir ++ b'/' ∷ []) e.path q b s h in
        let s' = (make_parents D (dir ++ b'/' ∷ []) e.path s).1 in
        elim (Bool-cases (leb path_buf_size (length (full_path dir e.path)))) [
          | inl long ↦ rw long h
          | inr short ↦ elim (Bool-cases (make_parents D (dir ++ b'/' ∷ []) e.path s).0) [
            | inr stopped ↦ rw (short, stopped) parents
            | inl there ↦
                rw (short, there)
                  (write_file-others (full_path dir e.path) e.content q s' away ∙ parents)
          ]
        ]

    write_entry_file-reads_back :
        (e : TarEntry) (s : D.State)
        → (write_entry_file D dir e s).0 ≡ true
        → D.read_file (full_path dir e.path) (write_entry_file D dir e s).1 ≡ some e.content
    unfolding write_entry_file ensure_parent_dirs
    write_entry_file-reads_back e s well =
        let s' = (make_parents D (dir ++ b'/' ∷ []) e.path s).1 in
        let back = write_file-reads_back (full_path dir e.path) e.content s' in
        elim (Bool-cases (leb path_buf_size (length (full_path dir e.path)))) [
          | inl long ↦ cc (rw long at well)
          | inr short ↦ elim (Bool-cases (make_parents D (dir ++ b'/' ∷ []) e.path s).0) [
            | inr stopped ↦ cc (rw (short, stopped) at well)
            | inl there ↦ rw (short, there) (back (rw (short, there) at well))
          ]
        ]

    -- A path that no entry leads to.
    abbrev pub IsFree : List TarEntry → Bytes → Type 0
    IsFree entries q = All (λ (e : TarEntry). IsElsewhere (full_path dir e.path) q) entries

    write_entries-others :
        (entries : List TarEntry) (q b : Bytes) (s : D.State)
        → IsFree entries q
        → D.read_file q s ≡ some b
        → D.read_file q (write_entries D dir entries s).1 ≡ some b
    unfolding write_entries
    write_entries-others [] q b s h there = there
    write_entries-others (e ∷ es) q b s (away, h) there =
        let first = write_entry_file-others e q b s away there in
        elim (Bool-cases (not (is_file e) || same_bytes e.path manifest_name)) [
          | inl skipped ↦ rw skipped (write_entries-others es q b s h there)
          | inr taken ↦ elim (Bool-cases (write_entry_file D dir e s).0) [
            | inl well ↦
                rw (taken, well)
                  (write_entries-others es q b (write_entry_file D dir e s).1 h first)
            | inr badly ↦ rw (taken, badly) first
          ]
        ]

    -- The entries lead to different places.
    abbrev pub AreApart : List TarEntry → Type 0
    AreApart [] = Unit {0}
    AreApart (e ∷ es) =
        All (λ (f : TarEntry). IsElsewhere (full_path dir f.path) (full_path dir e.path)) es
        × AreApart es

    -- On a file system without links, if the entries lead to different places and the writing of
    -- them succeeds, then every file of the archive but the manifest is in its place below the
    -- directory, with the content that the archive has for it.
    pub write_entries-reads_back :
        (entries : List TarEntry) (s : D.State)
        → AreApart entries
        → (write_entries D dir entries s).0 ≡ ok tt
        → (e : TarEntry) → In e entries
        → is_file e ≡ true
        → e.path ≢ manifest_name
        → D.read_file (full_path dir e.path) (write_entries D dir entries s).1 ≡ some e.content
    unfolding write_entries
    write_entries-reads_back [] s apart done e i f other = absurd i
    write_entries-reads_back (x ∷ xs) s (away, apart) done e i f other =
        elim (Bool-cases (not (is_file x) || same_bytes x.path manifest_name)) [
          | inl skipped ↦ elim i [
            | inl here ↦ absurd (
                not_skipped x (subst (λ (y : TarEntry). is_file y ≡ true) here f)
                  (λ p. other (ap (λ (y : TarEntry). y.path) here ∙ p)) skipped)
            | inr later ↦
                rw skipped
                  (write_entries-reads_back xs s apart (rw skipped at done) e later f other)
          ]
          | inr taken ↦ elim (Bool-cases (write_entry_file D dir x s).0) [
            | inr badly ↦ cc (rw (taken, badly) at done)
            | inl well ↦
                let s' = (write_entry_file D dir x s).1 in
                elim i [
                  | inr later ↦
                      rw (taken, well)
                        (write_entries-reads_back xs s' apart (rw (taken, well) at done) e later f
                          other)
                  | inl here ↦
                      rw (taken, well, here)
                        (write_entries-others xs (full_path dir x.path) x.content s' away
                          (write_entry_file-reads_back x s well))
                ]
          ]
        ]
