-- ===== src/Extract/Writes.antt =====
-- consumer/src/installer.c: the paths that are written to.
use fota_secure.Base.{
  ◌≡◌, ◌⊎◌, inl, inr, refl, sym, ap, ◌∙◌, subst, true, not, ◌||◌, List, [], ◌∷◌, ◌++◌, some, arith,
  Bytes, leb, ◌==◌, same_bytes, length, All, append_assoc, Bool-cases,
}
use fota_secure.Device.{Device, MkdirResult, made, already_there, failed}
use fota_secure.Install.{InstallError, io, err}
use fota_secure.Tar.{TarEntry}
use fota_secure.TarPath.{path_is_safe}
use fota_secure.TarPath.Components.{components}
use fota_secure.TarPath.Confined.{
  IsBelow, resolve, path_is_safe-IsBelow, path_is_safe-parent-IsBelow,
}
use fota_secure.Verify.{manifest_name, is_file}
use fota_secure.Extract.{
  path_buf_size, full_path, make_parents, ensure_parent_dirs, write_content, write_file,
  write_entry_file, write_entries,
}

-- A path that leads to `dir` or below it, from whatever directory.
abbrev pub IsInside : Bytes → Bytes → Type 0
IsInside dir path =
    (root : List Bytes) → IsBelow (resolve root (components dir)) (resolve root (components path))

pub MkdirResult-cases : (r : MkdirResult) → (r ≡ failed) ⊎ ((r ≡ made) ⊎ (r ≡ already_there))
MkdirResult-cases failed = inl refl
MkdirResult-cases made = inr (inl refl)
MkdirResult-cases already_there = inr (inr refl)

module _ (D : Device) (dir : Bytes) (P : D.State → Type 0) where
  -- A property of the state that no call on a path inside of `dir` changes.
  pub record IsKept : Type 0 where
    pub by_mkdir : (path : Bytes) (s : D.State) → IsInside dir path → P s → P (D.mkdir path s).1
    pub by_open : (path : Bytes) (s : D.State) → IsInside dir path → P s → P (D.open_write path s).1
    pub by_write : (path b : Bytes) (s : D.State) → IsInside dir path → P s → P (D.write path b s).1
    pub by_close : (path : Bytes) (s : D.State) → IsInside dir path → P s → P (D.close path s).1

  module _ (kept : IsKept) where
    make_parents-keeps :
        (path done pre rest : Bytes) (s : D.State)
        → path_is_safe (some path) ≡ true
        → path ≡ pre ++ rest
        → done ≡ dir ++ b'/' ∷ pre
        → P s
        → P (make_parents D done rest s).1
    unfolding make_parents
    make_parents-keeps path done pre [] s safe split at p = p
    make_parents-keeps path done pre (c ∷ rest) s safe split at p =
        let split' : path ≡ (pre ++ c ∷ []) ++ rest =
          split ∙ sym (append_assoc pre (c ∷ []) rest) in
        let at' : done ++ c ∷ [] ≡ dir ++ b'/' ∷ (pre ++ c ∷ []) =
          ap (λ d. d ++ c ∷ []) at ∙ append_assoc dir (b'/' ∷ pre) (c ∷ []) in
        let on = λ (s : D.State) (p : P s).
          make_parents-keeps path (done ++ c ∷ []) (pre ++ c ∷ []) rest s safe split' at' p in
        elim (Bool-cases (c == b'/')) [
          | inr inside ↦ rw inside (on s p)
          | inl slash ↦
              let is_slash : c ≡ b'/' = ground arith in
              let safe' : path_is_safe (some (pre ++ b'/' ∷ rest)) ≡ true =
                subst (λ q. path_is_safe (some q) ≡ true)
                  (split ∙ ap (λ x. pre ++ x ∷ rest) is_slash) safe in
              let inside : IsInside dir done =
                subst (IsInside dir) (sym at)
                  (λ root. path_is_safe-parent-IsBelow root dir pre rest safe') in
              let p' = kept.by_mkdir done s inside p in
              elim (MkdirResult-cases (D.mkdir done s).0) [
                | inl q ↦ rw (slash, q) p'
                | inr (inl q) ↦ rw (slash, q) (on (D.mkdir done s).1 p')
                | inr (inr q) ↦ rw (slash, q) (on (D.mkdir done s).1 p')
              ]
        ]

    write_content-keeps :
        (path b : Bytes) (s : D.State) → IsInside dir path → P s → P (write_content D path b s).1
    unfolding write_content
    write_content-keeps path [] s inside p = p
    write_content-keeps path (b ∷ bs) s inside p = kept.by_write path (b ∷ bs) s inside p

    write_file-keeps :
        (path b : Bytes) (s : D.State) → IsInside dir path → P s → P (write_file D path b s).1
    unfolding write_file
    write_file-keeps path b s inside p =
        let p₁ = kept.by_open path s inside p in
        elim (Bool-cases (D.open_write path s).0) [
          | inl opened ↦ rw opened (
              kept.by_close path _ inside
                (write_content-keeps path b (D.open_write path s).1 inside p₁))
          | inr refused ↦ rw refused p₁
        ]

    write_entry_file-keeps :
        (e : TarEntry) (s : D.State)
        → path_is_safe (some e.path) ≡ true
        → P s
        → P (write_entry_file D dir e s).1
    unfolding write_entry_file ensure_parent_dirs
    write_entry_file-keeps e s safe p =
        elim (Bool-cases (leb path_buf_size (length (full_path dir e.path)))) [
          | inl long ↦ rw long p
          | inr short ↦
              let p' = make_parents-keeps e.path (dir ++ b'/' ∷ []) [] e.path s safe refl refl p in
              let s' = (make_parents D (dir ++ b'/' ∷ []) e.path s).1 in
              elim (Bool-cases (make_parents D (dir ++ b'/' ∷ []) e.path s).0) [
                | inr stopped ↦ rw (short, stopped) p'
                | inl there ↦
                    rw (short, there)
                      (write_file-keeps (full_path dir e.path) e.content s'
                        (λ root. path_is_safe-IsBelow root dir e.path safe) p')
              ]
        ]

    -- Writing entries whose paths are all safe keeps every property of the state that no call on a
    -- path inside of the directory changes, whether it succeeds or fails.
    pub write_entries-keeps :
        (entries : List TarEntry) (s : D.State)
        → All (λ e. path_is_safe (some e.path) ≡ true) entries
        → P s
        → P (write_entries D dir entries s).1
    unfolding write_entries
    write_entries-keeps [] s h p = p
    write_entries-keeps (e ∷ es) s (safe, h) p =
        elim (Bool-cases (not (is_file e) || same_bytes e.path manifest_name)) [
          | inl skipped ↦ rw skipped (write_entries-keeps es s h p)
          | inr written ↦
              let p' = write_entry_file-keeps e s safe p in
              elim (Bool-cases (write_entry_file D dir e s).0) [
                | inl well ↦
                    rw (written, well) (write_entries-keeps es (write_entry_file D dir e s).1 h p')
                | inr badly ↦ rw (written, badly) p'
              ]
        ]

-- Writing fails only as an input or output error.
pub write_entries-io :
    (D : Device) (dir : Bytes) (entries : List TarEntry) (s : D.State) (e : InstallError)
    → (write_entries D dir entries s).0 ≡ err e
    → e ≡ io
unfolding write_entries
write_entries-io D dir [] s e = λ h. cc
write_entries-io D dir (x ∷ xs) s e =
    elim (Bool-cases (not (is_file x) || same_bytes x.path manifest_name)) [
      | inl skipped ↦ rw skipped (write_entries-io D dir xs s e)
      | inr written ↦ elim (Bool-cases (write_entry_file D dir x s).0) [
        | inl well ↦ rw (written, well) (write_entries-io D dir xs (write_entry_file D dir x s).1 e)
        | inr badly ↦ rw (written, badly) (λ h. cc)
      ]
    ]
