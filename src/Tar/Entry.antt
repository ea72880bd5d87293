-- ===== src/Tar/Entry.antt =====
-- consumer/src/installer.c: one header and its entry.
use fota_secure.Base.{
  ℕ, ◌+◌, ◌^◌, ◌≤◌, ◌<◌, ◌≡◌, ◌≢◌, inl, inr, ap, sym, drop, subst, true, not, [], ◌∷◌, some, arith,
  Bytes, ltb, ◌||◌, c_str, length, length-slice, length-take, take, slice, get_or, All,
  Option-cases,
}
use fota_secure.Install.{
  ok, malformed_tar, unsupported_entry, unsafe_path, bind-eq-ok, ok-injective, require-eq-ok,
}
use fota_secure.TarPath.{path_is_safe}
use fota_secure.Tar.{
  TarEntry, EntryType, directory, tar_block_size, tar_name_max, tar_size_offset,
  tar_size_field_size, parse_octal_field, checksum_matches, is_all_zero, entry_type, entry_size,
  next_offset, parse_entry,
}
use fota_secure.Tar.OctalRange.{parse_octal_field-lt}

-- An entry that may be handed on: its path is safe, short and a C string, a directory has no
-- data, and the data lies inside the archive.
pub record IsEntry (tar : Bytes) (e : TarEntry) : Type 0 where
  pub safe : path_is_safe (some e.path) ≡ true
  pub short : length e.path ≤ 100
  pub no_nul : All (λ c. c ≢ 0) e.path
  pub bare : e.kind ≡ directory → e.content ≡ []
  pub offset : ℕ
  pub in_bounds : offset + length e.content ≤ length tar
  pub taken : e.content ≡ slice tar offset (length e.content)

pub c_str-no_nul : (s : Bytes) → All (λ c. c ≢ 0) (c_str s)
unfolding c_str
c_str-no_nul [] = tt
c_str-no_nul (c ∷ s) = ground (arith, c_str-no_nul s)

pub length-c_str : (s : Bytes) → length (c_str s) ≤ length s
unfolding c_str
length-c_str [] = omega arith
length-c_str (c ∷ s) = ground (arith, length-c_str s)

-- A next offset that is not below the offset did not wrap around.
next_offset-exact :
    (offset size : ℕ)
    → offset < 2 ^ 64
    → size < 2 ^ 36
    → offset ≤ next_offset offset size
    → (offset + 512 + size ≤ next_offset offset size)
unfolding next_offset
next_offset-exact offset size h k le = omega arith

entry_size_sound :
    (kind : EntryType) (header : Bytes) (size : ℕ)
    → entry_size kind header ≡ ok size
    → (size < 2 ^ 36) × (kind ≡ directory → size ≡ 0)
unfolding entry_size
entry_size_sound kind header size e =
    let field = slice header tar_size_offset tar_size_field_size in
    elim (Option-cases (parse_octal_field field)) [
      | inl q ↦ absurd (ground arith)
      | inr (declared, q) ↦
          let bound =
            parse_octal_field-lt field declared
              (omega (arith, length-take 12 (drop tar_size_offset header))) q in
          (ground arith, λ d. ground arith)
    ]

module _ (tar : Bytes) (small : length tar < 2 ^ 64) where
  -- The last check, and the entry that is built behind it.
  next_offset_in_bounds :
      (offset size : ℕ) (kind : EntryType) (name : Bytes)
      → offset + 512 ≤ length tar
      → path_is_safe (some (c_str (take tar_name_max name))) ≡ true
      → size < 2 ^ 36
      → (kind ≡ directory → size ≡ 0)
      → not (ltb (next_offset offset size) offset || ltb (length tar) (next_offset offset size))
        ≡ true
      → IsEntry tar (record {
        path = c_str (take tar_name_max name);
        kind = kind;
        content = slice tar (offset + 512) size;
      })
        × (offset + 512 ≤ next_offset offset size)
        × (next_offset offset size ≤ length tar)
  next_offset_in_bounds offset size kind name room safe fits bare checked =
      let lo : offset ≤ next_offset offset size = ground arith in
      let hi : next_offset offset size ≤ length tar = ground arith in
      let end = next_offset-exact offset size (omega arith) fits lo in
      let size_is = length-slice tar (offset + 512) size (omega arith) in
      (
        record {
          safe = safe;
          short = omega (arith, length-c_str (take 100 name), length-take 100 name);
          no_nul = c_str-no_nul (take 100 name);
          bare = λ d. ap (λ n. take n (drop (offset + 512) tar)) (bare d);
          offset = offset + 512;
          in_bounds = omega arith;
          taken = ap (λ n. slice tar (offset + 512) n) (sym size_is);
        },
        omega arith,
        hi,
      )

  pub parse_entry_sound :
      (offset : ℕ) (e : TarEntry) (next : ℕ)
      → offset + 512 ≤ length tar
      → parse_entry tar offset ≡ ok (e, next)
      → IsEntry tar e × (offset + 512 ≤ next) × (next ≤ length tar)
  unfolding parse_entry
  parse_entry_sound offset e next room h =
      let header = slice tar offset tar_block_size in
      let (matches, h₁) = require-eq-ok (checksum_matches header) malformed_tar _ h in
      let (short, h₂) = require-eq-ok (is_all_zero (slice header 345 155)) unsupported_entry _ h₁ in
      let (safe, h₃) =
        require-eq-ok (path_is_safe (some (c_str (take tar_name_max header)))) unsafe_path _ h₂ in
      let (kind, is_kind, h₄) = bind-eq-ok (entry_type (get_or header 156 0)) _ h₃ in
      let (size, is_size, h₅) = bind-eq-ok (entry_size kind header) _ h₄ in
      let (checked, h₆) =
        require-eq-ok
          (not (ltb (next_offset offset size) offset || ltb (length tar) (next_offset offset size)))
          malformed_tar _ h₅ in
      let (fits, bare) = entry_size_sound kind header size is_size in
      subst (λ ((x, n) : TarEntry × ℕ). IsEntry tar x × (offset + 512 ≤ n) × (n ≤ length tar))
        (ok-injective _ (e, next) h₆)
        (next_offset_in_bounds offset size kind header room safe fits bare checked)
