-- ===== src/Tar/Blocks.antt =====
-- consumer/src/installer.c: what the parser reads in the header of a member of the layout.
use fota_secure.Base.{
  ℕ, ◌+◌, ◌-◌, ◌≤◌, ◌≡◌, ◌≢◌, refl, sym, ap, ◌∙◌, true, false, [], ◌∷◌, ◌++◌, append_assoc, some,
  arith, Bytes, c_str, length, length-append, take, drop, slice, take-length, take-of-append,
  drop-length, drop-drop, drop-of-append, get_or, get_or-drop, All,
}
use fota_secure.Install.{ok}
use fota_secure.TarPath.{path_is_safe}
use fota_secure.TarPath.Components.{path_is_safe_iff}
use fota_secure.Tar.{
  EntryType, file, directory, parse_octal_field, checksum_matches, is_all_zero, entry_type,
  entry_size, next_offset, parse_entry,
}
use fota_secure.Tar.Fields.{c_str-pad, length-front, chksum_field, length-chksum_field}
use fota_secure.Tar.Digits.{length-replicate, parse_octal_field-octal, length-octal}
use fota_secure.Tar.Layout.{Member, zeros, octal, front, back, checksum, header, IsFlag, IsMember}

entry_size_lem :
    (k : EntryType) (h : Bytes) (n : ℕ)
    → parse_octal_field (slice h 124 12) ≡ some n
    → entry_size k h ≡ ok (elim k [ directory ↦ 0 | file ↦ n ])
unfolding entry_size
entry_size_lem k h n e = rw (e, entry_size)

-- The steps of `parse_entry`, one for each thing that it looks at.
pub parse_entry_lem :
    (tar : Bytes) (offset : ℕ) (h name : Bytes) (k : EntryType) (size : ℕ)
    → slice tar offset 512 ≡ h
    → checksum_matches h ≡ true
    → is_all_zero (slice h 345 155) ≡ true
    → c_str (take 100 h) ≡ name
    → path_is_safe (some name) ≡ true
    → entry_type (get_or h 156 0) ≡ ok k
    → entry_size k h ≡ ok size
    → offset ≤ next_offset offset size
    → next_offset offset size ≤ length tar
    → parse_entry tar offset
      ≡ ok (
        record { path = name; kind = k; content = slice tar (offset + 512) size },
        next_offset offset size,
      )
unfolding parse_entry
parse_entry_lem tar offset h name k size at sums plain named safe flagged sized lo hi =
    rw (at, sums, plain, named, safe, flagged, sized) (ground arith)

module _ (m : Member) (v : IsMember m) where
  pub name_bytes : c_str (take 100 (header m)) ≡ m.path
  unfolding header front
  name_bytes =
      let short = v.short in
      ap c_str (
        take-of-append 100 (header m) (m.path ++ zeros (100 - length m.path))
          ((m.ids ++ ((octal 11 (length m.content) ++ 0 ∷ []) ++ m.mtime))
            ++ ((octal 6 (checksum m) ++ 0 ∷ b' ' ∷ []) ++ back m))
          (simp append_assoc)
          (omega (
            arith,
            length-append m.path (zeros (100 - length m.path)),
            length-replicate {A = ℕ} (100 - length m.path) 0,
          )))
      ∙ c_str-pad m.path (100 - length m.path) v.no_nul

  size_bytes : slice (header m) 124 12 ≡ octal 11 (length m.content) ++ 0 ∷ []
  unfolding header front
  size_bytes =
      let short = v.short in
      ap (take 12) (
        drop-of-append 124 (header m) (m.path ++ (zeros (100 - length m.path) ++ m.ids))
          ((octal 11 (length m.content) ++ 0 ∷ []) ++ (m.mtime ++ (chksum_field m v ++ back m)))
          (simp append_assoc)
          (omega (
            arith,
            v.ids_size,
            length-append m.path (zeros (100 - length m.path) ++ m.ids),
            length-append (zeros (100 - length m.path)) m.ids,
            length-replicate {A = ℕ} (100 - length m.path) 0,
          )))
      ∙ take-length 12 (octal 11 (length m.content) ++ 0 ∷ [])
          (m.mtime ++ (chksum_field m v ++ back m))
          (omega (
            arith,
            length-append (octal 11 (length m.content)) (0 ∷ []),
            length-octal 11 (length m.content),
          ))

  back_bytes : drop 156 (header m) ≡ back m
  unfolding header
  back_bytes =
      drop-of-append 156 (header m) (front m ++ chksum_field m v) (back m)
        (sym (append_assoc (front m) (chksum_field m v) (back m)))
        (omega (
          arith,
          length-front m v,
          length-chksum_field m v,
          length-append (front m) (chksum_field m v),
        ))

  zeros_bytes : drop 345 (header m) ≡ zeros 155 ++ zeros 12
  zeros_bytes =
      sym (drop-drop 189 156 345 (header m) refl) ∙ ap (drop 189) back_bytes ∙ behind_names
    where
      behind_names : drop 189 (back m) ≡ zeros 155 ++ zeros 12
      behind_names = unfold back in drop-length 188 m.names (zeros 155 ++ zeros 12) v.names_size

  pub prefix_bytes : slice (header m) 345 155 ≡ zeros 155
  prefix_bytes =
      ap (take 155) zeros_bytes
      ∙ take-length 155 (zeros 155) (zeros 12) (length-replicate {A = ℕ} 155 0)

  pub flag_byte : get_or (header m) 156 0 ≡ m.typeflag
  flag_byte = get_or-drop 156 (header m) 0 ∙ ap (λ l. get_or l 0 0) back_bytes ∙ unfold back in refl

  pub entry_type-flag : (k : EntryType) → IsFlag k m.typeflag → entry_type m.typeflag ≡ ok k
  unfolding entry_type
  entry_type-flag file h = ground arith
  entry_type-flag directory h = ground arith

  kept_size :
      (k : EntryType)
      → (k ≡ directory → m.content ≡ [])
      → (elim k [ directory ↦ 0 | file ↦ length m.content ]) ≡ length m.content
  kept_size file h = refl
  kept_size directory h = sym (ap length (h refl))

  pub entry_size-header : entry_size m.kind (header m) ≡ ok (length m.content)
  entry_size-header =
      entry_size_lem m.kind (header m) (length m.content) (
        ap parse_octal_field size_bytes
        ∙ parse_octal_field-octal 11 (length m.content) [] v.fits (omega arith) (omega arith))
      ∙ ap ok (kept_size m.kind v.bare)

  starts-ne-zero : (p rest : Bytes) → All (λ c. c ≢ 0) p → p ≢ [] → is_all_zero (p ++ rest) ≡ false
  unfolding is_all_zero
  starts-ne-zero [] rest h e = absurd (e refl)
  starts-ne-zero (c ∷ p) rest (hc, h) e = ground arith

  pub header-ne-zero : is_all_zero (header m) ≡ false
  unfolding header front
  header-ne-zero =
      ap is_all_zero (append_assoc m.path _ ((octal 6 (checksum m) ++ 0 ∷ b' ' ∷ []) ++ back m))
      ∙ starts-ne-zero m.path _ v.no_nul ((path_is_safe_iff m.path).0 v.safe).non_empty
