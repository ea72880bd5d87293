-- ===== src/Tar/RoundTrip.antt =====
-- consumer/src/installer.c: `fota_tar_parse` on archives of the layout.
use mathlib.Core.List.{map}
use mathlib.Core.Path.{ap₂}
use fota_secure.Base.{
  ℕ, zero, suc, ◌+◌, ◌-◌, ◌*◌, ◌/◌, ◌^◌, ◌≤◌, ◌<◌, ◌≡◌, inl, inr, refl, sym, ap, ◌∙◌, Bool, true,
  false, List, [], ◌∷◌, ◌++◌, append_assoc, append-nil, some, arith, Bytes, ltb, ◌==◌, length,
  length-append, take, slice, take-length, drop-length, All, Bool-cases,
}
use fota_secure.Install.{ok}
use fota_secure.Tar.{
  TarEntry, is_all_zero, entry_type, next_offset, parse_entry, grow, tar_loop, tar_parse,
}
use fota_secure.Tar.Fields.{length-header, checksum_matches-header}
use fota_secure.Tar.Digits.{length-replicate, is_all_zero-replicate}
use fota_secure.Tar.Layout.{
  Member, zeros, header, padding, member_blocks, archive, IsMember, entry_of,
}
use fota_secure.Tar.Blocks.{
  parse_entry_lem, name_bytes, prefix_bytes, flag_byte, entry_type-flag, entry_size-header,
  header-ne-zero,
}

-- Offsets add up: what lies behind `pre` in an archive that begins with it.
slice-behind :
    (pre xs rest : Bytes) (n : ℕ) → length xs ≡ n → slice (pre ++ (xs ++ rest)) (length pre) n ≡ xs
slice-behind pre xs rest n h =
    ap (take n) (drop-length (length pre) pre (xs ++ rest) refl) ∙ take-length n xs rest h

module _ (m : Member) (v : IsMember m) (pre rest : Bytes) where
  abbrev whole : Bytes
  whole = pre ++ (member_blocks m ++ rest)

  header_at : slice whole (length pre) 512 ≡ header m
  unfolding member_blocks
  header_at =
      ap (λ t. slice (pre ++ t) (length pre) 512)
        (append_assoc (header m) (m.content ++ zeros (padding (length m.content))) rest)
      ∙ slice-behind pre (header m) _ 512 (length-header m v)

  content_at : slice whole (length pre + 512) (length m.content) ≡ m.content
  unfolding member_blocks
  content_at =
      let there : length pre + 512 ≡ length (pre ++ header m) =
        omega (arith, length-append pre (header m), length-header m v) in
      let regrouped : whole
          ≡ (pre ++ header m) ++ (m.content ++ (zeros (padding (length m.content)) ++ rest)) =
        simp append_assoc in
      ap₂ (λ t n. slice t n (length m.content)) regrouped there
      ∙ slice-behind (pre ++ header m) m.content (zeros (padding (length m.content)) ++ rest)
          (length m.content) refl

  length-member_blocks : length (member_blocks m) ≡ 512 + (length m.content + 511) / 512 * 512
  unfolding member_blocks
  length-member_blocks = omega (
    arith,
    length-header m v,
    length-append (header m) (m.content ++ zeros (padding (length m.content))),
    length-append m.content (zeros (padding (length m.content))),
    length-replicate {A = ℕ} (padding (length m.content)) 0,
  )

  next_offset-member :
      length whole < 2 ^ 64
      → next_offset (length pre) (length m.content) ≡ length pre + length (member_blocks m)
  unfolding next_offset
  next_offset-member small = omega (
    arith,
    length-append pre (member_blocks m ++ rest),
    length-append (member_blocks m) rest,
    length-member_blocks,
  )

  -- One member, wherever it stands.
  parse_entry-member :
      length whole < 2 ^ 64
      → parse_entry whole (length pre) ≡ ok (entry_of m, length (pre ++ member_blocks m))
  parse_entry-member small =
      let next = next_offset-member small in
      let total = length-append pre (member_blocks m ++ rest) in
      let total' = length-append (member_blocks m) rest in
      parse_entry_lem whole (length pre) (header m) m.path m.kind (length m.content) header_at
        (checksum_matches-header m v)
        (ap is_all_zero (prefix_bytes m v) ∙ is_all_zero-replicate 155) (name_bytes m v) v.safe
        (ap entry_type (flag_byte m v) ∙ entry_type-flag m v m.kind v.flag) (entry_size-header m v)
        (omega arith) (omega arith)
      ∙ ap₂ (λ c n. ok (record { path = m.path; kind = m.kind; content = c }, n)) content_at
          (next ∙ sym (length-append pre (member_blocks m)))

module _ (realloc : ℕ → Bool) (memory : (n : ℕ) → realloc n ≡ true) where
  tar_loop_next :
      (fuel : ℕ) (tar : Bytes) (offset : ℕ) (entries : List TarEntry) (capacity : ℕ) (e : TarEntry)
      (next : ℕ)
      → offset + 512 ≤ length tar
      → is_all_zero (slice tar offset 512) ≡ false
      → parse_entry tar offset ≡ ok (e, next)
      → (c : ℕ) × (tar_loop realloc (suc fuel) tar offset entries capacity
          ≡ tar_loop realloc fuel tar next (entries ++ e ∷ []) c)
  unfolding tar_loop
  tar_loop_next fuel tar offset entries capacity e next room used parsed =
      let more : ltb offset (length tar) ≡ true = ground arith in
      let whole_block : ltb (length tar - offset) 512 ≡ false = ground arith in
      elim (Bool-cases (length entries == capacity)) [
        | inl full ↦ (grow capacity, rw (more, whole_block, used, parsed, full, memory) refl)
        | inr spare ↦ (capacity, rw (more, whole_block, used, parsed, spare) refl)
      ]

  tar_loop_end :
      (fuel : ℕ) (tar : Bytes) (offset : ℕ) (entries : List TarEntry) (capacity : ℕ)
      → offset + 512 ≤ length tar
      → is_all_zero (slice tar offset 512) ≡ true
      → tar_loop realloc (suc fuel) tar offset entries capacity ≡ some (ok entries)
  unfolding tar_loop
  tar_loop_end fuel tar offset entries capacity room zero_block =
      let more : ltb offset (length tar) ≡ true = ground arith in
      let whole_block : ltb (length tar - offset) 512 ≡ false = ground arith in
      rw (more, whole_block, zero_block)

  tar_loop-archive :
      (ms : List Member) (pre rest : Bytes) (entries : List TarEntry) (capacity fuel : ℕ)
      → All IsMember ms
      → length (pre ++ archive ms rest) < 2 ^ 64
      → length ms < fuel
      → tar_loop realloc fuel (pre ++ archive ms rest) (length pre) entries capacity
        ≡ some (ok (entries ++ map entry_of ms))
  tar_loop-archive ms pre rest entries capacity zero v small enough = absurd (omega arith)
  tar_loop-archive [] pre rest entries capacity (suc fuel) v small enough =
      let total = length-append pre (zeros 512 ++ rest) in
      let total' = length-append (zeros 512) rest in
      let block = length-replicate {A = ℕ} 512 0 in
      unfold archive in
      (tar_loop_end fuel (pre ++ (zeros 512 ++ rest)) (length pre) entries capacity (omega arith)
          (ap is_all_zero (slice-behind pre (zeros 512) rest 512 block) ∙ is_all_zero-replicate 512)
        ∙ ap (λ es. some (ok es)) (sym (append-nil entries)))
  tar_loop-archive (m ∷ ms) pre rest entries capacity (suc fuel) (vm, v) small enough =
      let tar = pre ++ archive (m ∷ ms) rest in
      let opened : tar ≡ pre ++ (member_blocks m ++ archive ms rest) = unfold archive in refl in
      let regrouped : tar ≡ (pre ++ member_blocks m) ++ archive ms rest =
        opened ∙ sym (append_assoc pre (member_blocks m) (archive ms rest)) in
      let small' : length (pre ++ (member_blocks m ++ archive ms rest)) < 2 ^ 64 =
        rw opened at small in
      let total = length-append pre (member_blocks m ++ archive ms rest) in
      let total' = length-append (member_blocks m) (archive ms rest) in
      let size = length-member_blocks m vm pre (archive ms rest) in
      let (c, step) =
        tar_loop_next fuel (pre ++ (member_blocks m ++ archive ms rest)) (length pre) entries
          capacity (entry_of m) (length (pre ++ member_blocks m)) (omega arith)
          (ap is_all_zero (header_at m vm pre (archive ms rest)) ∙ header-ne-zero m vm)
          (parse_entry-member m vm pre (archive ms rest) small') in
      ap (λ t. tar_loop realloc (suc fuel) t (length pre) entries capacity) opened
      ∙ step
      ∙ ap
          (λ t.
            tar_loop realloc fuel t (length (pre ++ member_blocks m)) (entries ++ entry_of m ∷ [])
              c)
          (sym (append_assoc pre (member_blocks m) (archive ms rest)))
      ∙ tar_loop-archive ms (pre ++ member_blocks m) rest (entries ++ entry_of m ∷ []) c fuel v
          (rw regrouped at small) (omega arith)
      ∙ ap (λ es. some (ok es)) (append_assoc entries (entry_of m ∷ []) (map entry_of ms))

length-archive :
    (ms : List Member) (rest : Bytes) → All IsMember ms → length ms < length (archive ms rest)
unfolding archive
length-archive [] rest v =
    omega (arith, length-append (zeros 512) rest, length-replicate {A = ℕ} 512 0)
length-archive (m ∷ ms) rest (vm, v) = omega (
  arith,
  length-append (member_blocks m) (archive ms rest),
  length-member_blocks m vm [] (archive ms rest),
  length-archive ms rest v,
)

-- An archive in the ustar layout of less than 2 ^ 64 bytes, of members with fields of the right
-- sizes, safe paths and no data in directories, is parsed to exactly its members in their order,
-- whatever follows the block of zeros, if every allocation succeeds.
pub tar_parse-archive :
    (realloc : ℕ → Bool) (ms : List Member) (rest : Bytes)
    → ((n : ℕ) → realloc n ≡ true)
    → All IsMember ms
    → length (archive ms rest) < 2 ^ 64
    → tar_parse realloc (some (archive ms rest)) ≡ some (ok (map entry_of ms))
unfolding tar_parse
tar_parse-archive realloc ms rest memory v small =
    tar_loop-archive realloc memory ms [] rest [] 0 (suc (length (archive ms rest))) v small
      (omega (arith, length-archive ms rest v))
