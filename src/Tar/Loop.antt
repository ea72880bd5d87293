-- ===== src/Tar/Loop.antt =====
-- consumer/src/installer.c: the loop of `fota_tar_parse`.
use fota_secure.Base.{
  ℕ, zero, suc, ◌+◌, ◌-◌, ◌≤◌, ◌<◌, ◌^◌, inl, inr, Bool, List, [], ◌∷◌, ◌++◌, some, arith, Bytes,
  ltb, ◌==◌, length, slice, All, All-append, Bool-cases,
}
use fota_secure.Install.{Returns, Result-cases}
use fota_secure.Tar.{TarEntry, is_all_zero, parse_entry, grow, tar_loop, tar_parse}
use fota_secure.Tar.Entry.{IsEntry, parse_entry_sound}

module _ (realloc : ℕ → Bool) (tar : Bytes) (small : length tar < 2 ^ 64) where
  AreEntries : List TarEntry → Type 0
  AreEntries = All (λ e. IsEntry tar e)

  tar_loop-Returns :
      (fuel offset : ℕ) (entries : List TarEntry) (capacity : ℕ)
      → length tar < fuel + offset
      → offset ≤ length tar
      → AreEntries entries
      → Returns AreEntries (tar_loop realloc fuel tar offset entries capacity)
  unfolding tar_loop AreEntries
  tar_loop-Returns zero offset entries capacity enough inside h = absurd (omega arith)
  tar_loop-Returns (suc fuel) offset entries capacity enough inside h =
      elim (Bool-cases (ltb offset (length tar))) [
        | inr ran_off ↦ rw ran_off tt
        | inl more ↦ elim (Bool-cases (ltb (length tar - offset) 512)) [
          | inl cut_off ↦ rw (more, cut_off) tt
          | inr room ↦ elim (Bool-cases (is_all_zero (slice tar offset 512))) [
            | inl end_mark ↦ rw (more, room, end_mark) h
            | inr used ↦ elim (Result-cases (parse_entry tar offset)) [
              | inr (e, q) ↦ rw (more, room, used, q) tt
              | inl ((entry, next), q) ↦
                  let (good, on, inside') =
                    parse_entry_sound tar small offset entry next (ground arith) q in
                  let h' = All-append (λ e. IsEntry tar e) entries (entry ∷ []) h (good, tt) in
                  let round = λ (c : ℕ).
                    tar_loop-Returns fuel next (entries ++ entry ∷ []) c (omega arith) inside' h' in
                  elim (Bool-cases (length entries == capacity)) [
                    | inr spare ↦ rw (more, room, used, q, spare) (round capacity)
                    | inl full ↦ elim (Bool-cases (realloc (grow capacity))) [
                      | inr refused ↦ rw (more, room, used, q, full, refused) tt
                      | inl grown ↦ rw (more, room, used, q, full, grown) (round (grow capacity))
                    ]
                  ]
            ]
          ]
        ]
      ]

-- Every archive of less than 2 ^ 64 bytes gets an answer, whichever allocations fail. If it is a
-- success, every entry has a safe path of at most 100 bytes with no NUL, a directory has no data,
-- and the data of a file is a part of the archive.
pub tar_parse-Returns :
    (realloc : ℕ → Bool) (tar : Bytes)
    → length tar < 2 ^ 64
    → Returns (All (λ e. IsEntry tar e)) (tar_parse realloc (some tar))
unfolding tar_parse AreEntries
tar_parse-Returns realloc tar small =
    tar_loop-Returns realloc tar small (suc (length tar)) 0 [] 0 (omega arith) (omega arith) tt
