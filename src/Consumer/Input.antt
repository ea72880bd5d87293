-- ===== src/Consumer/Input.antt =====
-- consumer/src/main.c: `read_all`, its loop and its buffer.
use fota_secure.Base.{
  ℕ, zero, suc, ◌+◌, ◌-◌, ◌*◌, ◌%◌, ◌^◌, ◌≤◌, ◌<◌, ◌≡◌, ◌⊎◌, inl, inr, refl, sym, ap, ◌∙◌, Bool,
  false, [], ◌∷◌, ◌++◌, append_assoc, append-nil, none, some, arith, Bytes, ◌==◌, if◌then◌else◌,
  length, length-append, length-take, length-drop, take, drop, take-append-drop, Bool-cases,
  Option-cases,
}
use fota_secure.Consumer.{grow_input, read_loop, read_all}

-- Some allocation failed.
abbrev pub Refused : (ℕ → Bool) → Type 0
Refused realloc = (n : ℕ) × (realloc n ≡ false)

-- While less than 2 ^ 63 bytes are read, the buffer has room for more, or could not grow.
grow_input-room :
    (realloc : ℕ → Bool) (total capacity room : ℕ)
    → total ≤ capacity
    → 0 < capacity
    → total < 2 ^ 63
    → grow_input realloc total capacity ≡ some room
    → total < room
unfolding grow_input
grow_input-room realloc total capacity room t p small e = ground arith

grow_input-Refused :
    (realloc : ℕ → Bool) (total capacity : ℕ)
    → grow_input realloc total capacity ≡ none
    → Refused realloc
unfolding grow_input
grow_input-Refused realloc total capacity e = (capacity * 2 % 2 ^ 64, ground arith)

length-zero : (xs : Bytes) → length xs ≡ 0 → xs ≡ []
length-zero [] h = refl
length-zero (x ∷ xs) h = absurd (omega arith)

module _ (realloc : ℕ → Bool) where
  -- The loop ends, and has read everything or was refused memory.
  read_loop_cases :
      (fuel : ℕ) (input buf : Bytes) (capacity : ℕ)
      → length input < fuel
      → length buf ≤ capacity
      → 0 < capacity
      → length buf + length input < 2 ^ 63
      → (read_loop realloc fuel input buf capacity ≡ some (some (buf ++ input)))
        ⊎ ((read_loop realloc fuel input buf capacity ≡ some none) × Refused realloc)
  unfolding read_loop
  read_loop_cases zero input buf capacity enough t p small = absurd (omega arith)
  read_loop_cases (suc fuel) input buf capacity enough t p small =
      elim (Option-cases (grow_input realloc (length buf) capacity)) [
        | inl refused ↦
            inr (
              rw (refused, read_loop) refl,
              grow_input-Refused realloc (length buf) capacity refused,
            )
        | inr (room, grown) ↦
            let more = grow_input-room realloc (length buf) capacity room t p (omega arith) grown in
            let n = room - length buf in
            let taken = length-take n input in
            let left = length-drop n input in
            let whole = take-append-drop n input in
            elim (Bool-cases (length (take n input) == 0)) [
              | inl end ↦
                  let nothing : input ≡ [] = length-zero input (ground arith) in
                  inl (
                    rw (grown, read_loop, end)
                      (ap (λ b. some (some b))
                        (sym (append-nil buf) ∙ ap (λ i. buf ++ i) (sym nothing))))
              | inr some_read ↦
                  let whole' : (buf ++ take n input) ++ drop n input ≡ buf ++ input =
                    append_assoc buf (take n input) (drop n input) ∙ ap (λ i. buf ++ i) whole in
                  let size = length-append buf (take n input) in
                  elim (read_loop_cases fuel (drop n input) (buf ++ take n input) room
                    (ground arith) (omega arith) (omega arith) (omega arith)) [
                      | inl done ↦
                          inl (
                            rw (grown, read_loop, some_read)
                              (done ∙ ap (λ b. some (some b)) whole'))
                      | inr (stopped, refused) ↦
                          inr (rw (grown, read_loop, some_read) stopped, refused)
                    ]
            ]
      ]

  -- A stream of less than 2 ^ 63 bytes is read to its end: the result is exactly its bytes, or
  -- nothing if its error flag is set, and nothing in any other case only if some allocation failed.
  pub read_all_cases :
      (input : Bytes) (error : Bool)
      → length input < 2 ^ 63
      → (read_all realloc input error ≡ some (if error then none else some input))
        ⊎ ((read_all realloc input error ≡ some none) × Refused realloc)
  unfolding read_all
  read_all_cases input error small = elim (Bool-cases (realloc 65536)) [
    | inr refused ↦ inr (rw refused refl, (65536, refused))
    | inl memory ↦
        elim (read_loop_cases (suc (length input)) input [] 65536 (omega arith) (omega arith)
          (omega arith) (omega arith)) [
            | inl done ↦ inl (rw (memory, done) refl)
            | inr (stopped, refused) ↦ inr (rw (memory, stopped) refl, refused)
          ]
  ]
