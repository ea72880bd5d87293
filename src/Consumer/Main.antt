-- ===== src/Consumer/Main.antt =====
-- consumer/src/main.c: `main` with its arguments, from the input to the exit.
use fota_secure.Base.{
  ◌^◌, ◌<◌, ◌≡◌, ◌⊎◌, inl, inr, refl, sym, ◌∙◌, Bool, true, false, List, [], ◌∷◌, Option, none,
  some, Bytes, codes, same_bytes, same_bytes_sound, length, subst, Bool-cases, Option-cases,
}
use fota_secure.Device.{Device, ReadsBack}
use fota_secure.Fcrypto.{Libcrypto}
use fota_secure.Gunzip.{Zlib, IsInflate}
use fota_secure.Consumer.{
  Exit, success, generic_failure, Memory, read_all, read_input, parse_secret, run, main,
}
use fota_secure.Consumer.Input.{read_all_cases}
use fota_secure.Consumer.Confined.{IsApart, run-keeps}
use fota_secure.Consumer.Safety.{run_cases}
use fota_secure.Consumer.Versions.{IsUpdate, run_success}

-- What `main` may read is shorter than 2 ^ 63 bytes.
pub record IsBounded (D : Device) (s : D.State) : Type 0 where
  pub by_stdin : length (D.stdin s) < 2 ^ 63
  pub by_file : (path b : Bytes) → D.read_file path s ≡ some b → length b < 2 ^ 63

-- The bytes that the first argument names: all of standard input, or all of a file.
pub data IsInput (D : Device) (s : D.State) : Bytes → Bytes → Type 0 where
  from_stdin : D.stdin_error s ≡ false → IsInput D s (codes "-") (D.stdin s)
  from_file :
      {path d : Bytes}
      → same_bytes path (codes "-") ≡ false
      → D.read_file path s ≡ some d
      → D.read_error path s ≡ false
      → IsInput D s path d

module _ (D : Device) (C : Libcrypto) (mem : Memory) (Z : Zlib) where
  read_all-of :
      (input : Bytes) (error : Bool)
      → length input < 2 ^ 63
      → (read_all mem.input input error ≡ some none)
        ⊎ ((read_all mem.input input error ≡ some (some input)) × (error ≡ false))
  read_all-of input true small = elim (read_all_cases mem.input input true small) [
    | inr (refused, why) ↦ inl refused
    | inl stopped ↦ inl stopped
  ]
  read_all-of input false small = elim (read_all_cases mem.input input false small) [
    | inr (refused, why) ↦ inl refused
    | inl whole ↦ inr (whole, refl)
  ]

  -- An input of less than 2 ^ 63 bytes is read to its end, or nothing of it is used.
  pub read_input_cases :
      (path : Bytes) (s : D.State)
      → IsBounded D s
      → (read_input D C mem Z path s ≡ some none)
        ⊎ ((d : Bytes) × (read_input D C mem Z path s ≡ some (some d)) × IsInput D s path d)
  unfolding read_input
  read_input_cases path s bounded = elim (Bool-cases (same_bytes path (codes "-"))) [
    | inl dash ↦ elim (read_all-of (D.stdin s) (D.stdin_error s) bounded.by_stdin) [
      | inl nothing ↦ inl (rw (dash, read_input) nothing)
      | inr (whole, good) ↦ inr (
        D.stdin s,
        rw (dash, read_input) whole,
        subst (λ p. IsInput D s p (D.stdin s)) (sym (same_bytes_sound path (codes "-") dash))
            (from_stdin good),
      )
    ]
    | inr file ↦ elim (Option-cases (D.read_file path s)) [
      | inl gone ↦ inl (rw (file, read_input, gone) refl)
      | inr (input, there) ↦
          elim (read_all-of input (D.read_error path s) (bounded.by_file path input there)) [
            | inl nothing ↦ inl (rw (file, read_input, there) nothing)
            | inr (whole, good) ↦
                inr (input, rw (file, read_input, there) whole, from_file file there good)
          ]
    ]
  ]

  main-of-none :
      (path : Bytes) (rest : List Bytes) (s : D.State)
      → read_input D C mem Z path s ≡ some none
      → main D C mem Z (path ∷ rest) s ≡ some (generic_failure, s)
  unfolding main
  main-of-none path rest s e = rw (e, main) refl

  main-of-some :
      (path : Bytes) (rest : List Bytes) (s : D.State) (d : Bytes)
      → read_input D C mem Z path s ≡ some (some d)
      → main D C mem Z (path ∷ rest) s ≡ run D C mem Z d (parse_secret rest none) s
  unfolding main
  main-of-some path rest s d e = rw (e, main) refl

  -- A run on the bytes that the first argument names, with the secret of the others.
  pub record IsRunOn (args : List Bytes) (s : D.State) (result : Exit × D.State) : Type 0 where
    pub path : Bytes
    pub rest : List Bytes
    pub given : args ≡ path ∷ rest
    pub d : Bytes
    pub read : IsInput D s path d
    pub ran : run D C mem Z d (parse_secret rest none) s ≡ some result

  module _ (law : IsInflate Z) where
    -- Under zlib's documented behaviour and while the inputs have less than 2 ^ 63 bytes, `main`
    -- ends, whatever its arguments and whichever allocations fail: with a generic failure that
    -- changes nothing, or with the run on exactly the bytes of the file or of standard input.
    pub main_cases :
        (args : List Bytes) (s : D.State)
        → IsBounded D s
        → (main D C mem Z args s ≡ some (generic_failure, s))
          ⊎ ((result : Exit × D.State) × (main D C mem Z args s ≡ some result)
              × IsRunOn args s result)
    unfolding main
    main_cases [] s bounded = inl refl
    main_cases (path ∷ rest) s bounded = elim (read_input_cases path s bounded) [
      | inl nothing ↦ inl (main-of-none path rest s nothing)
      | inr (d, whole, read) ↦
          let (result, ran) = run_ends d rest s in
          inr (
            result,
            main-of-some path rest s d whole ∙ ran,
            record { path = path; rest = rest; given = refl; d = d; read = read; ran = ran },
          )
    ]
      where
        run_ends :
            (d : Bytes) (rest : List Bytes) (s : D.State)
            → (result : Exit × D.State) × (run D C mem Z d (parse_secret rest none) s ≡ some result)
        run_ends d rest s = elim (run_cases D C mem Z law d (parse_secret rest none) s) [
          | inl (e, failed, left) ↦ ((e, s), left)
          | inr (result, ran, i) ↦ (result, ran)
        ]

    -- Under zlib's documented behaviour and while the inputs have less than 2 ^ 63 bytes, `main`
    -- ends, and keeps every property of the state that no call on a path inside of the installation
    -- directory changes and no call on the version file.
    pub main-keeps :
        (P : D.State → Type 0)
        → IsApart D P
        → (args : List Bytes) (s : D.State) → IsBounded D s
        → P s
        → (result : Exit × D.State) × (main D C mem Z args s ≡ some result) × P result.1
    main-keeps P apart args s bounded p = elim (main_cases args s bounded) [
      | inl failed ↦ ((generic_failure, s), failed, p)
      | inr (result, ended, on) ↦
          let (other, ran, kept) =
            run-keeps D P apart C mem Z law on.d (parse_secret on.rest none) s p in
          (other, ended ∙ sym on.ran ∙ ran, kept)
    ]

    -- Under zlib's documented behaviour, while the inputs have less than 2 ^ 63 bytes, and on a file
    -- system that reads back what it took: if `main` ends in success, then it ran on exactly the
    -- bytes that its first argument names, with the secret of the others; the package was accepted,
    -- all its files were written, and the version file holds its version, which is newer than the
    -- one before, or older and let in by the secret.
    pub main_success :
        (keeps : ReadsBack D) (args : List Bytes) (s s' : D.State)
        → IsBounded D s
        → main D C mem Z args s ≡ some (success, s')
        → (on : IsRunOn args s (success, s')) × IsUpdate D C mem Z law keeps on.d
            (parse_secret on.rest none)
            s
            s'
    main_success keeps args s s' bounded e = elim (main_cases args s bounded) [
      | inl failed ↦ absurd (no_success (sym failed ∙ e))
      | inr (result, ended, on) ↦
          let on' = subst (IsRunOn args s) (some_same (sym ended ∙ e)) on in
          (on', run_success D C mem Z law keeps on'.d (parse_secret on'.rest none) s s' on'.ran)
    ]
      where
        some_same : {a b : Exit × D.State} → some a ≡ some b → a ≡ b
        some_same e = cc

        no_success :
            {t u : D.State}
            → ◌≡◌ {A = Option (Exit × D.State)} (some (generic_failure, t)) (some (success, u))
            → ⊥
        no_success e = cc
