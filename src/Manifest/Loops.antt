-- ===== src/Manifest/Loops.antt =====
-- consumer/src/installer.c: the loops of `parse_manifest_files`.
use fota_secure.Base.{
  ℕ, zero, suc, ◌≤◌, ◌<◌, ◌≡◌, ◌⊎◌, subst, inl, inr, refl, Bool, List, [], ◌∷◌, ◌++◌, Option, none,
  some, arith, Bytes, ◌==◌, length, All, All-append, Bool-cases, Option-cases,
}
use fota_secure.Install.{Returns, Returns-weaken, InstallError, Result, ok, err, manifest_parse}
use fota_secure.Manifest.{
  ManifestFile, FieldStep, malformed, close, comma, set_path, set_sha256, field_step, finish_object,
  object_loop, ArrayStep, object, array_step, grow, array_loop, open_array, parse_manifest_files,
}
use fota_secure.Manifest.Strings.{FieldIsGood, field_step-good, ArrayIsGood, array_step-good}

-- A listing that fits the fields of `fota_manifest_file_t`.
pub record IsListing (f : ManifestFile) : Type 0 where
  pub path_fits : length f.path ≤ 255
  pub hash_fits : length f.sha256_hex ≡ 64

-- What has been stored of an object so far.
abbrev PathFits : Option Bytes → Type 0
PathFits none = Unit
PathFits (some p) = length p ≤ 255

abbrev HashFits : Option Bytes → Type 0
HashFits none = Unit
HashFits (some h) = length h ≡ 64

abbrev IsObject : Bytes → ManifestFile × Bytes → Type 0
IsObject s (f, rest) = IsListing f × (length rest < length s)

finish_object-Returns :
    (s rest : Bytes) (path sha256 : Option Bytes)
    → PathFits path
    → HashFits sha256
    → length rest < length s
    → Returns (IsObject s) (some (finish_object path sha256 rest))
unfolding finish_object
finish_object-Returns s rest none sha256 p h l = tt
finish_object-Returns s rest (some path) none p h l = tt
finish_object-Returns s rest (some path) (some hex) p h l =
    (record { path_fits = p; hash_fits = h }, l)

longer :
    (s t : Bytes) → length t < length s → (x : ManifestFile × Bytes) → IsObject t x → IsObject s x
longer s t l (f, rest) (ok_f, h) = (ok_f, omega arith)

ObjectReturns : ℕ → Type 0
ObjectReturns fuel =
    (s : Bytes) (path sha256 : Option Bytes)
    → length s < fuel
    → PathFits path
    → HashFits sha256
    → Returns (IsObject s) (object_loop fuel s path sha256)

after_field :
    (fuel : ℕ) (s : Bytes) (path sha256 : Option Bytes)
    → ObjectReturns fuel
    → length s < suc fuel
    → PathFits path
    → HashFits sha256
    → (step : FieldStep) → FieldIsGood s step
    → Returns (IsObject s) (elim step [
      | malformed ↦ some (err manifest_parse)
      | close rest ↦ some (finish_object path sha256 rest)
      | comma rest ↦ object_loop fuel rest path sha256
      | set_path p rest ↦ object_loop fuel rest (some p) sha256
      | set_sha256 h rest ↦ object_loop fuel rest path (some h)
    ])
unfolding ObjectReturns
after_field fuel s path sha256 ih enough p h malformed g = tt
after_field fuel s path sha256 ih enough p h (close rest) g =
    finish_object-Returns s rest path sha256 p h g
after_field fuel s path sha256 ih enough p h (comma rest) g =
    Returns-weaken (object_loop fuel rest path sha256) (longer s rest g)
      (ih rest path sha256 (omega arith) p h)
after_field fuel s path sha256 ih enough p h (set_path q rest) g =
    Returns-weaken (object_loop fuel rest (some q) sha256) (longer s rest g.0)
      (ih rest (some q) sha256 (omega arith) g.1 h)
after_field fuel s path sha256 ih enough p h (set_sha256 q rest) g =
    Returns-weaken (object_loop fuel rest path (some q)) (longer s rest g.0)
      (ih rest path (some q) (omega arith) p g.1)

object_loop-Returns : (fuel : ℕ) → ObjectReturns fuel
unfolding ObjectReturns object_loop
object_loop-Returns zero s path sha256 enough p h = absurd (omega arith)
object_loop-Returns (suc fuel) s path sha256 enough p h =
    after_field fuel s path sha256 (object_loop-Returns fuel) enough p h (field_step s)
      (field_step-good s)

object_loop-IsObject : (s : Bytes) → Returns (IsObject s) (object_loop (suc (length s)) s none none)
unfolding ObjectReturns
object_loop-IsObject s = object_loop-Returns (suc (length s)) s none none (omega arith) tt tt

ArrayStep-cases :
    (x : ArrayStep)
    → (x ≡ ArrayStep.malformed)
      ⊎ (x ≡ ArrayStep.close)
      ⊎ ((rest : Bytes) × (x ≡ ArrayStep.comma rest))
      ⊎ ((inside : Bytes) × (x ≡ object inside))
ArrayStep-cases ArrayStep.malformed = inl refl
ArrayStep-cases ArrayStep.close = inr (inl refl)
ArrayStep-cases (ArrayStep.comma rest) = inr (inr (inl (rest, refl)))
ArrayStep-cases (object inside) = inr (inr (inr (inside, refl)))

run-cases :
    {A : Type 0} {P : A → Type 0} (o : Option (Result A))
    → Returns P o
    → ((e : InstallError) × (o ≡ some (err e))) ⊎ ((a : A) × (o ≡ some (ok a)) × P a)
run-cases none r = absurd r
run-cases (some (ok a)) r = inr (a, refl, r)
run-cases (some (err e)) r = inl (e, refl)

module _ (realloc : ℕ → Bool) where
  AreListings : List ManifestFile → Type 0
  AreListings = All (λ f. IsListing f)

  ArrayReturns : ℕ → Type 0
  ArrayReturns fuel =
      (s : Bytes) (files : List ManifestFile) (capacity : ℕ)
      → length s < fuel
      → AreListings files
      → Returns AreListings (array_loop realloc fuel s files capacity)

  array_loop-Returns : (fuel : ℕ) → ArrayReturns fuel
  unfolding ArrayReturns array_loop AreListings
  array_loop-Returns zero s files capacity enough h = absurd (omega arith)
  array_loop-Returns (suc fuel) s files capacity enough h = elim (ArrayStep-cases (array_step s)) [
    | inl q ↦ rw (q, array_loop) tt
    | inr (inl q) ↦ rw (q, array_loop) h
    | inr (inr (inl (rest, q))) ↦
        let shorter : length rest < length s = subst (ArrayIsGood s) q (array_step-good s) in
        rw (q, array_loop) (array_loop-Returns fuel rest files capacity (omega arith) h)
    | inr (inr (inr (inside, q))) ↦
        let shorter : length inside < length s = subst (ArrayIsGood s) q (array_step-good s) in
        elim (run-cases (object_loop (suc (length inside)) inside none none)
          (object_loop-IsObject inside)) [
            | inl (e, failed) ↦ rw (q, array_loop, failed) tt
            | inr ((f, rest), found, (good, on)) ↦
                let h' = All-append (λ f. IsListing f) files (f ∷ []) h (good, tt) in
                let round =
                  λ (c : ℕ). array_loop-Returns fuel rest (files ++ f ∷ []) c (omega arith) h' in
                elim (Bool-cases (length files == capacity)) [
                  | inr spare ↦ rw (q, array_loop, found, spare) (round capacity)
                  | inl full ↦ elim (Bool-cases (realloc (grow capacity))) [
                    | inr refused ↦ rw (q, array_loop, found, full, refused) tt
                    | inl grown ↦ rw (q, array_loop, found, full, grown) (round (grow capacity))
                  ]
                ]
          ]
  ]

-- Every manifest gets an answer, whichever allocations fail. If it is a success, every path has at
-- most 255 bytes and every hash 64, so that both fit their fields with the NUL.
pub parse_manifest_files-Returns :
    (realloc : ℕ → Bool) (buf : Bytes)
    → Returns (All (λ f. IsListing f)) (parse_manifest_files realloc buf)
unfolding parse_manifest_files ArrayReturns AreListings
parse_manifest_files-Returns realloc buf = elim (Option-cases (open_array buf)) [
  | inl missing ↦ rw (missing, parse_manifest_files) tt
  | inr (s, opened) ↦
      rw (opened, parse_manifest_files)
        (array_loop-Returns realloc (suc (length s)) s [] 0 (omega arith) tt)
]
