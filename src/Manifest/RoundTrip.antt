-- ===== src/Manifest/RoundTrip.antt =====
-- consumer/src/installer.c: `parse_manifest_files` on printed manifests.
use fota_secure.Base.{
  ℕ, zero, suc, ◌-◌, ◌*◌, ◌≤◌, ◌<◌, ◌≡◌, inl, inr, refl, sym, ap, ◌∙◌, Bool, true, List, [], ◌∷◌,
  ◌++◌, append_assoc, append-nil, none, some, arith, Bytes, codes, ◌==◌, length, length-append, All,
  Bool-cases,
}
use fota_secure.Install.{ok}
use fota_secure.Manifest.{
  ManifestFile, finish_object, object_loop, ArrayStep, object, at_element, array_step, grow,
  array_loop, open_array, parse_manifest_files,
}
use fota_secure.Manifest.Layout.{
  escape, Spacing, IsSpacing, print_field, print_fields, print_object, print_more, print_files,
  files_key, print_manifest, IsFirst, IsPlain,
}
use fota_secure.Manifest.Tokens.{
  skip_json_whitespace-IsSpace, colon_read, bracket_read, field_step-path, field_step-sha256,
  field_step-comma, field_step-close,
}
use fota_secure.Manifest.Objects.{
  find_key-first, le-append, le-cons, object_step-comma, object_step-path, object_step-sha256,
  object_step-close,
}

module _ (w : Spacing) (v : IsSpacing w) where
  length-print_fields : (f : ManifestFile) (rest : Bytes) → 4 ≤ length (print_fields w f rest)
  unfolding print_fields print_field
  length-print_fields f rest = omega (arith, length-append w.key _)

  object_loop-print_fields :
      (f : ManifestFile) (rest : Bytes) (fuel : ℕ)
      → IsPlain f
      → object_loop (suc (suc (suc (suc fuel)))) (print_fields w f rest) none none
        ≡ some (ok (f, rest))
  unfolding print_fields
  object_loop-print_fields f rest fuel plain =
      object_step-path (suc (suc (suc fuel))) _ f.path _ none none
        (field_step-path w v f.path _ plain.path_fits plain.path_no_nul)
      ∙ object_step-comma (suc (suc fuel)) _ _ (some f.path) none (field_step-comma w v _)
      ∙ object_step-sha256 (suc fuel) _ f.sha256_hex _ (some f.path) none
          (field_step-sha256 w v f.sha256_hex _ plain.hash_size plain.hash_no_nul)
      ∙ object_step-close fuel _ rest (some f.path) (some f.sha256_hex) (field_step-close w v rest)
      ∙ unfold finish_object in refl

  pub object_at :
      (f : ManifestFile) (rest : Bytes)
      → array_step (print_object w f rest) ≡ object (print_fields w f rest)
  unfolding array_step print_object
  object_at f rest = ap at_element (skip_json_whitespace-IsSpace w.item b'{' _ v.item refl)

  comma_at : (s : Bytes) → array_step (w.comma ++ b',' ∷ s) ≡ ArrayStep.comma s
  unfolding array_step
  comma_at s = ap at_element (skip_json_whitespace-IsSpace w.comma b',' s v.comma refl)

  end_at : (s : Bytes) → array_step (w.end ++ b']' ∷ s) ≡ ArrayStep.close
  unfolding array_step
  end_at s = ap at_element (skip_json_whitespace-IsSpace w.end b']' s v.end refl)

  object-read :
      (f : ManifestFile) (rest : Bytes)
      → IsPlain f
      → object_loop (suc (length (print_fields w f rest))) (print_fields w f rest) none none
        ≡ some (ok (f, rest))
  object-read f rest plain =
      let n = length (print_fields w f rest) in
      ap (λ k. object_loop k (print_fields w f rest) none none) {y = suc (suc (suc (suc (n - 3))))}
        (omega (arith, length-print_fields f rest))
      ∙ object_loop-print_fields f rest (n - 3) plain

  module _ (realloc : ℕ → Bool) (memory : (n : ℕ) → realloc n ≡ true) where
    pub array_step-object :
        (fuel : ℕ) (f : ManifestFile) (rest : Bytes) (files : List ManifestFile) (capacity : ℕ)
        → IsPlain f
        → (c : ℕ) × (array_loop realloc (suc fuel) (print_object w f rest) files capacity
            ≡ array_loop realloc fuel rest (files ++ f ∷ []) c)
    unfolding array_loop
    array_step-object fuel f rest files capacity plain =
        let at = object_at f rest in
        let read = object-read f rest plain in
        elim (Bool-cases (length files == capacity)) [
          | inl full ↦ (grow capacity, rw (at, array_loop, read, full, memory) refl)
          | inr spare ↦ (capacity, rw (at, array_loop, read, spare) refl)
        ]

    pub array_step-comma :
        (fuel : ℕ) (s : Bytes) (files : List ManifestFile) (capacity : ℕ)
        → array_loop realloc (suc fuel) (w.comma ++ b',' ∷ s) files capacity
          ≡ array_loop realloc fuel s files capacity
    unfolding array_loop
    array_step-comma fuel s files capacity = rw (comma_at s, array_loop)

    array_step-end :
        (fuel : ℕ) (s : Bytes) (files : List ManifestFile) (capacity : ℕ)
        → array_loop realloc (suc fuel) (w.end ++ b']' ∷ s) files capacity ≡ some (ok files)
    unfolding array_loop
    array_step-end fuel s files capacity = rw (end_at s, array_loop)

    array_loop-print_more :
        (fs : List ManifestFile) (rest : Bytes) (files : List ManifestFile) (capacity fuel : ℕ)
        → All IsPlain fs
        → 2 * length fs < fuel
        → array_loop realloc fuel (print_more w fs rest) files capacity ≡ some (ok (files ++ fs))
    unfolding print_more
    array_loop-print_more fs rest files capacity zero plain enough = absurd (omega arith)
    array_loop-print_more [] rest files capacity (suc fuel) plain enough =
        array_step-end fuel rest files capacity ∙ ap (λ x. some (ok x)) (sym (append-nil files))
    array_loop-print_more (f ∷ fs) rest files capacity (suc zero) plain enough =
        absurd (omega arith)
    array_loop-print_more (f ∷ fs) rest files capacity (suc (suc fuel)) (p, plain) enough =
        let (c, step) = array_step-object fuel f (print_more w fs rest) files capacity p in
        array_step-comma (suc fuel) (print_object w f (print_more w fs rest)) files capacity
        ∙ step
        ∙ array_loop-print_more fs rest (files ++ f ∷ []) c fuel plain (omega arith)
        ∙ ap (λ x. some (ok x)) (append_assoc files (f ∷ []) fs)

    array_loop-print_files :
        (fs : List ManifestFile) (rest : Bytes) (fuel : ℕ)
        → All IsPlain fs
        → 2 * length fs < fuel
        → array_loop realloc fuel (print_files w fs rest) [] 0 ≡ some (ok fs)
    unfolding print_files
    array_loop-print_files [] rest fuel plain enough =
        array_loop-print_more [] rest [] 0 fuel tt enough
    array_loop-print_files (f ∷ fs) rest zero plain enough = absurd (omega arith)
    array_loop-print_files (f ∷ fs) rest (suc fuel) (p, plain) enough =
        let (c, step) = array_step-object fuel f (print_more w fs rest) [] 0 p in
        step ∙ array_loop-print_more fs rest (f ∷ []) c fuel plain (omega arith)

  le-print_field : (key value rest : Bytes) → length rest ≤ length (print_field w key value rest)
  unfolding print_field
  le-print_field key value rest = le-append w.key _ (
      le-cons b'"' _ (
        le-append (escape key) _ (
          le-cons b'"' _ (
            le-append w.colon _ (
              le-cons b':' _ (
                le-append w.value _ (
                  le-cons b'"' _
                    (le-append (escape value) _ (le-cons b'"' rest (omega arith))))))))))

  pub lt-print_object :
      (f : ManifestFile) (rest : Bytes) → length rest < length (print_object w f rest)
  unfolding print_object print_fields
  lt-print_object f rest =
      let hash = print_field w (codes "sha256") f.sha256_hex (w.close ++ b'}' ∷ rest) in
      let closed : length rest < length (w.close ++ b'}' ∷ rest) =
        le-append w.close (b'}' ∷ rest) (omega arith) in
      let hashed = le-print_field (codes "sha256") f.sha256_hex (w.close ++ b'}' ∷ rest) in
      let separated : length hash ≤ length (w.comma ++ b',' ∷ hash) =
        le-append w.comma (b',' ∷ hash) (omega arith) in
      le-append w.item _
        (omega (arith, le-print_field (codes "path") f.path (w.comma ++ b',' ∷ hash)))

  lt-print_more :
      (fs : List ManifestFile) (rest : Bytes) → 2 * length fs < length (print_more w fs rest)
  unfolding print_more
  lt-print_more [] rest = le-append w.end (b']' ∷ rest) (omega arith)
  lt-print_more (f ∷ fs) rest =
      le-append w.comma _
        (omega (arith, lt-print_object f (print_more w fs rest), lt-print_more fs rest))

  le-print_files :
      (fs : List ManifestFile) (rest : Bytes) → 2 * length fs ≤ length (print_files w fs rest)
  unfolding print_files
  le-print_files [] rest = omega arith
  le-print_files (f ∷ fs) rest =
      omega (arith, lt-print_object f (print_more w fs rest), lt-print_more fs rest)

  -- The search and the two brackets lead to what stands inside of the list.
  pub open_array-print_list :
      (before list : Bytes)
      → IsFirst files_key before (files_key ++ (w.colon ++ (b':' ∷ (w.value ++ (b'[' ∷ list)))))
      → open_array (before ++ (files_key ++ (w.colon ++ (b':' ∷ (w.value ++ (b'[' ∷ list))))))
        ≡ some list
  unfolding open_array
  open_array-print_list before list first =
      let found = find_key-first files_key before _ first (omega arith) in
      let at_colon = colon_read w.colon (w.value ++ b'[' ∷ list) v.colon in
      rw (found, at_colon) (bracket_read w.value _ v.value)

-- A manifest whose strings are printed with a backslash in front of each quote and backslash and
-- with every other byte as it is, and which has any white space between the tokens of its list of
-- files, whatever stands in front of the first "files" and behind the list, is read as exactly the
-- listings that were printed, if their paths and hashes fit and hold no NUL and every allocation
-- succeeds.
pub parse_manifest_files-print_manifest :
    (realloc : ℕ → Bool) (w : Spacing) (before : Bytes) (files : List ManifestFile) (rest : Bytes)
    → ((n : ℕ) → realloc n ≡ true)
    → IsSpacing w
    → All IsPlain files
    → IsFirst files_key before
        (files_key ++ (w.colon ++ (b':' ∷ (w.value ++ (b'[' ∷ print_files w files rest)))))
    → parse_manifest_files realloc (print_manifest w before files rest) ≡ some (ok files)
unfolding parse_manifest_files print_manifest
parse_manifest_files-print_manifest realloc w before files rest memory v plain first =
    rw (open_array-print_list w v before (print_files w files rest) first, parse_manifest_files)
      (array_loop-print_files w v realloc memory files rest
        (suc (length (print_files w files rest))) plain
        (omega (arith, le-print_files w v files rest)))
