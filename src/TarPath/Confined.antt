-- ===== src/TarPath/Confined.antt =====
-- consumer/src/installer.c: where the paths that `fota_tar_path_is_safe` accepts lead, lexically.
use fota_secure.Base.{
  ◌≡◌, ◌≢◌, refl, ap, ◌∙◌, subst, true, List, [], ◌∷◌, ◌++◌, some, inl, inr, Bytes, codes, ◌==◌,
  ◌||◌, same_bytes, same_bytes_sound, if◌then◌else◌, All, Bool-cases,
}
use fota_secure.TarPath.{path_is_safe}
use fota_secure.TarPath.Components.{components, onto_first, IsNotDotdot, path_is_safe_iff}

-- One component taken from a directory, which is the list of its names, the innermost first: an
-- empty component and "." stay, ".." goes up, and the root has no parent.
abbrev parent : List Bytes → List Bytes
parent [] = []
parent (_ ∷ up) = up

unfoldable pub enter : List Bytes → Bytes → List Bytes
enter dir p =
    if same_bytes p [] || same_bytes p (codes ".")
    then dir
    else if same_bytes p (codes "..")
    then parent dir
    else p ∷ dir

unfoldable pub resolve : List Bytes → List Bytes → List Bytes
resolve dir [] = dir
resolve dir (p ∷ ps) = resolve (enter dir p) ps

-- The directory lies in `base`, or is `base`.
pub record IsBelow (base dir : List Bytes) : Type 0 where
  pub names : List Bytes
  pub path_down : dir ≡ names ++ base

enter-IsBelow :
    (base dir : List Bytes) (p : Bytes)
    → IsNotDotdot p
    → IsBelow base dir
    → IsBelow base (enter dir p)
unfolding enter
enter-IsBelow base dir p h b = elim (Bool-cases (same_bytes p [] || same_bytes p (codes "."))) [
  | inl stays ↦ rw stays b
  | inr moves ↦ elim (Bool-cases (same_bytes p (codes ".."))) [
    | inl up ↦ absurd (h (same_bytes_sound p (codes "..") up))
    | inr down ↦
        rw (moves, down) (record { names = p ∷ b.names; path_down = ap (λ d. p ∷ d) b.path_down })
  ]
]

resolve-IsBelow :
    (base dir : List Bytes) (ps : List Bytes)
    → All IsNotDotdot ps
    → IsBelow base dir
    → IsBelow base (resolve dir ps)
unfolding resolve
resolve-IsBelow base dir [] h b = b
resolve-IsBelow base dir (p ∷ ps) (hp, h) b =
    resolve-IsBelow base (enter dir p) ps h (enter-IsBelow base dir p hp b)

resolve-append :
    (dir : List Bytes) (ps qs : List Bytes) → resolve dir (ps ++ qs) ≡ resolve (resolve dir ps) qs
unfolding resolve
resolve-append dir [] qs = refl
resolve-append dir (p ∷ ps) qs = resolve-append (enter dir p) ps qs

onto_first-ne-nil : (p : Bytes) (ps : List Bytes) → onto_first p ps ≢ []
onto_first-ne-nil p [] = cc
onto_first-ne-nil p (q ∷ ps) = cc

components-ne-nil : (s : Bytes) → components s ≢ []
components-ne-nil [] = cc
components-ne-nil (c ∷ s) = elim (Bool-cases (c == b'/')) [
  | inl at_slash ↦ rw at_slash (λ e. cc)
  | inr inside ↦ rw inside (onto_first-ne-nil (c ∷ []) (components s))
]

onto_first-append :
    (p : Bytes) (ps qs : List Bytes) → ps ≢ [] → onto_first p (ps ++ qs) ≡ onto_first p ps ++ qs
onto_first-append p [] qs h = absurd (h refl)
onto_first-append p (q ∷ ps) qs h = refl

-- `dir/path` has the components of both.
components-append : (d p : Bytes) → components (d ++ b'/' ∷ p) ≡ components d ++ components p
components-append [] p = refl
components-append (c ∷ d) p = elim (Bool-cases (c == b'/')) [
  | inl at_slash ↦ rw at_slash (ap (λ ps. [] ∷ ps) (components-append d p))
  | inr inside ↦ rw inside (
      ap (onto_first (c ∷ [])) (components-append d p)
      ∙ onto_first-append (c ∷ []) (components d) (components p) (components-ne-nil d))
]

-- For an accepted path, `dir/path` leads below what `dir` leads to, from whatever directory.
pub path_is_safe-IsBelow :
    (root : List Bytes) (dir path : Bytes)
    → path_is_safe (some path) ≡ true
    → IsBelow (resolve root (components dir)) (resolve root (components (dir ++ b'/' ∷ path)))
path_is_safe-IsBelow root dir path h =
    let s = (path_is_safe_iff path).0 h in
    rw (components-append dir path, resolve-append root (components dir) (components path))
      (resolve-IsBelow _ _ (components path) s.no_parent (record { names = []; path_down = refl }))

All-left : {A : Type 0} (P : A → Type 0) (xs ys : List A) → All P (xs ++ ys) → All P xs
All-left P [] ys h = tt
All-left P (x ∷ xs) ys (px, h) = (px, All-left P xs ys h)

-- So does `dir/parent` for a part `parent` of an accepted path in front of one of its slashes: it
-- leads below what `dir` leads to.
pub path_is_safe-parent-IsBelow :
    (root : List Bytes) (dir parent rest : Bytes)
    → path_is_safe (some (parent ++ b'/' ∷ rest)) ≡ true
    → IsBelow (resolve root (components dir)) (resolve root (components (dir ++ b'/' ∷ parent)))
path_is_safe-parent-IsBelow root dir parent rest h =
    let s = (path_is_safe_iff (parent ++ b'/' ∷ rest)).0 h in
    let names =
      All-left IsNotDotdot (components parent) (components rest)
        (subst (All IsNotDotdot) (components-append parent rest) s.no_parent) in
    rw (components-append dir parent, resolve-append root (components dir) (components parent))
      (resolve-IsBelow _ _ (components parent) names (record { names = []; path_down = refl }))
