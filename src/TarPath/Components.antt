-- ===== src/TarPath/Components.antt =====
-- consumer/src/installer.c: `fota_tar_path_is_safe` against the components of a path.
use fota_secure.Base.{
  ℕ, not, ◌≡◌, ◌≢◌, ◌↔◌, refl, sym, ap, ◌∙◌, true, false, List, [], ◌∷◌, ◌++◌, append_assoc,
  append-nil, some, inl, inr, arith, Bytes, codes, ◌==◌, if◌then◌else◌, All, Bool-cases,
}
use fota_secure.TarPath.{is_dotdot, no_dotdot, path_is_safe}

-- The components of a path, empty ones too. Prepending a byte extends the first one.
abbrev pub onto_first : Bytes → List Bytes → List Bytes
onto_first component [] = component ∷ []
onto_first component (p ∷ ps) = (component ++ p) ∷ ps

abbrev pub components : Bytes → List Bytes
components [] = [] ∷ []
components (c ∷ s) = if c == b'/' then [] ∷ components s else onto_first (c ∷ []) (components s)

abbrev pub IsNotDotdot : Bytes → Type 0
IsNotDotdot p = p ≢ codes ".."

-- Relative, not empty, and without "..".
pub record IsSafe (path : Bytes) : Type 0 where
  pub non_empty : path ≢ []
  pub relative : (rest : Bytes) → path ≢ b'/' ∷ rest
  pub no_parent : All IsNotDotdot (components path)

is_dotdot_iff : (p : Bytes) → (is_dotdot p ≡ true) ↔ (p ≡ codes "..")
unfolding is_dotdot
is_dotdot_iff [] = (λ e. cc, λ e. cc)
is_dotdot_iff (a ∷ []) = (λ e. cc, λ e. cc)
is_dotdot_iff (a ∷ b ∷ []) = (ground arith, ground arith)
is_dotdot_iff (a ∷ b ∷ c ∷ s) = (λ e. absurd (ground arith), λ e. cc)

onto_first_assoc :
    (p q : Bytes) (ps : List Bytes) → onto_first p (onto_first q ps) ≡ onto_first (p ++ q) ps
onto_first_assoc p q [] = refl
onto_first_assoc p q (r ∷ ps) = ap (λ t. t ∷ ps) (sym (append_assoc p q r))

onto_first-nil-components : (s : Bytes) → onto_first [] (components s) ≡ components s
onto_first-nil-components [] = refl
onto_first-nil-components (c ∷ s) = elim (Bool-cases (c == b'/')) [
  | inl at_slash ↦ rw at_slash
  | inr inside ↦ rw (inside, onto_first_assoc [] (c ∷ []) (components s))
]

no_dotdot_slash :
    (c : ℕ) (s component : Bytes)
    → (c == b'/') ≡ true
    → no_dotdot (c ∷ s) component ≡ (if is_dotdot component then false else no_dotdot s [])
unfolding no_dotdot
no_dotdot_slash c s component h = rw (h, no_dotdot)

no_dotdot_inside :
    (c : ℕ) (s component : Bytes)
    → (c == b'/') ≡ false
    → no_dotdot (c ∷ s) component ≡ no_dotdot s (component ++ c ∷ [])
unfolding no_dotdot
no_dotdot_inside c s component h = rw (h, no_dotdot)

last_component_iff :
    (component : Bytes) → (not (is_dotdot component) ≡ true) ↔ IsNotDotdot (component ++ [])
last_component_iff component =
    let dots = is_dotdot_iff component in
    rw append-nil (
      λ e p. absurd (ground (arith, dots.1 p)),
      λ h. elim (Bool-cases (is_dotdot component)) [
        | inl found ↦ absurd (h (dots.0 found))
        | inr fine ↦ rw fine
      ],
    )

no_dotdot_iff :
    (s component : Bytes)
    → (no_dotdot s component ≡ true) ↔ All IsNotDotdot (onto_first component (components s))
no_dotdot_iff [] component =
    let last = last_component_iff component in
    unfold no_dotdot in (λ e. (last.0 e, tt), λ h. last.1 h.0)
no_dotdot_iff (c ∷ s) component = elim (Bool-cases (c == b'/')) [
  | inl at_slash ↦
      rw (at_slash, no_dotdot_slash c s component at_slash)
        (let last = last_component_iff component in
          let rest : (no_dotdot s [] ≡ true) ↔ All IsNotDotdot (components s) =
            rw (onto_first-nil-components s) at (no_dotdot_iff s []) in
          (
            λ e. (last.0 (ground arith), rest.0 (ground arith)),
            λ h. ground (arith, last.1 h.0, rest.1 h.1),
          ))
  | inr inside ↦
      rw
        (
          inside,
          no_dotdot_inside c s component inside,
          onto_first_assoc component (c ∷ []) (components s),
        )
        (no_dotdot_iff s (component ++ c ∷ []))
]

path_is_safe-relative :
    (c : ℕ) (s : Bytes) → (c == b'/') ≡ false → path_is_safe (some (c ∷ s)) ≡ no_dotdot (c ∷ s) []
unfolding path_is_safe
path_is_safe-relative c s h = ground arith

path_is_safe-absolute :
    (c : ℕ) (s : Bytes) → (c == b'/') ≡ true → path_is_safe (some (c ∷ s)) ≡ false
unfolding path_is_safe
path_is_safe-absolute c s h = ground arith

path_is_safe-nil : path_is_safe (some []) ≡ false
unfolding path_is_safe
path_is_safe-nil = refl

-- A path is accepted exactly if it is not empty, does not begin with a slash, and none of the
-- components between its slashes is "..".
pub path_is_safe_iff : (path : Bytes) → (path_is_safe (some path) ≡ true) ↔ IsSafe path
path_is_safe_iff [] = (λ e. cc path_is_safe-nil, λ s. absurd (s.non_empty refl))
path_is_safe_iff (c ∷ path) = elim (Bool-cases (c == b'/')) [
  | inl at_slash ↦
      let refused = path_is_safe-absolute c path at_slash in
      let is_slash : c ≡ b'/' = ground arith in
      (λ e. cc, λ s. absurd (s.relative path (ap (λ x. x ∷ path) is_slash)))
  | inr inside ↦
      let step = path_is_safe-relative c path inside in
      let all = no_dotdot_iff (c ∷ path) [] in
      let onto = onto_first-nil-components (c ∷ path) in
      let all' : (no_dotdot (c ∷ path) [] ≡ true) ↔ All IsNotDotdot (components (c ∷ path)) =
        rw onto at all in
      (
        λ e. record {
          non_empty = cc;
          relative = λ rest p. ground arith;
          no_parent = all'.0 (sym step ∙ e);
        },
        λ s. step ∙ all'.1 s.no_parent,
      )
]
