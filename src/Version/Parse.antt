-- ===== src/Version/Parse.antt =====
-- consumer/src/version.c: `fota_version_parse` against dotted texts.
use fota_secure.Base.{
  ℕ, ◌+◌, ◌-◌, ◌*◌, ◌≤◌, ◌<◌, ◌^◌, ◌≡◌, ◌≢◌, ◌↔◌, refl, sym, ap, ◌∙◌, subst, List, [], ◌∷◌, ◌++◌,
  append-nil, append_assoc, Option, none, some, inl, inr, arith, Bytes, ◌==◌, c_str, Bool-cases,
  Option-cases, ◌>>=◌, length, length-append, All, All-append,
}
use fota_secure.Version.{Version, ok, component_value, close_component, scan, finish, version_parse}
use fota_secure.Version.Dotted.{IsDigit, value, IsComponent, Spells, one, dot}

length-ne-zero : (s : Bytes) → s ≢ [] → length s ≢ 0
length-ne-zero [] h = absurd (h refl)
length-ne-zero (c ∷ s) h = omega arith

le-value : (text : Bytes) (so_far : ℕ) → so_far ≤ value so_far text
le-value [] so_far = omega arith
le-value (digit ∷ text) so_far =
    let more = le-value text (so_far * 10 + (digit - b'0')) in omega arith

component_value_sound :
    (s : Bytes) (n r : ℕ)
    → All IsDigit s
    → n < 2 ^ 32
    → component_value s n ≡ some r
    → (value n s ≡ r) × (r < 2 ^ 32)
unfolding component_value
component_value_sound [] n r d h e = ground arith
component_value_sound (c ∷ s) n r (dc, ds) h e =
    ground (arith, component_value_sound s (n * 10 + (c - b'0')) r ds)

component_value_complete :
    (s : Bytes) (n : ℕ)
    → All IsDigit s
    → value n s < 2 ^ 32
    → component_value s n ≡ some (value n s)
unfolding component_value
component_value_complete [] n d h = refl
component_value_complete (c ∷ s) n (dc, ds) h =
    let m = n * 10 + (c - b'0') in ground (arith, component_value_complete s m ds h, le-value s m)

close_component_sound :
    (text : Bytes) (parts r : List ℕ)
    → All IsDigit text
    → close_component text parts ≡ some r
    → (n : ℕ) × (r ≡ parts ++ n ∷ []) × IsComponent n text
unfolding close_component
close_component_sound text parts r d e = elim (Option-cases (component_value text 0)) [
  | inl q ↦ absurd (ground arith)
  | inr (n, q) ↦
      let (spelled, fits) = component_value_sound text 0 n d (omega arith) q in
      (
        n,
        ground arith,
        record { non_empty = ground arith; digits = d; spelled = spelled; fits = fits },
      )
]

close_component_complete :
    (n : ℕ) (text : Bytes) (parts : List ℕ)
    → IsComponent n text
    → length parts < 4
    → close_component text parts ≡ some (parts ++ n ∷ [])
unfolding close_component
close_component_complete n text parts c h =
    let q : component_value text 0 ≡ some n =
      component_value_complete text 0 c.digits (omega (arith, c.spelled, c.fits))
      ∙ ap some c.spelled in
    let filled = length-ne-zero text c.non_empty in let fits = c.fits in rw q (ground arith)

-- Digits are collected into the current component.
scan-digits :
    (text rest component : Bytes) (parts : List ℕ)
    → All IsDigit text
    → scan (text ++ rest) component parts ≡ scan rest (component ++ text) parts
unfolding scan
scan-digits [] rest component parts d = ap (λ c. scan rest c parts) (sym (append-nil component))
scan-digits (c ∷ text) rest component parts (dc, ds) = ground (
  arith,
  scan-digits text rest (component ++ c ∷ []) parts ds,
  append_assoc component (c ∷ []) text,
)

scan_dot :
    (rest component : Bytes) (parts : List ℕ)
    → scan (b'.' ∷ rest) component parts
      ≡ (close_component component parts >>= λ ps. scan rest [] ps)
unfolding scan
scan_dot rest component parts = refl

scan_complete :
    (ns : List ℕ) (text : Bytes) (parts : List ℕ)
    → Spells ns text
    → length parts + length ns ≤ 4
    → scan text [] parts ≡ some (parts ++ ns)
scan_complete ns text parts (one {n} c) h =
    ap (λ t. scan t [] parts) (sym (append-nil text))
    ∙ scan-digits text [] [] parts c.digits
    ∙ unfold scan in close_component_complete n text parts c (omega arith)
scan_complete ns whole parts (dot {n = n} {ns = ns'} text rest e c more) h =
    let step = close_component_complete n text parts c (omega arith) in
    rw (e, scan-digits text (b'.' ∷ rest) [] parts c.digits, scan_dot, step)
      (scan_complete ns' rest (parts ++ n ∷ []) more (omega (arith, length-append parts (n ∷ [])))
        ∙ ap some (append_assoc parts (n ∷ []) ns'))

-- What was read so far, and what the rest of the text spells.
scan_sound :
    (s component : Bytes) (parts r : List ℕ)
    → All IsDigit component
    → scan s component parts ≡ some r
    → (ns : List ℕ) × (r ≡ parts ++ ns) × Spells ns (component ++ s)
unfolding scan
scan_sound [] component parts r d e =
    let (n, q, c) = close_component_sound component parts r d e in
    (n ∷ [], q, rw append-nil (one c))
scan_sound (c ∷ s) component parts r d e = elim (Bool-cases (c == b'.')) [
  | inl at_dot ↦ elim (Option-cases (close_component component parts)) [
    | inl refused ↦ absurd (ground arith)
    | inr (parts', q) ↦
        let is_dot : c ≡ b'.' = ground arith in
        let (n, p, comp) = close_component_sound component parts parts' d q in
        let (ns, p', more) = scan_sound s [] parts' r tt (ground arith) in
        (
          n ∷ ns,
          p' ∙ ap (λ ps. ps ++ ns) p ∙ append_assoc parts (n ∷ []) ns,
          dot component s (ap (λ x. component ++ x ∷ s) is_dot) comp more,
        )
  ]
  | inr inside ↦
      let digit : IsDigit c = ground arith in
      let (ns, p, more) =
        scan_sound s (component ++ c ∷ []) parts r
          (All-append IsDigit component (c ∷ []) d (digit, tt)) (ground arith) in
      (ns, p, subst (λ t. Spells ns t) (append_assoc component (c ∷ []) s) more)
]

c_str-ne-nil : (d : Bytes) → length (c_str d) ≢ 0 → length d ≢ 0
unfolding c_str
c_str-ne-nil [] h = h
c_str-ne-nil (c ∷ d) h = omega arith

Spells-ne-nil : (ns : List ℕ) (text : Bytes) → Spells ns text → length text ≢ 0
Spells-ne-nil ns text (one c) = length-ne-zero text c.non_empty
Spells-ne-nil ns whole (dot text rest e c more) =
    let filled = length-ne-zero text c.non_empty in
    rw e (omega (arith, length-append text (b'.' ∷ rest)))

finish-eq-ok :
    (o : Option (List ℕ)) (old v : Version)
    → finish o old ≡ (ok, some v)
    → (o ≡ some v.parts) × (length v.parts ≡ 4)
unfolding finish
finish-eq-ok none old v e = ground arith
finish-eq-ok (some ps) old v e = ground arith

-- A buffer is accepted with version `v` exactly if the bytes before its first NUL spell the four
-- parts of `v` in decimal, each of 32 bits, with dots between them.
pub version_parse_iff :
    (d : Bytes) (old v : Version)
    → (version_parse (some d) (some old) ≡ (ok, some v))
      ↔ ((length v.parts ≡ 4) × Spells v.parts (c_str d))
unfolding version_parse
version_parse_iff d old v = (
  λ e.
      let (q, four) = finish-eq-ok (scan (c_str d) [] []) old v (ground arith) in
      let (ns, p, sp) = scan_sound (c_str d) [] [] v.parts tt q in
      (four, subst (λ ps. Spells ps (c_str d)) (sym p) sp),
  λ (four, sp).
      let filled = Spells-ne-nil v.parts (c_str d) sp in
      let filled' = c_str-ne-nil d filled in
      let q = scan_complete v.parts (c_str d) [] sp (omega arith) in rw q (ground arith),
)
