-- ===== src/Consumer/Arguments.antt =====
-- consumer/src/main.c: the secret among the arguments behind the package.
use fota_secure.Base.{
  ◌≡◌, ◌≢◌, ◌↔◌, inl, inr, refl, sym, ap, ◌∙◌, subst, ◌⊎◌, false, List, [], ◌∷◌, Option, none, some,
  Bytes, codes, same_bytes, same_bytes_sound, same_bytes_self, Bool-cases,
}
use fota_secure.Consumer.{parse_secret}

abbrev pub secret_flag : Bytes
secret_flag = codes "--downgrade-secret"

-- The secrets that the arguments give, from left to right: the flag takes the argument behind it,
-- whatever that is, and means nothing as the last argument; any other argument is passed over.
pub data Gives : List Bytes → List Bytes → Type 0 where
  finished : Gives [] []
  alone : Gives (secret_flag ∷ []) []
  given :
      (value : Bytes) {args values : List Bytes}
      → Gives args values
      → Gives (secret_flag ∷ value ∷ args) (value ∷ values)
  passed :
      (arg : Bytes) {args values : List Bytes}
      → arg ≢ secret_flag
      → Gives args values
      → Gives (arg ∷ args) values

abbrev pub last_of : List Bytes → Option Bytes
last_of [] = none
last_of (x ∷ []) = some x
last_of (x ∷ y ∷ ys) = last_of (y ∷ ys)

abbrev last_or : List Bytes → Option Bytes → Option Bytes
last_or [] secret = secret
last_or (x ∷ xs) secret = last_or xs (some x)

last_or-last_of : (x : Bytes) (xs : List Bytes) → last_or xs (some x) ≡ last_of (x ∷ xs)
last_or-last_of x [] = refl
last_or-last_of x (y ∷ ys) = last_or-last_of y ys

last_or-none : (xs : List Bytes) → last_or xs none ≡ last_of xs
last_or-none [] = refl
last_or-none (x ∷ xs) = last_or-last_of x xs

no_flag : (arg : Bytes) → same_bytes arg secret_flag ≡ false → arg ≢ secret_flag
no_flag arg other same = cc (same_bytes_self secret_flag, ap (λ a. same_bytes a secret_flag) same)

flag_or_not : (arg : Bytes) → (secret_flag ≡ arg) ⊎ (arg ≢ secret_flag)
flag_or_not arg = elim (Bool-cases (same_bytes arg secret_flag)) [
  | inl same ↦ inl (sym (same_bytes_sound arg secret_flag same))
  | inr other ↦ inr (no_flag arg other)
]

-- All arguments give some secrets.
Gives-values : (args : List Bytes) → (values : List Bytes) × Gives args values
Gives-values [] = ([], finished)
Gives-values (arg ∷ []) = elim (flag_or_not arg) [
  | inl flag ↦ ([], subst (λ a. Gives (a ∷ []) []) flag alone)
  | inr other ↦ ([], passed arg other finished)
]
Gives-values (arg ∷ value ∷ rest) =
    let (taken, g) = Gives-values rest in
    let (values, h) = Gives-values (value ∷ rest) in
    elim (flag_or_not arg) [
      | inl flag ↦ (
        value ∷ taken,
        subst (λ a. Gives (a ∷ value ∷ rest) (value ∷ taken)) flag (given value g),
      )
      | inr other ↦ (values, passed arg other h)
    ]

parse_secret-passed :
    (arg : Bytes) (args : List Bytes) (secret : Option Bytes)
    → arg ≢ secret_flag
    → parse_secret (arg ∷ args) secret ≡ parse_secret args secret
unfolding parse_secret
parse_secret-passed arg [] secret other = refl
parse_secret-passed arg (value ∷ rest) secret other =
    elim (Bool-cases (same_bytes arg secret_flag)) [
      | inl same ↦ absurd (other (same_bytes_sound arg secret_flag same))
      | inr differs ↦ rw differs refl
    ]

parse_secret-given :
    (value : Bytes) (rest : List Bytes) (secret : Option Bytes)
    → parse_secret (secret_flag ∷ value ∷ rest) secret ≡ parse_secret rest (some value)
unfolding parse_secret
parse_secret-given value rest secret = rw (same_bytes_self secret_flag) refl

parse_secret-Gives :
    {args values : List Bytes}
    → Gives args values
    → (secret : Option Bytes) → parse_secret args secret ≡ last_or values secret
unfolding parse_secret
parse_secret-Gives finished secret = refl
parse_secret-Gives alone secret = refl
parse_secret-Gives (given value {args} g) secret =
    parse_secret-given value args secret ∙ parse_secret-Gives g (some value)
parse_secret-Gives (passed arg {args} other g) secret =
    parse_secret-passed arg args secret other ∙ parse_secret-Gives g secret

parse_secret-last_of :
    {args values : List Bytes} → Gives args values → parse_secret args none ≡ last_of values
parse_secret-last_of {args} {values} g = parse_secret-Gives g none ∙ last_or-none values

-- The secret of a run is the last one that the arguments behind the package give, and there is none
-- exactly if they give none.
pub parse_secret_iff :
    (args : List Bytes) (secret : Option Bytes)
    → (parse_secret args none ≡ secret)
      ↔ ((values : List Bytes) × Gives args values × (last_of values ≡ secret))
parse_secret_iff args secret =
    let (values, g) = Gives-values args in
    (
      (λ e. (values, g, sym (parse_secret-last_of g) ∙ e)),
      (λ (vs, h, e). parse_secret-last_of h ∙ e),
    )
