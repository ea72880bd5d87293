-- ===== src/Install.antt =====
-- consumer/src/installer.h: what the installer's functions return.
use fota_secure.Base.{Option, none, some, Bool, true, false, ◌≡◌, refl, ap, ◌⊎◌, inl, inr}

-- `fota_install_result_t` but for OK.
pub data InstallError : Type 0 where
  invalid_arg decompress_failed decompressed_too_large malformed_tar unsafe_path : InstallError
  unsupported_entry manifest_missing manifest_parse manifest_mismatch io : InstallError

-- FOTA_INSTALL_OK with what was handed back, or an error.
pub data Result {ℓ} (A : Type ℓ) : Type ℓ where
  ok : A → Result A
  err : InstallError → Result A

infixl 5 ◌>>=◌ ◌>>◌
abbrev pub ◌>>=◌ {ℓ κ} : {X : Type ℓ} {Y : Type κ} → Result X → (X → Result Y) → Result Y
err why >>= next = err why
ok x >>= next = next x

abbrev pub ◌>>◌ {ℓ} : {Y : Type ℓ} → Result (Unit {0}) → Result Y → Result Y
first >> second = first >>= λ done. second

-- `if (!test) return e;`
abbrev pub require : Bool → InstallError → Result (Unit {0})
require true e = ok tt
require false e = err e

pub bind-eq-ok {ℓ κ} :
    {X : Type ℓ} {Y : Type κ} (step : Result X) (next : X → Result Y) {y : Y}
    → step >>= next ≡ ok y
    → (x : X) × (step ≡ ok x) × (next x ≡ ok y)
bind-eq-ok (err why) next went_well = cc
bind-eq-ok (ok x) next went_well = (x, refl, went_well)

pub require-eq-ok {ℓ} :
    {B : Type ℓ} (t : Bool) (e : InstallError) (k : Result B) {b : B}
    → require t e >> k ≡ ok b
    → (t ≡ true) × (k ≡ ok b)
require-eq-ok true e k h = (refl, h)
require-eq-ok false e k h = cc

pub Result-cases {ℓ} :
    {A : Type ℓ} (r : Result A) → ((a : A) × (r ≡ ok a)) ⊎ ((e : InstallError) × (r ≡ err e))
Result-cases (ok a) = inl (a, refl)
Result-cases (err e) = inr (e, refl)

pub ok-injective {ℓ} : {A : Type ℓ} (a b : A) → ok a ≡ ok b → a ≡ b
ok-injective {A} a b = ap content
  where
    content : Result A → A
    content (ok x) = x
    content (err e) = a

-- What may be said of a loop on fuel that ended: the fuel sufficed, and a success satisfies `P`.
abbrev pub Returns : {A : Type 0} → (A → Type 0) → Option (Result A) → Type 0
Returns P none = ⊥
Returns P (some (ok a)) = P a
Returns P (some (err e)) = Unit

pub Returns-weaken :
    {A : Type 0} {P Q : A → Type 0} (o : Option (Result A))
    → ((a : A) → P a → Q a)
    → Returns P o
    → Returns Q o
Returns-weaken none h r = r
Returns-weaken (some (ok a)) h r = h a r
Returns-weaken (some (err e)) h r = tt
