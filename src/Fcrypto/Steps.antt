-- ===== src/Fcrypto/Steps.antt =====
-- consumer/src/fcrypto.c: a chain of calls that each return 1.
use fota_secure.Base.{◌≡◌, refl, true, Option, none, some, ℤ, is_one, Bool-cases, ◌>>=◌, inl, inr}
use fota_secure.Fcrypto.{ok, CryptoError, succeeds, or_fail}

pub bind-eq-some {ℓ κ} :
    {A : Type ℓ} {B : Type κ} (o : Option A) (f : A → Option B) {b : B}
    → o >>= f ≡ some b
    → (a : A) × (o ≡ some a) × (f a ≡ some b)
bind-eq-some none f h = cc
bind-eq-some (some a) f h = (a, refl, h)

pub succeeds-bind :
    {A B : Type 0} (rc : ℤ) (a : A) (f : A → Option B) {b : B}
    → succeeds rc a >>= f ≡ some b
    → (is_one rc ≡ true) × (f a ≡ some b)
succeeds-bind rc a f h = elim (Bool-cases (is_one rc)) [
  | inl one ↦ (one, rw one at h)
  | inr other ↦ cc (rw other at h)
]

pub succeeds-eq-some :
    {A : Type 0} (rc : ℤ) (a : A) {b : A} → succeeds rc a ≡ some b → (is_one rc ≡ true) × (a ≡ b)
succeeds-eq-some rc a h = elim (Bool-cases (is_one rc)) [
  | inl one ↦ (one, cc (rw one at h))
  | inr other ↦ cc (rw other at h)
]

pub or_fail-eq-ok :
    {A : Type 0} (e : CryptoError) (o : Option A) {a : A} → or_fail e o ≡ ok a → o ≡ some a
or_fail-eq-ok e none h = cc
or_fail-eq-ok e (some a) h = cc
