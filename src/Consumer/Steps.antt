-- ===== src/Consumer/Steps.antt =====
-- consumer/src/main.c: the early returns, and what is known when none was taken.
use fota_secure.Base.{
  ℕ, ◌+◌, ◌≡◌, inl, inr, refl, sym, ap, ◌∙◌, subst, length-slice, Bool, true, false, ◌++◌, Option,
  none, some, arith, Bytes, ltb, length, take, drop, slice, Bool-cases, slice-append-drop,
  take-append-drop,
}
use fota_secure.Header.{Header, HeaderResult, header_size}
use fota_secure.Version.{Version, ParseResult}
use fota_secure.VersionFile.{ReadResult}
use fota_secure.Consumer.{
  Exit, Step, go, leave, require, some_or, ◌>>=◌, ◌>>◌, header_or_leave, version_or_leave,
  installed_or_leave, Sections, signature_size, split_sections,
}

pub bind-eq-go {ℓ κ} :
    {A : Type ℓ} {B : Type κ} (m : Step A) (f : A → Step B) {b : B}
    → m >>= f ≡ go b
    → (a : A) × (m ≡ go a) × (f a ≡ go b)
bind-eq-go (go a) f h = (a, refl, h)
bind-eq-go (leave e) f h = cc

pub go-injective {ℓ} : {A : Type ℓ} (a b : A) → go a ≡ go b → a ≡ b
go-injective {A} a b = ap content
  where
    content : Step A → A
    content (go x) = x
    content (leave e) = a

pub require-eq-go {ℓ} :
    {B : Type ℓ} (t : Bool) (e : Exit) (k : Step B) {b : B}
    → require t e >> k ≡ go b
    → (t ≡ true) × (k ≡ go b)
require-eq-go true e k h = (refl, h)
require-eq-go false e k h = cc

pub some_or-eq-go {ℓ} :
    {A : Type ℓ} (e : Exit) (o : Option A) {a : A} → some_or e o ≡ go a → o ≡ some a
some_or-eq-go e none h = cc
some_or-eq-go e (some a) h = cc

pub header_or_leave-eq-go :
    (r : HeaderResult × Option Header) (h : Header)
    → header_or_leave r ≡ go h
    → r ≡ (HeaderResult.ok, some h)
header_or_leave-eq-go r h e = ground arith

pub version_or_leave-eq-go :
    (r : ParseResult × Option Version) (v : Version)
    → version_or_leave r ≡ go v
    → r ≡ (ParseResult.ok, some v)
version_or_leave-eq-go r v e = ground arith

pub installed_or_leave-eq-go :
    (r : ReadResult × Version) (v : Version) → installed_or_leave r ≡ go v → r ≡ (ReadResult.ok, v)
installed_or_leave-eq-go r v e = ground arith

-- The sections are a cut of the package.
sections_at : Bytes → ℕ → Sections
sections_at d n = record {
  wrapped_key = slice d header_size n;
  signature = slice d (header_size + n) signature_size;
  ciphertext = drop (header_size + n + signature_size) d;
}

sections_at-cut :
    (d : Bytes) (n : ℕ)
    → d
      ≡ take header_size d
        ++ ((sections_at d n).wrapped_key
            ++ ((sections_at d n).signature ++ (sections_at d n).ciphertext))
unfolding sections_at
sections_at-cut d n = sym (
    ap (λ t. take 51 d ++ (slice d 51 n ++ t))
      (slice-append-drop d (51 + n) 256 (51 + n + 256) refl)
    ∙ (ap (λ t. take 51 d ++ t) (slice-append-drop d 51 n (51 + n) refl) ∙ take-append-drop 51 d))

pub split_sections-eq-go :
    (d : Bytes) (n : ℕ) (parts : Sections)
    → split_sections d n ≡ go parts
    → (d ≡ take header_size d ++ (parts.wrapped_key ++ (parts.signature ++ parts.ciphertext)))
      × (length parts.signature ≡ 256)
unfolding split_sections sections_at
split_sections-eq-go d n parts e =
    elim (Bool-cases (ltb (length d) (header_size + n + signature_size))) [
      | inl short ↦ absurd (ground arith)
      | inr long ↦
          let same : sections_at d n ≡ parts = ground arith in
          subst
            (λ (p : Sections).
              (d ≡ take header_size d ++ (p.wrapped_key ++ (p.signature ++ p.ciphertext)))
              × (length p.signature ≡ 256))
            same
            (sections_at-cut d n, length-slice d (header_size + n) signature_size (ground arith))
    ]
