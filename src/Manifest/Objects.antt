-- ===== src/Manifest/Objects.antt =====
-- consumer/src/installer.c: the search for a key, and the rounds of the loop over the fields of an
-- object.
use fota_secure.Base.{
  ℕ, suc, ◌≤◌, ◌<◌, ◌≡◌, inl, inr, refl, [], ◌∷◌, ◌++◌, Option, some, arith, Bytes, same_bytes,
  same_bytes_self, same_bytes_sound, length, length-append, take, take-length, drop-length,
  Bool-cases,
}
use fota_secure.Manifest.{
  find_key, close, comma, set_path, set_sha256, field_step, finish_object, object_loop,
}
use fota_secure.Manifest.Layout.{IsFirst}

-- The search stops at the key's first place.
pub find_key-first :
    (key before behind : Bytes)
    → IsFirst key before (key ++ behind)
    → 0 < length key
    → find_key key (before ++ (key ++ behind)) ≡ some behind
unfolding find_key
find_key-first [] before behind h p = absurd (omega arith)
find_key-first (k ∷ key) [] behind h p =
    rw
      (
        take-length (length key) key behind refl,
        drop-length (length key) key behind refl,
        same_bytes_self (k ∷ key),
      )
      (ground (arith, length-append key behind))
find_key-first (k ∷ key) (c ∷ before) behind (other, h) p =
    elim (Bool-cases
      (same_bytes (take (suc (length key)) (c ∷ (before ++ k ∷ (key ++ behind)))) (k ∷ key))) [
        | inl same ↦ absurd (other (same_bytes_sound _ (k ∷ key) same))
        | inr differs ↦ rw differs (ground (arith, find_key-first (k ∷ key) before behind h p))
      ]

pub le-append : (xs ys : Bytes) {n : ℕ} → n ≤ length ys → n ≤ length (xs ++ ys)
le-append xs ys h = omega (arith, length-append xs ys)

pub le-cons : (c : ℕ) (ys : Bytes) {n : ℕ} → n ≤ length ys → n ≤ length (c ∷ ys)
le-cons c ys h = omega arith

-- One round for each token of an object.
pub object_step-comma :
    (fuel : ℕ) (s rest : Bytes) (path sha256 : Option Bytes)
    → field_step s ≡ comma rest
    → object_loop (suc fuel) s path sha256 ≡ object_loop fuel rest path sha256
unfolding object_loop
object_step-comma fuel s rest path sha256 e = rw (e, object_loop)

pub object_step-path :
    (fuel : ℕ) (s p rest : Bytes) (path sha256 : Option Bytes)
    → field_step s ≡ set_path p rest
    → object_loop (suc fuel) s path sha256 ≡ object_loop fuel rest (some p) sha256
unfolding object_loop
object_step-path fuel s p rest path sha256 e = rw (e, object_loop)

pub object_step-sha256 :
    (fuel : ℕ) (s h rest : Bytes) (path sha256 : Option Bytes)
    → field_step s ≡ set_sha256 h rest
    → object_loop (suc fuel) s path sha256 ≡ object_loop fuel rest path (some h)
unfolding object_loop
object_step-sha256 fuel s h rest path sha256 e = rw (e, object_loop)

pub object_step-close :
    (fuel : ℕ) (s rest : Bytes) (path sha256 : Option Bytes)
    → field_step s ≡ close rest
    → object_loop (suc fuel) s path sha256 ≡ some (finish_object path sha256 rest)
unfolding object_loop
object_step-close fuel s rest path sha256 e = rw (e, object_loop)
