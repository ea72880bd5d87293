-- ===== src/Version/Dotted.antt =====
-- Dotted decimal text, as docs/FORMAT_SPEC.md describes versions, with no reference to the parser.
use mathlib.Core.List.{foldl}
use fota_secure.Base.{ℕ, ◌+◌, ◌-◌, ◌*◌, ◌≤◌, ◌<◌, ◌^◌, ◌≡◌, ◌≢◌, List, [], ◌∷◌, ◌++◌, Bytes, All}

abbrev pub IsDigit : ℕ → Type 0
IsDigit digit = (b'0' ≤ digit) × (digit ≤ b'9')

-- The number that decimal digits spell behind `n`.
abbrev pub value : ℕ → Bytes → ℕ
value = foldl (λ so_far digit. so_far * 10 + (digit - b'0'))

-- One or more digits that spell a number of 32 bits.
pub record IsComponent (n : ℕ) (text : Bytes) : Type 0 where
  pub non_empty : text ≢ []
  pub digits : All IsDigit text
  pub spelled : value 0 text ≡ n
  pub fits : n < 2 ^ 32

-- Components with dots between them.
pub data Spells : List ℕ → Bytes → Type 0 where
  one : {n : ℕ} {text : Bytes} → IsComponent n text → Spells (n ∷ []) text
  dot :
      {n : ℕ} {ns : List ℕ} {whole : Bytes} (text rest : Bytes)
      → whole ≡ text ++ b'.' ∷ rest
      → IsComponent n text
      → Spells ns rest
      → Spells (n ∷ ns) whole
