-- ===== src/Tests/Conditions.antt =====
-- Tests that decide conditions on bytes, for the witnesses.
use fota_secure.Base.{
  ◌≡◌, ◌≢◌, Bool, true, [], ◌∷◌, ◌++◌, arith, Bytes, same_bytes, length, All, AreBytes, take, ltb,
  not, ◌==◌, ◌&&◌, same_bytes_complete,
}
use fota_secure.Manifest.Layout.{IsFirst}

unfoldable pub are_below_256 : Bytes → Bool
are_below_256 [] = true
are_below_256 (b ∷ s) = ltb b 256 && are_below_256 s

unfoldable pub have_no_nul : Bytes → Bool
have_no_nul [] = true
have_no_nul (b ∷ s) = not (b == 0) && have_no_nul s

unfoldable pub is_first : Bytes → Bytes → Bytes → Bool
is_first key [] behind = true
is_first key (c ∷ before) behind =
    not (same_bytes (take (length key) (c ∷ (before ++ behind))) key) && is_first key before behind

pub bytes_by : (s : Bytes) → are_below_256 s ≡ true → AreBytes s
unfolding are_below_256
bytes_by [] h = tt
bytes_by (b ∷ s) h = (ground arith, bytes_by s (ground arith))

pub no_nul_by : (s : Bytes) → have_no_nul s ≡ true → All (λ c. c ≢ 0) s
unfolding have_no_nul
no_nul_by [] h = tt
no_nul_by (b ∷ s) h = (ground arith, no_nul_by s (ground arith))

pub is_first_by :
    (key before behind : Bytes) → is_first key before behind ≡ true → IsFirst key before behind
unfolding is_first
is_first_by key [] behind h = tt
is_first_by key (c ∷ before) behind h =
    let complete = same_bytes_complete (take (length key) (c ∷ (before ++ behind))) key in
    (λ e. ground arith, is_first_by key before behind (ground arith))
