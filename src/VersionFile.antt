-- ===== src/VersionFile.antt =====
-- consumer/src/version.c: the file of the installed version, and the stored secret hash.
pub mod Decimal
pub mod Contents
pub mod RoundTrip
pub mod Trim
pub mod Reads
use fota_secure.Base.{
  ℕ, zero, suc, ◌+◌, ◌/◌, ◌%◌, Bool, true, false, not, ◌&&◌, ◌||◌, [], ◌∷◌, ◌++◌, Option, none,
  some, Bytes, ltb, leb, ◌==◌, if◌then◌else◌, length, get_or, take, drop, ℤ, pos, negsuc,
}
use fota_secure.Device.{Device}
use fota_secure.Version.{Version, ParseResult, version_parse, secret_hash_size}

abbrev pub read_buf_size : ℕ
read_buf_size = 64

pub data ReadResult : Type 0 where
  ok err_malformed_contents : ReadResult

-- 0.0.0.0, what `memset` leaves in `*out`.
abbrev pub no_version : Version
no_version = record { parts = 0 ∷ 0 ∷ 0 ∷ 0 ∷ [] }

abbrev pub is_trailing : ℕ → Bool
is_trailing c = c == b'\n' || c == b'\r' || c == b' ' || c == b'\t'

-- The loop that lowers `n` past trailing white space.
unfoldable pub trim : ℕ → Bytes → ℕ
trim zero buf = zero
trim (suc n) buf = let rest = trim n buf in if is_trailing (get_or buf n 0) then rest else suc n

unfoldable pub read_parsed : ParseResult × Option Version → ReadResult × Version
read_parsed (ParseResult.ok, some v) = (ok, v)
read_parsed _ = (err_malformed_contents, no_version)

-- What is done with the bytes of the file: at most 64 are kept, and one more is asked for.
unfoldable pub read_content : Bytes → ReadResult × Version
unfolding trim read_parsed
read_content content =
    let buf = take read_buf_size content in
    let n = trim (length buf) buf in
    if length buf == read_buf_size && ltb read_buf_size (length content)
    then (err_malformed_contents, no_version)
    else if n == 0
    then (ok, no_version)
    else read_parsed (version_parse (some (take n buf)) (some no_version))

-- `%u`: the digits of `n`, in front of `out`. Each round divides by ten.
unfoldable pub digits : ℕ → ℕ → Bytes → Bytes
digits zero n out = out
digits (suc fuel) n out =
    let more = digits fuel (n / 10) ((b'0' + n % 10) ∷ out) in
    if n / 10 == 0 then (b'0' + n % 10) ∷ out else more

unfoldable pub decimal : ℕ → Bytes
unfolding digits
decimal n = digits (suc n) n []

-- The text that `snprintf` makes of "%u.%u.%u.%u\n".
unfoldable pub render : Version → Bytes
render v =
    decimal (get_or v.parts 0 0)
    ++ (b'.'
        ∷ (decimal (get_or v.parts 1 0)
            ++ (b'.'
                ∷ (decimal (get_or v.parts 2 0)
                    ++ (b'.' ∷ (decimal (get_or v.parts 3 0) ++ (b'\n' ∷ [])))))))

module _ (D : Device) where
  -- `fota_version_read_installed`: the result, and what `*out` holds afterwards.
  unfoldable pub version_read_installed : Option Bytes → D.State → ReadResult × Version
  unfolding read_content
  version_read_installed none s = (ok, no_version)
  version_read_installed (some path) s = elim (D.read_file path s) [
    | none ↦ (ok, no_version)
    | some content ↦ read_content content
  ]

  -- The steps from `fopen` on: what was written counts as kept only if `fclose` agrees.
  unfoldable pub write_text : Bytes → Bytes → D.State → ℤ × D.State
  write_text path text s =
      let (opened, s₁) = D.open_write path s in
      let (count, s₂) = D.write path text s₁ in
      let (closed, s₃) = D.close path s₂ in
      if not opened
      then (negsuc 0, s₁)
      else if not (count == length text) || not closed
      then (negsuc 0, s₃)
      else (pos 0, s₃)

  -- `fota_version_write_installed`
  unfoldable pub version_write_installed : Option Bytes → Option Version → D.State → ℤ × D.State
  version_write_installed none version s = (negsuc 0, s)
  version_write_installed (some path) none s = (negsuc 0, s)
  version_write_installed (some path) (some v) s =
      if leb 64 (length (render v)) then (negsuc 0, s) else write_text path (render v) s

  -- `fota_version_read_downgrade_secret_hash`, on a path and a buffer that are not NULL: the hash,
  -- or `none` for ERR_UNAVAILABLE. The 33rd byte is asked for, to see that there is none.
  unfoldable pub read_downgrade_secret_hash : Bytes → D.State → Option Bytes
  read_downgrade_secret_hash path s = elim (D.read_file path s) [
    | none ↦ none
    | some content ↦
        if not (length (take secret_hash_size content) == secret_hash_size)
          || not (length (take 1 (drop secret_hash_size content)) == 0)
        then none
        else some (take secret_hash_size content)
  ]
