-- ===== src/Tar/Layout.antt =====
-- The ustar layout of an archive, as POSIX gives it and tarball.py writes it, with no reference to
-- the parser.
use fota_secure.Base.{
  ℕ, zero, suc, ◌+◌, ◌-◌, ◌*◌, ◌/◌, ◌%◌, ◌^◌, ◌≤◌, ◌<◌, ◌≡◌, ◌≢◌, ◌⊎◌, true, some, List, [], ◌∷◌,
  ◌++◌, Bytes, length, replicate, All, AreBytes,
}
use fota_secure.Tar.{EntryType, file, directory, TarEntry}
use fota_secure.TarPath.{path_is_safe}

-- A member of an archive. `ids` are the mode, the user and the group, and `names` all that stands
-- between the type flag and the prefix.
pub record Member : Type 0 where
  pub path : Bytes
  pub ids : Bytes
  pub mtime : Bytes
  pub kind : EntryType
  pub typeflag : ℕ
  pub names : Bytes
  pub content : Bytes

abbrev pub zeros : ℕ → Bytes
zeros n = replicate n 0

-- A number in so many octal digits.
abbrev pub octal : ℕ → ℕ → Bytes
octal zero n = []
octal (suc k) n = octal k (n / 8) ++ (b'0' + n % 8) ∷ []

abbrev pub byte_sum : Bytes → ℕ
byte_sum [] = 0
byte_sum (b ∷ s) = b + byte_sum s

-- The header up to the checksum, and behind it.
unfoldable pub front : Member → Bytes
front m =
    m.path
    ++ (zeros (100 - length m.path)
        ++ (m.ids ++ ((octal 11 (length m.content) ++ 0 ∷ []) ++ m.mtime)))

unfoldable pub back : Member → Bytes
back m = m.typeflag ∷ (m.names ++ (zeros 155 ++ zeros 12))

unfoldable pub checksum : Member → ℕ
checksum m = byte_sum (front m) + 8 * b' ' + byte_sum (back m)

unfoldable pub header : Member → Bytes
header m = front m ++ ((octal 6 (checksum m) ++ 0 ∷ b' ' ∷ []) ++ back m)

-- What fills the last block.
abbrev pub padding : ℕ → ℕ
padding n = (n + 511) / 512 * 512 - n

unfoldable pub member_blocks : Member → Bytes
member_blocks m = header m ++ (m.content ++ zeros (padding (length m.content)))

-- The members, then a block of zeros, then anything.
unfoldable pub archive : List Member → Bytes → Bytes
archive [] rest = zeros 512 ++ rest
archive (m ∷ ms) rest = member_blocks m ++ archive ms rest

abbrev pub IsFlag : EntryType → ℕ → Type 0
IsFlag file t = (t ≡ b'0') ⊎ (t ≡ 0)
IsFlag directory t = t ≡ b'5'

-- The field sizes, and what the consumer asks of a path.
pub record IsMember (m : Member) : Type 0 where
  pub safe : path_is_safe (some m.path) ≡ true
  pub short : length m.path ≤ 100
  pub no_nul : All (λ c. c ≢ 0) m.path
  pub path_bytes : AreBytes m.path
  pub ids_size : length m.ids ≡ 24
  pub ids_bytes : AreBytes m.ids
  pub mtime_size : length m.mtime ≡ 12
  pub mtime_bytes : AreBytes m.mtime
  pub names_size : length m.names ≡ 188
  pub names_bytes : AreBytes m.names
  pub flag : IsFlag m.kind m.typeflag
  pub fits : length m.content < 8 ^ 11
  pub bare : m.kind ≡ directory → m.content ≡ []

abbrev pub entry_of : Member → TarEntry
entry_of m = record { path = m.path; kind = m.kind; content = m.content }
