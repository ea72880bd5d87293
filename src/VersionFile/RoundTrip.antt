-- ===== src/VersionFile/RoundTrip.antt =====
-- consumer/src/version.c: writing and reading the version file.
use fota_secure.Base.{
  ℕ, suc, ◌^◌, ◌≤◌, ◌<◌, ◌≡◌, ◌≢◌, refl, sym, ap, ◌∙◌, false, List, [], ◌∷◌, ◌++◌, append-nil,
  append_assoc, some, arith, Bytes, length, length-append, take-length, take, take_all, get_or, All,
  pos, c_str,
}
use fota_secure.Device.{Device, ReadsBack}
use fota_secure.Version.{Version, ParseResult, version_parse}
use fota_secure.Version.Dotted.{IsDigit, Spells, one, dot}
use fota_secure.Version.Parse.{version_parse_iff}
use fota_secure.VersionFile.{
  ok, no_version, is_trailing, trim, read_content, decimal, render, version_read_installed,
  write_text, version_write_installed,
}
use fota_secure.VersionFile.Decimal.{decimal-IsComponent, length-decimal}

-- Four parts of 32 bits.
pub record IsVersion (v : Version) : Type 0 where
  pub four : length v.parts ≡ 4
  pub words : All (λ p. p < 2 ^ 32) v.parts

-- A version by its parts.
abbrev pub version_of : ℕ → ℕ → ℕ → ℕ → Version
version_of a b c d = record { parts = a ∷ b ∷ c ∷ d ∷ [] }

module _ (a b c d : ℕ) (fa : a < 2 ^ 32) (fb : b < 2 ^ 32) (fc : c < 2 ^ 32) (fd : d < 2 ^ 32) where
  -- The text without its newline.
  abbrev line : Bytes
  line = decimal a ++ (b'.' ∷ (decimal b ++ (b'.' ∷ (decimal c ++ (b'.' ∷ decimal d)))))

  Spells-line : Spells (a ∷ b ∷ c ∷ d ∷ []) line
  Spells-line = dot (decimal a) _ refl (decimal-IsComponent a fa) (
      dot (decimal b) _ refl (decimal-IsComponent b fb)
        (dot (decimal c) _ refl (decimal-IsComponent c fc) (one (decimal-IsComponent d fd))))

  render-line : render (version_of a b c d) ≡ line ++ b'\n' ∷ []
  unfolding render
  render-line = simp append_assoc

  length-line : length line ≤ 43
  length-line = omega (
    arith,
    length-append (decimal a) (b'.' ∷ (decimal b ++ (b'.' ∷ (decimal c ++ (b'.' ∷ decimal d))))),
    length-append (decimal b) (b'.' ∷ (decimal c ++ (b'.' ∷ decimal d))),
    length-append (decimal c) (b'.' ∷ decimal d),
    length-decimal a fa,
    length-decimal b fb,
    length-decimal c fc,
    length-decimal d fd,
  )

-- White space at the end goes, up to a byte that is none.
get_or-append : (xs ys : Bytes) (y d : ℕ) → get_or (xs ++ y ∷ ys) (length xs) d ≡ y
get_or-append [] ys y d = refl
get_or-append (x ∷ xs) ys y d = get_or-append xs ys y d

pub trim_stops :
    (xs ys : Bytes) (y : ℕ)
    → is_trailing y ≡ false
    → trim (suc (length xs)) (xs ++ y ∷ ys) ≡ suc (length xs)
unfolding trim
trim_stops xs ys y h = rw (get_or-append xs ys y 0, h)

-- A non-empty list has a last element.
pub record LastIn (P : ℕ → Type 0) (xs : Bytes) : Type 0 where
  pub before : Bytes
  pub last : ℕ
  pub split : xs ≡ before ++ last ∷ []
  pub holds : P last

LastIn-cons : (P : ℕ → Type 0) (x : ℕ) (xs : Bytes) → LastIn P xs → LastIn P (x ∷ xs)
LastIn-cons P x xs l = record {
  before = x ∷ l.before;
  last = l.last;
  split = ap (λ t. x ∷ t) l.split;
  holds = l.holds;
}

LastIn-append : (P : ℕ → Type 0) (xs ys : Bytes) → LastIn P ys → LastIn P (xs ++ ys)
LastIn-append P [] ys l = l
LastIn-append P (x ∷ xs) ys l = LastIn-cons P x (xs ++ ys) (LastIn-append P xs ys l)

LastIn-All : (P : ℕ → Type 0) (xs : Bytes) → xs ≢ [] → All P xs → LastIn P xs
LastIn-All P [] h a = absurd (h refl)
LastIn-All P (x ∷ []) h (px, a) = record { before = []; last = x; split = refl; holds = px }
LastIn-All P (x ∷ y ∷ xs) h (px, a) = LastIn-cons P x (y ∷ xs) (LastIn-All P (y ∷ xs) (cc) a)

-- Dotted text ends in a digit and holds no NUL.
Spells-LastIn : (ns : List ℕ) (text : Bytes) → Spells ns text → LastIn IsDigit text
Spells-LastIn ns text (one c) = LastIn-All IsDigit text c.non_empty c.digits
Spells-LastIn ns whole (dot {ns = ns'} text rest e c more) = rw e (
    LastIn-append IsDigit text (b'.' ∷ rest)
      (LastIn-cons IsDigit b'.' rest (Spells-LastIn ns' rest more)))

c_str-append : (xs ys : Bytes) → All IsDigit xs → c_str (xs ++ ys) ≡ xs ++ c_str ys
unfolding c_str
c_str-append [] ys h = refl
c_str-append (x ∷ xs) ys (d, h) = ground (arith, c_str-append xs ys h)

c_str_dot : (ys : Bytes) → c_str (b'.' ∷ ys) ≡ b'.' ∷ c_str ys
unfolding c_str
c_str_dot ys = refl

c_str-Spells : (ns : List ℕ) (text : Bytes) → Spells ns text → c_str text ≡ text
c_str-Spells ns text (one c) =
    ap c_str (sym (append-nil text))
    ∙ c_str-append text [] c.digits
    ∙ unfold c_str in append-nil text
c_str-Spells ns whole (dot {ns = ns'} text rest e c more) =
    rw (e, c_str-append text (b'.' ∷ rest) c.digits, c_str_dot, c_str-Spells ns' rest more)

trim_newline :
    (xs ys : Bytes)
    → trim (suc (length xs)) (xs ++ b'\n' ∷ ys) ≡ trim (length xs) (xs ++ b'\n' ∷ ys)
unfolding trim
trim_newline xs ys = rw (get_or-append xs ys b'\n' 0)

pub length-LastIn :
    (P : ℕ → Type 0) (xs : Bytes) (l : LastIn P xs) → length xs ≡ suc (length l.before)
length-LastIn P xs l = omega (arith, ap length l.split, length-append l.before (l.last ∷ []))

trim-line :
    (text : Bytes)
    → LastIn IsDigit text
    → trim (length (text ++ b'\n' ∷ [])) (text ++ b'\n' ∷ []) ≡ length text
trim-line text l =
    let grown : length (text ++ b'\n' ∷ []) ≡ suc (length text) =
      omega (arith, length-append text (b'\n' ∷ [])) in
    let whole : text ++ b'\n' ∷ [] ≡ l.before ++ l.last ∷ b'\n' ∷ [] =
      ap (λ t. t ++ b'\n' ∷ []) l.split ∙ append_assoc l.before (l.last ∷ []) (b'\n' ∷ []) in
    let digit = l.holds in
    let stops = trim_stops l.before (b'\n' ∷ []) l.last (ground arith) in
    rw (grown, trim_newline text [], length-LastIn IsDigit text l, whole) stops

read_content_lem :
    (content text : Bytes) (v : Version)
    → length content ≤ 64
    → trim (length content) content ≡ length text
    → length text ≢ 0
    → take (length text) content ≡ text
    → version_parse (some text) (some no_version) ≡ (ParseResult.ok, some v)
    → read_content content ≡ (ok, v)
unfolding read_content
read_content_lem content text v h t filled kept parsed =
    rw (take_all 64 content h, t, kept, parsed) (ground arith)

-- A line of dotted text and a newline: what is read is what the line spells.
read_content-line :
    (text : Bytes) (v : Version)
    → length text < 64
    → length v.parts ≡ 4
    → Spells v.parts text
    → read_content (text ++ b'\n' ∷ []) ≡ (ok, v)
read_content-line text v h four sp =
    let l = Spells-LastIn v.parts text sp in
    let size = length-LastIn IsDigit text l in
    read_content_lem (text ++ b'\n' ∷ []) text v (omega (arith, length-append text (b'\n' ∷ [])))
      (trim-line text l) (omega arith) (take-length (length text) text (b'\n' ∷ []) refl)
      ((version_parse_iff text no_version v).1 (four, rw (c_str-Spells v.parts text sp) sp))

read_content-render :
    (v : Version) → IsVersion v → (read_content (render v) ≡ (ok, v)) × (length (render v) < 64)
read_content-render v iv = by_parts v.parts iv
  where
    by_parts :
        (ps : List ℕ)
        → IsVersion (record { parts = ps })
        → (read_content (render (record { parts = ps })) ≡ (ok, record { parts = ps }))
          × (length (render (record { parts = ps })) < 64)
    by_parts [] i = absurd (omega (arith, i.four))
    by_parts (a ∷ []) i = absurd (omega (arith, i.four))
    by_parts (a ∷ b ∷ []) i = absurd (omega (arith, i.four))
    by_parts (a ∷ b ∷ c ∷ []) i = absurd (omega (arith, i.four))
    by_parts (a ∷ b ∷ c ∷ d ∷ e ∷ ps) i = absurd (omega (arith, i.four))
    by_parts (a ∷ b ∷ c ∷ d ∷ []) i =
        let (fa, wb) = i.words in
        let (fb, wc) = wb in
        let (fc, wd) = wc in
        let (fd, done) = wd in
        let short = length-line a b c d fa fb fc fd in
        rw (render-line a b c d fa fb fc fd) (
          read_content-line (line a b c d fa fb fc fd) (version_of a b c d) (omega arith) refl
              (Spells-line a b c d fa fb fc fd),
          omega (arith, length-append (line a b c d fa fb fc fd) (b'\n' ∷ [])),
        )

pub Spells-words : (ns : List ℕ) (text : Bytes) → Spells ns text → All (λ p. p < 2 ^ 32) ns
Spells-words ns text (one c) = (c.fits, tt)
Spells-words ns whole (dot {ns = ns'} text rest e c more) = (c.fits, Spells-words ns' rest more)

-- What the parser accepts has four parts of 32 bits.
pub version_parse-IsVersion :
    (d : Bytes) (old v : Version)
    → version_parse (some d) (some old) ≡ (ParseResult.ok, some v)
    → IsVersion v
version_parse-IsVersion d old v e =
    let (four, sp) = (version_parse_iff d old v).0 e in
    record { four = four; words = Spells-words v.parts (c_str d) sp }

module _ (D : Device) where
  write_text-reads_back :
      ReadsBack D
      → (path text : Bytes) (s : D.State) → (write_text D path text s).0 ≡ pos 0
      → D.read_file path (write_text D path text s).1 ≡ some text
  unfolding write_text
  write_text-reads_back R path text s e = ground (arith, R.reads_back path text s)

  pub version_write_installed-write_text :
      (path : Bytes) (v : Version) (s : D.State)
      → IsVersion v
      → version_write_installed D (some path) (some v) s ≡ write_text D path (render v) s
  unfolding version_write_installed
  version_write_installed-write_text path v s iv =
      let (same, short) = read_content-render v iv in ground arith

  read_installed-of-content :
      (path content : Bytes) (s : D.State)
      → D.read_file path s ≡ some content
      → version_read_installed D (some path) s ≡ read_content content
  unfolding version_read_installed
  read_installed-of-content path content s e = rw (e, version_read_installed)

  -- On a file system that reads back what it took: if the write of a version of four parts of 32
  -- bits reports success, the next read gives that version.
  pub read-write_installed :
      ReadsBack D
      → (path : Bytes) (v : Version) (s : D.State) → IsVersion v
      → (version_write_installed D (some path) (some v) s).0 ≡ pos 0
      → version_read_installed D (some path) (version_write_installed D (some path) (some v) s).1
        ≡ (ok, v)
  read-write_installed R path v s iv e =
      let step = version_write_installed-write_text path v s iv in
      let e' : (write_text D path (render v) s).0 ≡ pos 0 = rw step at e in
      rw step (
        read_installed-of-content path (render v) _ (write_text-reads_back R path (render v) s e')
        ∙ (read_content-render v iv).0)
