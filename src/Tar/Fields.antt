-- ===== src/Tar/Fields.antt =====
-- consumer/src/installer.c: the checksum of a member of the layout, and the sizes of its fields.
use mathlib.Core.Path.{ap₂}
use fota_secure.Base.{
  ℕ, zero, suc, ◌+◌, ◌-◌, ◌*◌, ◌^◌, ◌≤◌, ◌<◌, ◌≡◌, ◌≢◌, ◌⊎◌, inl, inr, refl, sym, ap, ◌∙◌, true, [],
  ◌∷◌, ◌++◌, append-nil, some, arith, Bytes, ==_iff, c_str, length, length-append, take, slice,
  take-length, drop-length, take_all, All, All-append, AreBytes,
}
use fota_secure.Tar.{
  parse_octal_field, checksum_loop, compute_header_checksum, checksum_matches, EntryType, file,
  directory,
}
use fota_secure.Tar.Layout.{
  Member, zeros, octal, byte_sum, front, back, checksum, header, IsFlag, IsMember,
}
use fota_secure.Tar.Digits.{
  length-replicate, replicate-AreBytes, length-octal, octal-AreBytes, parse_octal_field-octal,
}

byte_sum-append : (s t : Bytes) → byte_sum (s ++ t) ≡ byte_sum s + byte_sum t
byte_sum-append [] t = omega arith
byte_sum-append (b ∷ s) t = omega (arith, byte_sum-append s t)

byte_sum-le : (s : Bytes) → AreBytes s → byte_sum s ≤ 255 * length s
byte_sum-le [] h = omega arith
byte_sum-le (b ∷ s) (hb, h) = omega (arith, byte_sum-le s h)

checksum_step-outside :
    (b : ℕ) (s : Bytes) (i acc : ℕ)
    → (i < 148) ⊎ (156 ≤ i)
    → acc + b < 2 ^ 64
    → checksum_loop i (b ∷ s) acc ≡ checksum_loop (i + 1) s (acc + b)
unfolding checksum_loop
checksum_step-outside b s i acc h fits = ground arith

checksum_step-inside :
    (b : ℕ) (s : Bytes) (i acc : ℕ)
    → 148 ≤ i
    → i < 156
    → acc + 32 < 2 ^ 64
    → checksum_loop i (b ∷ s) acc ≡ checksum_loop (i + 1) s (acc + 32)
unfolding checksum_loop
checksum_step-inside b s i acc lo hi fits = ground arith

-- The loop of the checksum, over a stretch outside of its field and over the field.
checksum_loop-outside :
    (s t : Bytes) (i acc : ℕ)
    → (i + length s ≤ 148) ⊎ (156 ≤ i)
    → acc + byte_sum s < 2 ^ 64
    → checksum_loop i (s ++ t) acc ≡ checksum_loop (i + length s) t (acc + byte_sum s)
checksum_loop-outside [] t i acc h fits =
    ap₂ (λ j sum. checksum_loop j t sum) {y = i + 0} (omega arith) (omega arith)
checksum_loop-outside (b ∷ s) t i acc h fits =
    checksum_step-outside b (s ++ t) i acc (omega arith) (omega arith)
    ∙ checksum_loop-outside s t (i + 1) (acc + b) (omega arith) (omega arith)
    ∙ ap₂ (λ j sum. checksum_loop j t sum) {x = i + 1 + length s} (omega arith) (omega arith)

checksum_loop-inside :
    (s t : Bytes) (i acc : ℕ)
    → 148 ≤ i
    → i + length s ≤ 156
    → acc + 32 * length s < 2 ^ 64
    → checksum_loop i (s ++ t) acc ≡ checksum_loop (i + length s) t (acc + 32 * length s)
checksum_loop-inside [] t i acc lo hi fits =
    ap₂ (λ j sum. checksum_loop j t sum) (omega arith) (omega arith)
checksum_loop-inside (b ∷ s) t i acc lo hi fits =
    checksum_step-inside b (s ++ t) i acc lo (omega arith) (omega arith)
    ∙ checksum_loop-inside s t (i + 1) (acc + 32) (omega arith) (omega arith) (omega arith)
    ∙ ap₂ (λ j sum. checksum_loop j t sum) (omega arith) (omega arith)

pub c_str-pad : (s : Bytes) (n : ℕ) → All (λ c. c ≢ 0) s → c_str (s ++ zeros n) ≡ s
unfolding c_str
c_str-pad [] zero h = refl
c_str-pad [] (suc n) h = refl
c_str-pad (c ∷ s) n (hc, h) = ground (arith, c_str-pad s n h)

checksum_matches_lem :
    (h : Bytes) (n : ℕ)
    → parse_octal_field (slice h 148 8) ≡ some n
    → n ≡ compute_header_checksum h
    → checksum_matches h ≡ true
unfolding checksum_matches
checksum_matches_lem h n e same = rw (e, checksum_matches) ((==_iff n _).1 same)

module _ (m : Member) (v : IsMember m) where
  abbrev pub chksum_field : Bytes
  chksum_field = octal 6 (checksum m) ++ 0 ∷ b' ' ∷ []

  pub length-front : length (front m) ≡ 148
  unfolding front
  length-front =
      let short = v.short in
      omega (
        arith,
        v.ids_size,
        v.mtime_size,
        length-append m.path (
            zeros (100 - length m.path)
            ++ (m.ids ++ ((octal 11 (length m.content) ++ 0 ∷ []) ++ m.mtime))),
        length-append (zeros (100 - length m.path))
            (m.ids ++ ((octal 11 (length m.content) ++ 0 ∷ []) ++ m.mtime)),
        length-append m.ids ((octal 11 (length m.content) ++ 0 ∷ []) ++ m.mtime),
        length-append (octal 11 (length m.content) ++ 0 ∷ []) m.mtime,
        length-append (octal 11 (length m.content)) (0 ∷ []),
        length-octal 11 (length m.content),
        length-replicate {A = ℕ} (100 - length m.path) 0,
      )

  length-back : length (back m) ≡ 356
  unfolding back
  length-back = omega (
    arith,
    v.names_size,
    length-append m.names (zeros 155 ++ zeros 12),
    length-append (zeros 155) (zeros 12),
    length-replicate {A = ℕ} 155 0,
    length-replicate {A = ℕ} 12 0,
  )

  pub length-chksum_field : length chksum_field ≡ 8
  length-chksum_field =
      omega
        (arith, length-append (octal 6 (checksum m)) (0 ∷ b' ' ∷ []), length-octal 6 (checksum m))

  pub length-header : length (header m) ≡ 512
  unfolding header
  length-header = omega (
    arith,
    length-front,
    length-back,
    length-chksum_field,
    length-append (front m) (chksum_field ++ back m),
    length-append chksum_field (back m),
  )

  front-AreBytes : AreBytes (front m)
  unfolding front
  front-AreBytes =
      let P = λ (b : ℕ). b < 256 in
      let nul : AreBytes (0 ∷ []) = (omega arith, tt) in
      All-append P m.path _ v.path_bytes (
        All-append P (zeros (100 - length m.path)) _ (replicate-AreBytes (100 - length m.path)) (
          All-append P m.ids _ v.ids_bytes (
            All-append P (octal 11 (length m.content) ++ 0 ∷ []) m.mtime
              (All-append P (octal 11 (length m.content)) (0 ∷ [])
                (octal-AreBytes 11 (length m.content)) nul)
              v.mtime_bytes)))

  flag-lt : (k : EntryType) → IsFlag k m.typeflag → m.typeflag < 256
  flag-lt file h = omega arith
  flag-lt directory h = omega arith

  back-AreBytes : AreBytes (back m)
  unfolding back
  back-AreBytes =
      let P = λ (b : ℕ). b < 256 in
      (
        flag-lt m.kind v.flag,
        All-append P m.names _ v.names_bytes
            (All-append P (zeros 155) (zeros 12) (replicate-AreBytes 155) (replicate-AreBytes 12)),
      )

  checksum-lt : checksum m < 8 ^ 6
  unfolding checksum
  checksum-lt = omega (
    arith,
    byte_sum-le (front m) front-AreBytes,
    byte_sum-le (back m) back-AreBytes,
    length-front,
    length-back,
  )

  compute_header_checksum-header : compute_header_checksum (header m) ≡ checksum m
  unfolding header
  compute_header_checksum-header =
      let small = checksum-lt in
      let lf = length-front in
      let lc = length-chksum_field in
      let small' : byte_sum (front m) + 8 * b' ' + byte_sum (back m) < 8 ^ 6 =
        unfold checksum in small in
      ap (λ h. checksum_loop 0 h 0) (take_all 512 (header m) (omega (arith, length-header)))
      ∙ checksum_loop-outside (front m) (chksum_field ++ back m) 0 0 (inl (omega arith))
          (omega arith)
      ∙ ap₂ (λ i sum. checksum_loop i (chksum_field ++ back m) sum) {y = 148} (omega arith) refl
      ∙ checksum_loop-inside chksum_field (back m) 148 (0 + byte_sum (front m)) (omega arith)
          (omega arith) (omega arith)
      ∙ ap₂ (λ i sum. checksum_loop i (back m) sum) {y = 156} (omega arith) refl
      ∙ ap (λ t. checksum_loop 156 t (0 + byte_sum (front m) + 32 * length chksum_field))
          (sym (append-nil (back m)))
      ∙ checksum_loop-outside (back m) [] 156 (0 + byte_sum (front m) + 32 * length chksum_field)
          (inr (omega arith)) (omega arith)
      ∙ unfold checksum_loop checksum in omega arith

  pub checksum_matches-header : checksum_matches (header m) ≡ true
  checksum_matches-header =
      let field : slice (header m) 148 8 ≡ chksum_field =
        unfold header in
        (ap (take 8) (drop-length 148 (front m) (chksum_field ++ back m) length-front)
          ∙ take-length 8 chksum_field (back m) length-chksum_field) in
      checksum_matches_lem (header m) (checksum m)
        (ap parse_octal_field field
          ∙ parse_octal_field-octal 6 (checksum m) (b' ' ∷ []) checksum-lt (omega arith)
              (omega arith))
        (sym compute_header_checksum-header)
