-- ===== src/Header/Laws.antt =====
-- consumer/src/header.c: `fota_header_parse` against the layout.
use fota_secure.Base.{
  ◌<◌, ◌↔◌, codes, same_bytes_complete, ◌*◌, ◌/◌, ◌%◌, ◌≤◌, ◌<◌, ◌^◌, bit_or, ◌≡◌, ◌≢◌, refl, sym,
  ap, ◌∙◌, subst, true, ◌∷◌, ◌++◌, append_assoc, Option, none, some, arith, Bytes, same_bytes,
  same_bytes_sound, same_bytes_self, bit_or-shifted, length, get_or, take, drop, slice, AreBytes,
  All-get_or, length-append, take-length, drop-length, drop-drop, drop-get_or, get_or-drop,
  take-append-drop, slice-append-drop, length-slice,
}
use fota_secure.Header.{
  err_truncated, err_bad_magic, err_bad_version, Header, ok, read_fields, header_parse, magic,
  header_size,
}
use fota_secure.Header.Layout.{encode, IsHeader}

-- What lies behind the first five bytes of an encoded header.
abbrev fields_of : Header → Bytes → Bytes
fields_of h rest =
    h.platform_tag
    ++ (h.fw_version ++ ((h.wrapped_key_len / 256) ∷ (h.wrapped_key_len % 256) ∷ (h.iv ++ rest)))

encode-fields_of : (h : Header) (rest : Bytes) → encode h ++ rest ≡ magic ++ (1 ∷ fields_of h rest)
unfolding encode
encode-fields_of h rest = simp append_assoc

module _ (h : Header) (rest : Bytes) (v : IsHeader h) where
  abbrev whole : Bytes
  whole = magic ++ (1 ∷ fields_of h rest)

  drop-version :
      drop 21 whole
      ≡ h.fw_version ++ ((h.wrapped_key_len / 256) ∷ (h.wrapped_key_len % 256) ∷ (h.iv ++ rest))
  drop-version = drop-length 16 h.platform_tag _ v.tag_size

  drop-key_len :
      drop 33 whole ≡ (h.wrapped_key_len / 256) ∷ (h.wrapped_key_len % 256) ∷ (h.iv ++ rest)
  drop-key_len =
      sym (drop-drop 12 21 33 whole refl)
      ∙ ap (drop 12) drop-version
      ∙ drop-length 12 h.fw_version _ v.version_size

  drop-iv : drop 35 whole ≡ h.iv ++ rest
  drop-iv = sym (drop-drop 2 33 35 whole refl) ∙ ap (drop 2) drop-key_len

  key_len_bytes :
      bit_or (get_or whole 33 0 * 2 ^ 8) (get_or whole 34 0) % 2 ^ 16 ≡ h.wrapped_key_len
  key_len_bytes =
      let hi : get_or whole 33 0 ≡ h.wrapped_key_len / 256 =
        get_or-drop 33 whole 0 ∙ ap (λ l. get_or l 0 0) drop-key_len in
      let lo : get_or whole 34 0 ≡ h.wrapped_key_len % 256 =
        get_or-drop 34 whole 0
        ∙ ap (λ l. get_or l 0 0) (sym (drop-drop 1 33 34 whole refl) ∙ ap (drop 1) drop-key_len) in
      let bound = v.key_len in
      rw (hi, lo, bit_or-shifted (h.wrapped_key_len / 256) (h.wrapped_key_len % 256) (omega arith))
        (omega arith)

  tag_bytes : slice whole 5 16 ≡ h.platform_tag
  tag_bytes = take-length 16 h.platform_tag _ v.tag_size

  length-whole : 51 ≤ length whole
  length-whole = omega (
    arith,
    v.tag_size,
    v.version_size,
    v.iv_size,
    length-append h.platform_tag
        (h.fw_version ++ ((h.wrapped_key_len / 256) ∷ (h.wrapped_key_len % 256) ∷ (h.iv ++ rest))),
    length-append h.fw_version
        ((h.wrapped_key_len / 256) ∷ (h.wrapped_key_len % 256) ∷ (h.iv ++ rest)),
    length-append h.iv rest,
  )

  read_fields-whole : read_fields whole ≡ h
  read_fields-whole = λ i. record {
    platform_tag = tag_bytes i;
    fw_version = (ap (take 12) drop-version ∙ take-length 12 h.fw_version _ v.version_size) i;
    wrapped_key_len = key_len_bytes i;
    iv = (ap (take 16) drop-iv ∙ take-length 16 h.iv rest v.iv_size) i;
  }

-- A buffer that passes the three checks is accepted, and its fields are read.
header_parse_accepts :
    (d : Bytes) (old : Header)
    → 51 ≤ length d
    → take 4 d ≡ magic
    → get_or d 4 0 ≡ 1
    → header_parse (some d) (some old) ≡ (ok, some (read_fields d))
unfolding header_parse
header_parse_accepts d old h m v =
    let same : same_bytes (take 4 d) magic ≡ true = rw m (same_bytes_self magic) in
    rw same (ground arith)

header_parse_accepted :
    (d : Bytes) (old h : Header)
    → header_parse (some d) (some old) ≡ (ok, some h)
    → (51 ≤ length d)
      × (same_bytes (take 4 d) magic ≡ true)
      × (get_or d 4 0 ≡ 1)
      × (read_fields d ≡ h)
unfolding header_parse
header_parse_accepted d old h e = ground arith

module _ (d : Bytes) (b : AreBytes d) (long : 51 ≤ length d) where
  read_fields-IsHeader : IsHeader (read_fields d)
  read_fields-IsHeader = record {
    tag_size = length-slice d 5 16 (omega arith);
    version_size = length-slice d 21 12 (omega arith);
    iv_size = length-slice d 35 16 (omega arith);
    key_len = omega arith;
  }

  key_len_split :
      ((read_fields d).wrapped_key_len / 256 ≡ get_or d 33 0)
      × ((read_fields d).wrapped_key_len % 256 ≡ get_or d 34 0)
  key_len_split =
      let hi = All-get_or (λ x. x < 256) 33 d 0 (omega arith) b in
      let lo = All-get_or (λ x. x < 256) 34 d 0 (omega arith) b in
      rw (bit_or-shifted (get_or d 33 0) (get_or d 34 0) lo) (omega arith)

  fields_of-read_fields : fields_of (read_fields d) (drop 51 d) ≡ drop 5 d
  fields_of-read_fields = simp (
    key_len_split.0,
    key_len_split.1,
    slice-append-drop d 35 16 51 refl,
    ← drop-get_or 34 d 0 (omega arith),
    ← drop-get_or 33 d 0 (omega arith),
    slice-append-drop d 21 12 33 refl,
    slice-append-drop d 5 16 21 refl,
  )

-- A buffer that begins with an encoded header is parsed to that header, whatever follows it and
-- whatever `*out` held before.
pub header_parse-encode :
    (h old : Header) (rest : Bytes)
    → IsHeader h
    → header_parse (some (encode h ++ rest)) (some old) ≡ (ok, some h)
header_parse-encode h old rest v = rw encode-fields_of (
    header_parse_accepts (whole h rest v) old (length-whole h rest v) refl refl
    ∙ ap (λ (r : Header). (ok, some r)) (read_fields-whole h rest v))

magic-append-drop :
    (d : Bytes) → 51 ≤ length d → take 4 d ≡ magic → get_or d 4 0 ≡ 1 → magic ++ (1 ∷ drop 5 d) ≡ d
magic-append-drop d long m v =
    let front : 1 ∷ drop 5 d ≡ drop 4 d =
      ap (λ x. x ∷ drop 5 d) (sym v) ∙ sym (drop-get_or 4 d 0 (omega arith)) in
    ap (λ l. magic ++ l) front ∙ ap (λ l. l ++ drop 4 d) (sym m) ∙ take-append-drop 4 d

-- An accepted buffer of bytes is the encoding of the header that is handed back, whose fields have
-- the sizes of the layout, followed by the rest of the buffer.
pub encode-header_parse :
    (d : Bytes) (old h : Header)
    → AreBytes d
    → header_parse (some d) (some old) ≡ (ok, some h)
    → IsHeader h × (encode h ++ drop header_size d ≡ d)
encode-header_parse d old h b e =
    let (long, m, v, fields) = header_parse_accepted d old h e in
    subst (λ r. IsHeader r × (encode r ++ drop header_size d ≡ d)) fields
      (
        read_fields-IsHeader d b long,
        encode-fields_of (read_fields d) (drop header_size d)
            ∙ ap (λ l. magic ++ (1 ∷ l)) (fields_of-read_fields d b long)
            ∙ magic-append-drop d long (same_bytes_sound (take 4 d) magic m) v,
      )

-- On every error `*out` keeps what it held.
pub header_parse_error :
    (d : Option Bytes) (out : Option Header)
    → (header_parse d out).0 ≢ ok
    → (header_parse d out).1 ≡ out
unfolding header_parse
header_parse_error none out h = refl
header_parse_error (some d) none h = refl
header_parse_error (some d) (some old) h = ground arith

-- Which error a buffer gets: too short, a wrong magic, or a wrong format version, in this order.
pub header_parse_errors :
    (d : Bytes) (old : Header)
    → (((header_parse (some d) (some old)).0 ≡ err_truncated) ↔ (length d < 51))
      × (((header_parse (some d) (some old)).0 ≡ err_bad_magic)
          ↔ ((51 ≤ length d) × (take 4 d ≢ codes "FOTS")))
      × (((header_parse (some d) (some old)).0 ≡ err_bad_version)
          ↔ ((51 ≤ length d) × (take 4 d ≡ codes "FOTS") × (get_or d 4 0 ≢ 1)))
unfolding header_parse
header_parse_errors d old =
    let sound = same_bytes_sound (take 4 d) magic in
    let same = same_bytes_complete (take 4 d) magic in
    (ground arith, ground (arith, sound, same), ground (arith, sound, same))
