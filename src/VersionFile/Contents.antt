-- ===== src/VersionFile/Contents.antt =====
-- consumer/src/version.c: what `fota_version_read_installed` makes of the bytes of the file.
use fota_secure.Base.{
  ℕ, ◌≤◌, ◌<◌, ◌≡◌, ◌≢◌, ◌↔◌, ◌⊎◌, inl, inr, refl, sym, ◌∙◌, subst, true, false, [], ◌∷◌, Option,
  none, some, arith, Bytes, ltb, leb, ◌==◌, if◌then◌else◌, c_str, length, length-take, take,
  take_all, Bool-cases,
}
use fota_secure.Version.{Version, ParseResult, version_parse}
use fota_secure.Version.Dotted.{Spells}
use fota_secure.Version.Parse.{version_parse_iff}
use fota_secure.VersionFile.{
  ReadResult, ok, err_malformed_contents, no_version, trim, read_parsed, read_content,
}
use fota_secure.VersionFile.Trim.{IsTrimmed, trim-IsTrimmed, IsTrimmed-trim, take-IsTrimmed}

read_content_long :
    (content : Bytes)
    → 64 < length content
    → read_content content ≡ (err_malformed_contents, no_version)
unfolding read_content
read_content_long content h =
    let kept = length-take 64 content in
    let full : (length (take 64 content) == 64) ≡ true = ground arith in
    let more : ltb 64 (length content) ≡ true = ground arith in rw (full, more)

read_content_short :
    (content : Bytes) (n : ℕ)
    → length content ≤ 64
    → trim (length content) content ≡ n
    → read_content content ≡ (
        if n == 0
        then (ok, no_version)
        else read_parsed (version_parse (some (take n content)) (some no_version)))
unfolding read_content
read_content_short content n h t = rw (take_all 64 content h, t) (ground arith)

read_parsed-eq-ok :
    (r : ParseResult × Option Version) (v : Version)
    → (read_parsed r ≡ (ok, v)) ↔ (r ≡ (ParseResult.ok, some v))
unfolding read_parsed
read_parsed-eq-ok (ParseResult.ok, some w) v = (λ e. ground arith, λ e. ground arith)
read_parsed-eq-ok (ParseResult.ok, none) v = (λ e. ground arith, λ e. ground arith)
read_parsed-eq-ok (ParseResult.err_malformed, w) v = (λ e. ground arith, λ e. ground arith)

-- How a file that may be missing is read: nothing and white space stand for 0.0.0.0, more than 64
-- bytes are an error, and so is a text that spells no version.
pub data ReadsAs : Option Bytes → ReadResult × Version → Type 0 where
  missing : ReadsAs none (ok, no_version)
  long :
      {content : Bytes}
      → 64 < length content
      → ReadsAs (some content) (err_malformed_contents, no_version)
  blank :
      {content : Bytes}
      → length content ≤ 64
      → IsTrimmed content []
      → ReadsAs (some content) (ok, no_version)
  version :
      {content : Bytes} {v : Version} (text : Bytes)
      → length content ≤ 64
      → IsTrimmed content text
      → text ≢ []
      → length v.parts ≡ 4
      → Spells v.parts (c_str text)
      → ReadsAs (some content) (ok, v)
  garbled :
      {content : Bytes} (text : Bytes)
      → length content ≤ 64
      → IsTrimmed content text
      → text ≢ []
      → ((v : Version) → length v.parts ≡ 4 → ¬ Spells v.parts (c_str text))
      → ReadsAs (some content) (err_malformed_contents, no_version)

length-ne-zero : (s : Bytes) → s ≢ [] → (length s == 0) ≡ false
length-ne-zero [] h = absurd (h refl)
length-ne-zero (c ∷ s) h = ground arith

read_content-text :
    (content text : Bytes)
    → length content ≤ 64
    → IsTrimmed content text
    → text ≢ []
    → read_content content ≡ read_parsed (version_parse (some text) (some no_version))
read_content-text content text h t filled =
    read_content_short content (length text) h (trim-IsTrimmed content text t)
    ∙ rw (length-ne-zero text filled, take-IsTrimmed content text t)

read_content-nil :
    (content : Bytes)
    → length content ≤ 64
    → IsTrimmed content []
    → read_content content ≡ (ok, no_version)
read_content-nil content h t = read_content_short content 0 h (trim-IsTrimmed content [] t)

read_parsed-error :
    (r : ParseResult × Option Version)
    → ((v : Version) → r ≢ (ParseResult.ok, some v))
    → read_parsed r ≡ (err_malformed_contents, no_version)
unfolding read_parsed
read_parsed-error (ParseResult.ok, some v) h = absurd (h v refl)
read_parsed-error (ParseResult.ok, none) h = refl
read_parsed-error (ParseResult.err_malformed, v) h = refl

version_parse_error :
    (text : Bytes)
    → ((v : Version) → length v.parts ≡ 4 → ¬ Spells v.parts (c_str text))
    → read_parsed (version_parse (some text) (some no_version))
      ≡ (err_malformed_contents, no_version)
version_parse_error text h =
    read_parsed-error _
      (λ v e. let (four, sp) = (version_parse_iff text no_version v).0 e in h v four sp)

parsed_cases :
    (r : ParseResult × Option Version)
    → ((v : Version) × (r ≡ (ParseResult.ok, some v)))
      ⊎ ((v : Version) → r ≢ (ParseResult.ok, some v))
parsed_cases (ParseResult.ok, some v) = inl (v, refl)
parsed_cases (ParseResult.ok, none) = inr (λ v e. ground arith)
parsed_cases (ParseResult.err_malformed, w) = inr (λ v e. ground arith)

filled-ReadsAs :
    (content text : Bytes)
    → length content ≤ 64
    → IsTrimmed content text
    → text ≢ []
    → ReadsAs (some content) (read_content content)
filled-ReadsAs content text h t filled =
    let same = read_content-text content text h t filled in
    elim (parsed_cases (version_parse (some text) (some no_version))) [
      | inl (v, parsed) ↦
          let (four, sp) = (version_parse_iff text no_version v).0 parsed in
          subst (ReadsAs (some content))
            (sym
              (same ∙ (read_parsed-eq-ok (version_parse (some text) (some no_version)) v).1 parsed))
            (version text h t filled four sp)
      | inr refused ↦
          subst (ReadsAs (some content))
            (sym (same ∙ read_parsed-error (version_parse (some text) (some no_version)) refused))
            (garbled text h t filled
              (λ v four sp. refused v ((version_parse_iff text no_version v).1 (four, sp))))
    ]

text_cases : (text : Bytes) → (text ≡ []) ⊎ (text ≢ [])
text_cases [] = inl refl
text_cases (c ∷ s) = inr (λ e. cc)

pub read_content-ReadsAs : (content : Bytes) → ReadsAs (some content) (read_content content)
read_content-ReadsAs content = elim (Bool-cases (leb (length content) 64)) [
  | inr more ↦
      subst (ReadsAs (some content)) (sym (read_content_long content (ground arith)))
        (long (ground arith))
  | inl short ↦
      let text = take (trim (length content) content) content in
      let t : IsTrimmed content text =
        subst (λ c. IsTrimmed c text) (take_all (length content) content (omega arith))
          (IsTrimmed-trim (length content) content (omega arith)) in
      elim (text_cases text) [
        | inl nothing ↦
            let t' = subst (IsTrimmed content) nothing t in
            subst (ReadsAs (some content)) (sym (read_content-nil content (ground arith) t'))
              (blank (ground arith) t')
        | inr filled ↦ filled-ReadsAs content text (ground arith) t filled
      ]
]

-- The four cases of a file that is there do not meet.
pub read_content-of-ReadsAs :
    (content : Bytes) (r : ReadResult × Version)
    → ReadsAs (some content) r
    → read_content content ≡ r
read_content-of-ReadsAs content r (long h) = read_content_long content h
read_content-of-ReadsAs content r (blank h t) = read_content-nil content h t
read_content-of-ReadsAs content r (version {v = v} text h t filled four sp) =
    read_content-text content text h t filled
    ∙ (read_parsed-eq-ok (version_parse (some text) (some no_version)) v).1
        ((version_parse_iff text no_version v).1 (four, sp))
read_content-of-ReadsAs content r (garbled text h t filled unspelt) =
    read_content-text content text h t filled ∙ version_parse_error text unspelt
