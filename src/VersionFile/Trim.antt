-- ===== src/VersionFile/Trim.antt =====
-- consumer/src/version.c: the white space at the end of the version file.
use mathlib.Core.Path.{ap₂}
use fota_secure.Base.{
  ℕ, zero, suc, ◌+◌, ◌-◌, ◌≤◌, ◌<◌, ◌≡◌, ◌⊎◌, inl, inr, refl, sym, ap, ◌∙◌, true, false, [], ◌∷◌,
  ◌++◌, append-nil, append_assoc, arith, Bytes, length, All-append, length-append, take,
  take-length, get_or, All, Bool-cases,
}
use fota_secure.VersionFile.{is_trailing, trim}
use fota_secure.VersionFile.RoundTrip.{LastIn, trim_stops, length-LastIn}

abbrev pub IsBlank : ℕ → Type 0
IsBlank c = (c ≡ b'\n') ⊎ (c ≡ b'\r') ⊎ (c ≡ b' ') ⊎ (c ≡ b'\t')

-- The content is a text that does not end in white space, and white space behind it.
pub record IsTrimmed (content text : Bytes) : Type 0 where
  pub blanks : Bytes
  pub split : content ≡ text ++ blanks
  pub blank : All IsBlank blanks
  pub ended : (text ≡ []) ⊎ LastIn (λ c. ¬ IsBlank c) text

get_or-behind :
    (xs ys : Bytes) (j d : ℕ) → length xs ≤ j → get_or (xs ++ ys) j d ≡ get_or ys (j - length xs) d
get_or-behind [] ys j d h = ap (λ n. get_or ys n d) {y = j - 0} (omega arith)
get_or-behind (x ∷ xs) ys zero d h = absurd (omega arith)
get_or-behind (x ∷ xs) ys (suc j) d h =
    get_or-behind xs ys j d (omega arith)
    ∙ ap (λ n. get_or ys n d) {y = suc j - suc (length xs)} (omega arith)

get_or-blank :
    (ys : Bytes) (j : ℕ) → j < length ys → All IsBlank ys → is_trailing (get_or ys j 0) ≡ true
get_or-blank [] j h b = absurd (omega arith)
get_or-blank (y ∷ ys) zero h (by', b) = ground arith
get_or-blank (y ∷ ys) (suc j) h (by', b) = get_or-blank ys j (omega arith) b

trim-zero : (buf : Bytes) → trim zero buf ≡ 0
unfolding trim
trim-zero buf = refl

trim_step :
    (n : ℕ) (buf : Bytes) → is_trailing (get_or buf n 0) ≡ true → trim (suc n) buf ≡ trim n buf
unfolding trim
trim_step n buf h = rw h

-- The blanks at the end go.
trim-blanks :
    (text blanks : Bytes) (k : ℕ)
    → k ≤ length blanks
    → All IsBlank blanks
    → trim (length text + k) (text ++ blanks) ≡ trim (length text) (text ++ blanks)
trim-blanks text blanks zero h b = ap (λ n. trim n (text ++ blanks)) {y = length text} (omega arith)
trim-blanks text blanks (suc k) h b =
    let at : get_or (text ++ blanks) (length text + k) 0 ≡ get_or blanks k 0 =
      get_or-behind text blanks (length text + k) 0 (omega arith)
      ∙ ap (λ n. get_or blanks n 0) {y = k} (omega arith) in
    ap (λ n. trim n (text ++ blanks)) {y = suc (length text + k)} (omega arith)
    ∙ trim_step (length text + k) (text ++ blanks)
        (ap is_trailing at ∙ get_or-blank blanks k (omega arith) b)
    ∙ trim-blanks text blanks k (omega arith) b

not_blank : (c : ℕ) → ¬ IsBlank c → is_trailing c ≡ false
not_blank c h = elim (Bool-cases (is_trailing c)) [
  | inl found ↦ absurd (h (ground arith))
  | inr other ↦ other
]

pub trim-IsTrimmed :
    (content text : Bytes) → IsTrimmed content text → trim (length content) content ≡ length text
trim-IsTrimmed content text t =
    let size = length-append text t.blanks in
    ap (λ c. trim (length c) c) t.split
    ∙ ap (λ n. trim n (text ++ t.blanks)) size
    ∙ trim-blanks text t.blanks (length t.blanks) (omega arith) t.blank
    ∙ last_stays t.ended
  where
    last_stays :
        (text ≡ []) ⊎ LastIn (λ c. ¬ IsBlank c) text
        → trim (length text) (text ++ t.blanks) ≡ length text
    last_stays (inl nothing) =
        ap (λ x. trim (length x) (x ++ t.blanks)) nothing
        ∙ trim-zero t.blanks
        ∙ sym (ap length nothing)
    last_stays (inr l) =
        let size = length-LastIn (λ c. ¬ IsBlank c) text l in
        let whole : text ++ t.blanks ≡ l.before ++ l.last ∷ t.blanks =
          ap (λ x. x ++ t.blanks) l.split ∙ append_assoc l.before (l.last ∷ []) t.blanks in
        ap₂ trim size whole
        ∙ trim_stops l.before t.blanks l.last (not_blank l.last l.holds)
        ∙ sym size

take-suc : (n : ℕ) (xs : Bytes) → n < length xs → take (suc n) xs ≡ take n xs ++ get_or xs n 0 ∷ []
take-suc n [] h = absurd (omega arith)
take-suc zero (x ∷ xs) h = refl
take-suc (suc n) (x ∷ xs) h = ap (λ l. x ∷ l) (take-suc n xs (omega arith))

IsTrimmed-blank :
    (content text : Bytes) (c : ℕ)
    → IsBlank c
    → IsTrimmed content text
    → IsTrimmed (content ++ c ∷ []) text
IsTrimmed-blank content text c h t = record {
  blanks = t.blanks ++ c ∷ [];
  split = ap (λ x. x ++ c ∷ []) t.split ∙ append_assoc text t.blanks (c ∷ []);
  blank = All-append IsBlank t.blanks (c ∷ []) t.blank (h, tt);
  ended = t.ended;
}

trim_step_stop :
    (n : ℕ) (buf : Bytes) → is_trailing (get_or buf n 0) ≡ false → trim (suc n) buf ≡ suc n
unfolding trim
trim_step_stop n buf h = rw h

pub IsTrimmed-trim :
    (n : ℕ) (buf : Bytes) → n ≤ length buf → IsTrimmed (take n buf) (take (trim n buf) buf)
IsTrimmed-trim zero buf h =
    rw trim-zero (record { blanks = []; split = refl; blank = tt; ended = inl refl })
IsTrimmed-trim (suc n) buf h =
    let next = take-suc n buf (omega arith) in
    elim (Bool-cases (is_trailing (get_or buf n 0))) [
      | inl blank ↦
          rw (next, trim_step n buf blank)
            (IsTrimmed-blank (take n buf) (take (trim n buf) buf) (get_or buf n 0) (ground arith)
              (IsTrimmed-trim n buf (omega arith)))
      | inr other ↦ rw (trim_step_stop n buf other) (record {
        blanks = [];
        split = sym (append-nil (take (suc n) buf));
        blank = tt;
        ended = inr (record {
          before = take n buf;
          last = get_or buf n 0;
          split = next;
          holds = λ b. cc (is_blank (get_or buf n 0) b);
        });
      })
    ]
  where
    is_blank : (c : ℕ) → IsBlank c → is_trailing c ≡ true
    is_blank c h = ground arith

pub take-IsTrimmed :
    (content text : Bytes) → IsTrimmed content text → take (length text) content ≡ text
take-IsTrimmed content text t =
    ap (take (length text)) t.split ∙ take-length (length text) text t.blanks refl
