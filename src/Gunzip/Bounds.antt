-- ===== src/Gunzip/Bounds.antt =====
-- consumer/src/installer.c: the rounds and the output of `fota_gunzip`.
use fota_secure.Base.{
  ℕ, zero, suc, ◌+◌, ◌-◌, ◌%◌, ◌^◌, ◌≤◌, ◌<◌, ◌≡◌, ◌⊎◌, inl, inr, refl, ap, sym, ◌∙◌, subst, Bool,
  ◌&&◌, ◌||◌, if◌then◌else◌, Option-cases, [], ◌++◌, append_assoc, some, arith, Bytes, ltb, ◌==◌,
  length, length-append, Bool-cases,
}
use fota_secure.Install.{Returns, Returns-weaken, ok, err, Result-cases}
use fota_secure.Gunzip.{
  ZReturn, z_ok, z_stream_end, z_other, Zlib, IsInflate, gunzip_chunk, resize, Round, stop, again,
  after_inflate, inflate_round, gunzip_loop, gunzip,
}

-- What a stream inflates to, in rounds of whatever space.
pub data Inflates (Z : Zlib) : Z.Stream → Bytes → Type 0 where
  ends :
      {s : Z.Stream} (space : ℕ)
      → (Z.inflate s space).0 ≡ z_stream_end
      → Inflates Z s (Z.inflate s space).1
  goes_on :
      {s : Z.Stream} {out : Bytes} (space : ℕ)
      → (Z.inflate s space).0 ≡ z_ok
      → Inflates Z (Z.inflate s space).2 out
      → Inflates Z s ((Z.inflate s space).1 ++ out)

-- The loop goes on with room to write, within the cap.
resize_room :
    (realloc : ℕ → Bool) (max_output total capacity room : ℕ)
    → max_output < 2 ^ 32
    → total ≤ capacity
    → capacity ≤ max_output
    → 0 < capacity
    → resize realloc max_output total capacity ≡ ok room
    → (total < room) × (room ≤ max_output)
unfolding resize
resize_room realloc max_output total capacity room small t c p e = ground arith

module _ (Z : Zlib) (law : IsInflate Z) (realloc : ℕ → Bool) (max_output : ℕ)
    (small : max_output < 2 ^ 32) where
  -- The output so far is `buf`, and the stream gives the rest.
  record IsOutput (strm : Z.Stream) (buf out : Bytes) : Type 0 where
    fits : length out ≤ max_output
    rest : Bytes
    split : out ≡ buf ++ rest
    inflates : Inflates Z strm rest

  -- A round ends well, or goes on closer to the end, and what is output then is output now.
  RoundIsGood : Z.Stream → Bytes → Round Z → Type 0
  RoundIsGood strm buf (stop (ok out)) = IsOutput strm buf out
  RoundIsGood strm buf (stop (err e)) = Unit
  RoundIsGood strm buf (again strm' buf' capacity) =
      (Z.avail_in strm' + (max_output - length buf') < Z.avail_in strm + (max_output - length buf))
      × (length buf' ≤ capacity)
      × (capacity ≤ max_output)
      × (0 < capacity)
      × ((out : Bytes) → IsOutput strm' buf' out → IsOutput strm buf out)

  after_inflate-good :
      (strm : Z.Stream) (buf : Bytes) (room space : ℕ) (r : ZReturn × Bytes × Z.Stream)
      → Z.inflate strm space ≡ r
      → length buf < room
      → room ≤ max_output
      → space ≡ room - length buf
      → RoundIsGood strm buf (after_inflate Z buf room space r)
  unfolding after_inflate RoundIsGood
  after_inflate-good strm buf room space (z_other, written, strm') e more capped exact = tt
  after_inflate-good strm buf room space (z_stream_end, written, strm') e more capped exact =
      let within : length written ≤ space =
        subst (λ (r : ZReturn × Bytes × Z.Stream). length r.1 ≤ space) e (law.within strm space) in
      record {
        fits = omega (arith, length-append buf written);
        rest = written;
        split = refl;
        inflates =
            subst (λ (r : ZReturn × Bytes × Z.Stream). Inflates Z strm r.1) e
              (ends space (ap (λ (r : ZReturn × Bytes × Z.Stream). r.0) e));
      }
  after_inflate-good strm buf room space (z_ok, written, strm') e more capped exact =
      let within : length written ≤ space =
        subst (λ (r : ZReturn × Bytes × Z.Stream). length r.1 ≤ space) e (law.within strm space) in
      let consumes : Z.avail_in strm' ≤ Z.avail_in strm =
        subst (λ (r : ZReturn × Bytes × Z.Stream). Z.avail_in r.2 ≤ Z.avail_in strm) e
          (law.consumes strm space) in
      let ok_returned : (Z.inflate strm space).0 ≡ z_ok =
        ap (λ (r : ZReturn × Bytes × Z.Stream). r.0) e in
      let progress : (Z.avail_in strm' < Z.avail_in strm) ⊎ (0 < length written) =
        subst
          (λ (r : ZReturn × Bytes × Z.Stream).
            (Z.avail_in r.2 < Z.avail_in strm) ⊎ (0 < length r.1))
          e (law.progress strm space ok_returned) in
      elim (Bool-cases (Z.avail_in strm' == 0 && ltb 0 (space - length written))) [
        | inl truncated ↦ rw truncated tt
        | inr goes ↦ rw goes (
          omega (arith, length-append buf written),
          omega (arith, length-append buf written),
          capped,
          omega arith,
          λ out o. record {
            fits = o.fits;
            rest = written ++ o.rest;
            split = o.split ∙ append_assoc buf written o.rest;
            inflates =
                subst (λ w. Inflates Z strm (w ++ o.rest))
                  (ap (λ (r : ZReturn × Bytes × Z.Stream). r.1) e)
                  (goes_on space ok_returned (
                    subst (λ (r : ZReturn × Bytes × Z.Stream). Inflates Z r.2 o.rest) (sym e)
                      o.inflates));
          },
        )
      ]

  inflate_round-good :
      (strm : Z.Stream) (buf : Bytes) (capacity : ℕ)
      → length buf ≤ capacity
      → capacity ≤ max_output
      → 0 < capacity
      → RoundIsGood strm buf
          (inflate_round Z strm buf (resize realloc max_output (length buf) capacity))
  unfolding inflate_round RoundIsGood
  inflate_round-good strm buf capacity t c p =
      elim (Result-cases (resize realloc max_output (length buf) capacity)) [
        | inr (e, q) ↦ rw q tt
        | inl (room, q) ↦
            let (more, capped) =
              resize_room realloc max_output (length buf) capacity room small t c p q in
            rw q (
              after_inflate-good strm buf room ((room - length buf) % 2 ^ 32) _ refl more capped
                (omega arith))
      ]

  LoopReturns : ℕ → Type 0
  LoopReturns fuel =
      (strm : Z.Stream) (buf : Bytes) (capacity : ℕ)
      → Z.avail_in strm + (max_output - length buf) < fuel
      → length buf ≤ capacity
      → capacity ≤ max_output
      → 0 < capacity
      → Returns (IsOutput strm buf) (gunzip_loop Z realloc max_output fuel strm buf capacity)

  after_round :
      (fuel : ℕ) (strm : Z.Stream) (buf : Bytes)
      → LoopReturns fuel
      → Z.avail_in strm + (max_output - length buf) < suc fuel
      → (r : Round Z) → RoundIsGood strm buf r
      → Returns (IsOutput strm buf) (elim r [
        | stop r ↦ some r
        | again strm' buf' capacity' ↦ gunzip_loop Z realloc max_output fuel strm' buf' capacity'
      ])
  unfolding RoundIsGood LoopReturns
  after_round fuel strm buf ih enough (stop (ok out)) g = g
  after_round fuel strm buf ih enough (stop (err e)) g = tt
  after_round fuel strm buf ih enough (again strm' buf' capacity') (less, t, c, p, keep) =
      Returns-weaken (gunzip_loop Z realloc max_output fuel strm' buf' capacity') keep
        (ih strm' buf' capacity' (omega arith) t c p)

  gunzip_loop-Returns : (fuel : ℕ) → LoopReturns fuel
  unfolding LoopReturns gunzip_loop
  gunzip_loop-Returns zero strm buf capacity enough t c p = absurd (omega arith)
  gunzip_loop-Returns (suc fuel) strm buf capacity enough t c p =
      after_round fuel strm buf (gunzip_loop-Returns fuel) enough _
        (inflate_round-good strm buf capacity t c p)

-- What `fota_gunzip` may hand back: at most as many bytes as the cap, and exactly what zlib
-- inflates the input to.
pub record IsInflated (Z : Zlib) (max_output : ℕ) (gz out : Bytes) : Type 0 where
  pub fits : length out ≤ max_output
  pub strm : Z.Stream
  pub opened : Z.init gz (length gz % 2 ^ 32) ≡ some strm
  pub inflates : Inflates Z strm out

IsInflated-IsOutput :
    (Z : Zlib) (law : IsInflate Z) (realloc : ℕ → Bool) (max_output : ℕ)
    (small : max_output < 2 ^ 32) (gz out : Bytes) (strm : Z.Stream)
    → Z.init gz (length gz % 2 ^ 32) ≡ some strm
    → IsOutput Z law realloc max_output small strm [] out
    → IsInflated Z max_output gz out
IsInflated-IsOutput Z law realloc max_output small gz out strm opened o = record {
  fits = o.fits;
  strm = strm;
  opened = opened;
  inflates = subst (λ x. Inflates Z strm x) (sym o.split) o.inflates;
}

-- Under zlib's documented behaviour, a decompression with a cap of less than 2 ^ 32 ends for every
-- input, whichever allocations fail; what it hands back fits the cap and is what zlib wrote.
pub gunzip-Returns :
    (Z : Zlib) (realloc : ℕ → Bool) (max_output : ℕ) (gz : Bytes)
    → IsInflate Z
    → max_output < 2 ^ 32
    → Returns (IsInflated Z max_output gz) (gunzip Z realloc max_output (some gz))
unfolding gunzip LoopReturns
gunzip-Returns Z realloc max_output gz law small =
    elim (Bool-cases (length gz == 0 || max_output == 0)) [
      | inl refused ↦ rw refused tt
      | inr asked ↦ elim (Option-cases (Z.init gz (length gz % 2 ^ 32))) [
        | inl failed ↦ rw (asked, failed) tt
        | inr (strm, opened) ↦
            let capacity = if ltb gunzip_chunk max_output then gunzip_chunk else max_output in
            let capped : capacity ≤ max_output = ground arith in
            let some_room : 0 < capacity = ground arith in
            let given = law.given gz (length gz % 2 ^ 32) strm opened in
            elim (Bool-cases (realloc capacity)) [
              | inr no_memory ↦ rw (asked, opened, no_memory) tt
              | inl memory ↦
                  rw (asked, opened, memory)
                    (Returns-weaken
                      (gunzip_loop Z realloc max_output (suc (length gz % 2 ^ 32 + max_output)) strm
                        [] capacity)
                      (λ out o.
                        IsInflated-IsOutput Z law realloc max_output small gz out strm opened o)
                      (gunzip_loop-Returns Z law realloc max_output small
                        (suc (length gz % 2 ^ 32 + max_output)) strm [] capacity (omega arith)
                        (omega arith) capped some_room))
            ]
      ]
    ]
