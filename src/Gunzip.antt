-- ===== src/Gunzip.antt =====
-- consumer/src/installer.c: `fota_gunzip`. zlib is a parameter.
pub mod Bounds
use fota_secure.Base.{
  ℕ, zero, suc, ◌+◌, ◌-◌, ◌*◌, ◌%◌, ◌^◌, ◌≤◌, ◌<◌, ◌≡◌, ◌⊎◌, Bool, true, false, not, ◌&&◌, ◌||◌, [],
  ◌++◌, Option, none, some, Bytes, ltb, leb, ◌==◌, if◌then◌else◌, length, min,
}
use fota_secure.Install.{invalid_arg, decompress_failed, decompressed_too_large, Result, ok, err}

pub data ZReturn : Type 0 where
  z_ok z_stream_end z_other : ZReturn

-- A stream that was initialised by `inflateInit2` and given its input. `inflate` gets the space
-- that is left and says how it ended, what it wrote, and the stream afterwards.
pub record Zlib : Type 1 where
  pub Stream : Type 0
  pub init : Bytes → ℕ → Option Stream
  pub avail_in : Stream → ℕ
  pub inflate : Stream → ℕ → ZReturn × Bytes × Stream

-- What zlib documents of these calls: `inflate` writes no more than there is space for, takes no
-- input back, and returns Z_OK only if it took input or wrote output.
pub record IsInflate (Z : Zlib) : Type 0 where
  pub within : (s : Z.Stream) (space : ℕ) → length (Z.inflate s space).1 ≤ space
  pub consumes : (s : Z.Stream) (space : ℕ) → Z.avail_in (Z.inflate s space).2 ≤ Z.avail_in s
  pub progress :
      (s : Z.Stream) (space : ℕ)
      → (Z.inflate s space).0 ≡ z_ok
      → (Z.avail_in (Z.inflate s space).2 < Z.avail_in s) ⊎ (0 < length (Z.inflate s space).1)
  pub given : (input : Bytes) (n : ℕ) (s : Z.Stream) → Z.init input n ≡ some s → Z.avail_in s ≡ n

abbrev pub gunzip_chunk : ℕ
gunzip_chunk = 65536

-- The growth of the buffer at the head of the loop: the capacity to go on with. `realloc` gives
-- room for so many bytes or fails.
unfoldable pub resize : (ℕ → Bool) → ℕ → ℕ → ℕ → Result ℕ
resize realloc max_output total capacity =
    if not (total == capacity)
    then ok capacity
    else if leb max_output capacity
    then err decompressed_too_large
    else (let doubled = capacity * 2 % 2 ^ 64 in
        let new_capacity = if ltb max_output doubled then max_output else doubled in
        if not (realloc new_capacity) then err decompress_failed else ok new_capacity)

module _ (Z : Zlib) where
  -- One round: the loop returns, or goes on with a stream, the output so far and a capacity.
  pub data Round : Type 0 where
    stop : Result Bytes → Round
    again : Z.Stream → Bytes → ℕ → Round

  -- The tests behind the call of `inflate`, in which `space` was given.
  unfoldable pub after_inflate : Bytes → ℕ → ℕ → ZReturn × Bytes × Z.Stream → Round
  after_inflate buf room space (z_other, written, strm) = stop (err decompress_failed)
  after_inflate buf room space (z_stream_end, written, strm) = stop (ok (buf ++ written))
  after_inflate buf room space (z_ok, written, strm) =
      if Z.avail_in strm == 0 && ltb 0 (space - length written)
      then stop (err decompress_failed)
      else again strm (buf ++ written) room

  -- `avail_out` is an `unsigned int`.
  unfoldable pub inflate_round : Z.Stream → Bytes → Result ℕ → Round
  inflate_round strm buf (err e) = stop (err e)
  inflate_round strm buf (ok room) =
      let space = (room - length buf) % 2 ^ 32 in
      after_inflate buf room space (Z.inflate strm space)

module _ (Z : Zlib) (realloc : ℕ → Bool) (max_output : ℕ) where
  -- The loop, while the last return code was Z_OK. `none` means that the fuel ran out.
  unfoldable pub gunzip_loop : ℕ → Z.Stream → Bytes → ℕ → Option (Result Bytes)
  gunzip_loop zero strm buf capacity = none
  gunzip_loop (suc fuel) strm buf capacity =
      elim (inflate_round Z strm buf (resize realloc max_output (length buf) capacity)) [
        | stop r ↦ some r
        | again strm' buf' capacity' ↦ gunzip_loop fuel strm' buf' capacity'
      ]

  -- `fota_gunzip`, into pointers that are not NULL. The input and the output that is left bound
  -- the rounds.
  unfoldable pub gunzip : Option Bytes → Option (Result Bytes)
  gunzip none = some (err invalid_arg)
  gunzip (some gz) =
      let capacity = if ltb gunzip_chunk max_output then gunzip_chunk else max_output in
      if length gz == 0 || max_output == 0
      then some (err invalid_arg)
      else elim (Z.init gz (length gz % 2 ^ 32)) [
        | none ↦ some (err decompress_failed)
        | some strm ↦ elim (realloc capacity) [
          | false ↦ some (err decompress_failed)
          | true ↦ gunzip_loop (suc (length gz % 2 ^ 32 + max_output)) strm [] capacity
        ]
      ]
