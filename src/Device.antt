-- ===== src/Device.antt =====
-- The operating system that the consumer runs on, as far as it calls it: a state that is unknown,
-- and the C library's calls on it. A path is a C string. None of this is code of the repository.
use fota_secure.Base.{ℕ, Bool, true, ◌≡◌, Option, some, Bytes, length}

pub data MkdirResult : Type 0 where
  made already_there failed : MkdirResult

pub record Device : Type 1 where
  pub State : Type 0
  -- `fopen(path, "rb")`, then all that `fread` delivers; `none` if the open fails.
  pub read_file : Bytes → State → Option Bytes
  -- Whether `ferror` is set after those calls.
  pub read_error : Bytes → State → Bool
  -- What `fread` delivers from standard input, and whether `ferror` is set afterwards.
  pub stdin : State → Bytes
  pub stdin_error : State → Bool
  -- `fopen(path, "wb")`: whether it succeeded.
  pub open_write : Bytes → State → Bool × State
  -- `fwrite` to the file opened at that path: how many bytes it took.
  pub write : Bytes → Bytes → State → ℕ × State
  -- `fclose`: whether it returned 0.
  pub close : Bytes → State → Bool × State
  -- `mkdir(path, 0755)`
  pub mkdir : Bytes → State → MkdirResult × State
  -- `statvfs`: `f_bavail` and `f_frsize`.
  pub free_space : Bytes → State → Option (ℕ × ℕ)

-- A file that was opened, took all bytes and was closed without an error is read back.
pub record ReadsBack (D : Device) : Type 0 where
  pub reads_back :
      (path text : Bytes) (s : D.State)
      → let s₁ = (D.open_write path s).1 in
        let s₂ = (D.write path text s₁).1 in
        (D.open_write path s).0 ≡ true
        → (D.write path text s₁).0 ≡ length text
        → (D.close path s₂).0 ≡ true
        → D.read_file path (D.close path s₂).1 ≡ some text
