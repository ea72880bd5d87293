-- ===== src/Tests/World.antt =====
-- A small world for the witnesses: a device that keeps its files in a list, a decompressor that
-- stores, and a cryptography that copies.
use fota_secure.Base.{
  ℕ, ◌≤◌, ◌<◌, ◌≡◌, ◌⊎◌, inl, inr, refl, ap, true, false, [], ◌∷◌, ◌++◌, List, Option, none, some,
  arith, Bytes, leb, ◌==◌, same_bytes, same_bytes_self, if◌then◌else◌, length, length-take,
  length-drop, take, drop, replicate, pos, Bool-cases,
}
use fota_secure.Consumer.{Memory}
use fota_secure.Device.{Device, ReadsBack, made}
use fota_secure.Extract.{InstallMemory}
use fota_secure.Fcrypto.{Libcrypto}
use fota_secure.Gunzip.{ZReturn, z_ok, z_stream_end, z_other, Zlib, IsInflate}

abbrev pub Files : Type 0
Files = List (Bytes × Bytes)

unfoldable pub find_file : Bytes → Files → Option Bytes
find_file path [] = none
find_file path ((name, content) ∷ s) =
    if same_bytes path name then some content else find_file path s

-- Every call works, and a write replaces the content.
abbrev pub listing_device : Device
listing_device = record {
  State = Files;
  read_file = find_file;
  read_error = λ path s. false;
  stdin = λ s. [];
  stdin_error = λ s. false;
  open_write = λ path s. (true, (path, []) ∷ s);
  write = λ path text s. (length text, (path, text) ∷ s);
  close = λ path s. (true, s);
  mkdir = λ path s. (made, s);
  free_space = λ path s. some (1000, 4096);
}

pub listing_device-ReadsBack : ReadsBack listing_device
unfolding find_file
listing_device-ReadsBack = record {
  reads_back = λ path text s opened taken closed. rw (same_bytes_self path) refl;
}

unfoldable pub stored_inflate : Bytes → ℕ → ZReturn × Bytes × Bytes
stored_inflate s space = (
  if space == 0 then z_other else if leb (length s) space then z_stream_end else z_ok,
  take space s,
  drop space s,
)

abbrev pub stored : Zlib
stored = record {
  Stream = Bytes;
  init = λ input n. if leb n (length input) then some (take n input) else none;
  avail_in = length;
  inflate = stored_inflate;
}

stored-given :
    (input : Bytes) (n : ℕ) (s : Bytes)
    → (if leb n (length input) then some (take n input) else none) ≡ some s
    → length s ≡ n
stored-given input n s e = elim (Bool-cases (leb n (length input))) [
  | inl fits ↦
      let same : take n input ≡ s = ground arith in
      omega (arith, ap length same, length-take n input, leb_le n (length input) fits)
  | inr short ↦ absurd (ground arith)
]
  where
    leb_le : (a b : ℕ) → leb a b ≡ true → a ≤ b
    leb_le a b h = ground arith

stored_inflate-progress :
    (s : Bytes) (space : ℕ)
    → (stored_inflate s space).0 ≡ z_ok
    → (length (stored_inflate s space).2 < length s) ⊎ (0 < length (stored_inflate s space).1)
unfolding stored_inflate
stored_inflate-progress s space e =
    let a = length-take space s in let b = length-drop space s in inl (ground arith)

pub stored-IsInflate : IsInflate stored
unfolding stored_inflate
stored-IsInflate = record {
  within = λ s space. omega (arith, length-take space s);
  consumes = λ s space. omega (arith, length-drop space s);
  progress = stored_inflate-progress;
  given = stored-given;
}

-- 32 bytes of the text.
abbrev pub copied_hash : Bytes → Bytes
copied_hash b = take 32 (b ++ replicate 32 0)

-- A signature is the key, then the text that is signed, cut off at 256 bytes.
abbrev pub copied_signature : Bytes → Bytes → Bytes
copied_signature key text = take 256 (key ++ (text ++ replicate 256 0))

abbrev pub copying_crypto : Libcrypto
copying_crypto = record {
  Key = Bytes;
  KeyCtx = Bytes;
  MdCtx = Bytes;
  CipherCtx = Bytes;
  read_private_key = λ file. some file;
  read_public_key = λ file. some file;
  sha256 = λ b. (pos 1, copied_hash b);
  key_ctx_new = λ key. some key;
  decrypt_init = λ ctx. (pos 1, ctx);
  set_oaep_padding = λ ctx. (pos 1, ctx);
  set_oaep_md = λ ctx. (pos 1, ctx);
  set_mgf1_md = λ ctx. (pos 1, ctx);
  decrypt_size = λ ctx wrapped. (pos 1, length wrapped, ctx);
  decrypt = λ ctx wrapped n. (pos 1, wrapped, ctx);
  malloc = λ n. true;
  md_ctx_new = some [];
  verify_init = λ ctx key. (pos 1, key);
  digest_verify = λ ctx signature text.
      if same_bytes signature (copied_signature ctx text) then pos 1 else pos 0;
  cipher_ctx_new = some [];
  cipher_init = λ ctx key iv. (pos 1, ctx);
  cipher_update = λ ctx text. (pos 1, text, ctx);
  cipher_final = λ ctx. (pos 1, []);
}

abbrev pub enough_install : InstallMemory
enough_install = record {
  gunzip_buf = λ n. true;
  tar_entries = λ n. true;
  manifest_files = λ n. true;
  matched_flags = λ n. true;
}

abbrev pub enough : Memory
enough = record {
  input = λ n. true;
  signed_data = λ n. true;
  plaintext = λ n. true;
  install = enough_install;
}
