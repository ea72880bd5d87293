-- ===== src/Lib.antt =====
-- The consumer of fota-secure: the C program in consumer/src that runs on a device, takes one
-- update package and installs it.
--
-- A package is a header, a wrapped AES key, a signature and an encrypted, gzipped ustar archive
-- that holds a manifest.json and the files to install. `main` reads the package (`read_all`),
-- parses the header (`fota_header_parse`), compares the platform tag, decides on the version
-- (`fota_version_parse`, `fota_version_read_installed`, `fota_downgrade_check`), checks the disk
-- space, verifies the signature (`fota_verify_signature`), unwraps the key and decrypts
-- (`fota_unwrap_key`, `fota_decrypt_payload`), hands the plaintext to `fota_installer_extract`,
-- which decompresses, parses, verifies and only then writes, and records the new version
-- (`fota_version_write_installed`). Every part has a module:
--
--   Header        consumer/src/header.c, header.h: `header_parse`. Header/Layout is the byte layout
--                 of docs/FORMAT_SPEC.md, Header/Laws relates the two.
--   Version       consumer/src/version.c: `version_parse`, `version_compare`, `downgrade_check`.
--                 Version/Dotted says what a dotted version is; Parse, Compare and Downgrade hold
--                 the proofs.
--   VersionFile   consumer/src/version.c: `version_read_installed`, `version_write_installed`,
--                 `read_downgrade_secret_hash`. Decimal, Trim and Contents are for RoundTrip and
--                 Reads.
--   Install       consumer/src/installer.h: the error codes, as a result type.
--   TarPath       `fota_tar_path_is_safe` of consumer/src/installer.c; Components and Confined.
--   Tar           `fota_tar_parse` and what it calls. Octal, OctalRange, Entry and Loop follow the
--                 parser from the inside out; Layout is the ustar layout, and Digits, Fields,
--                 Blocks and RoundTrip read it back.
--   Manifest      `parse_manifest_files` and what it calls. Layout prints a manifest; Strings,
--                 Tokens, Objects, Loops, RoundTrip and Escapes are about the parser.
--   Verify        `fota_verify_manifest`; Search is about finding entries, Listing and Duplicate
--                 about the whole.
--   Gunzip        `fota_gunzip`; Bounds.
--   Extract       `fota_installer_extract` and its writing; Pipeline is about all that precedes
--                 the first write, Writes and Installs about what is written.
--   Fcrypto       consumer/src/fcrypto.c; Steps, Signature, Unwrap and Decrypt.
--   Consumer      consumer/src/main.c and config.h. Arguments is about the secret among the
--                 arguments, Input about `read_all`; Steps, Opened, Failures, Platform, Safety,
--                 Confined, Versions, Installs and Main about the run.
--   Device        The calls of the C library on files: parameters, with a state of unknown type.
--   Base          Names of the library, Boolean tests, lemmas on lists and bytes.
--   Tests         A small world, a whole package that is installed in it, and the examples.
--
-- Numbers are natural numbers with the wrap-around of their C type written out (2 ^ 64 for
-- `size_t`, 2 ^ 32 for zlib's `unsigned int` and for version parts). A buffer is the list of its
-- bytes, and a position in one is either a number or the rest of the list; a C string is the list
-- in front of its NUL. A NULL pointer is `none`. What a function writes through a pointer is part
-- of its result. State is passed on explicitly: each function that calls the operating system takes
-- the state of the device and returns the next one.
--
-- Loops with no structural bound run on fuel, and an outer `none` means that it ran out. The fuel is
-- the length of the archive plus one for the tar loop (every round moves on by 512 bytes), of the
-- rest of the manifest plus one for the two JSON loops (every round takes a byte), of the input plus
-- one for `read_all` (every round takes a byte or is the last), and the length of the input as zlib
-- sees it plus the cap plus one for the decompression (every round consumes or writes).
--
-- Not under consumer/src, hence parameters: zlib (`Zlib`, with its documented behaviour as
-- `IsInflate`), OpenSSL (`Libcrypto`, with no assumption on it), the file system and standard input
-- (`Device`, with `ReadsBack` or `IsFileSystem` where a result needs it) and the allocations
-- (functions from a size to whether it is granted). Freed memory, the wiping of keys, messages on
-- stderr and the empty post-install hook are left out. The packager, the key generator, the tests
-- and the build are not modelled.
pub mod Base
pub mod Header
pub mod Version
pub mod Device
pub mod VersionFile
pub mod Install
pub mod TarPath
pub mod Tar
pub mod Manifest
pub mod Verify
pub mod Gunzip
pub mod Extract
pub mod Fcrypto
pub mod Consumer
mod Tests
