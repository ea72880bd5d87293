-- ===== src/Tests/Package.antt =====
-- A whole update package and the device that it is for.
use fota_secure.Base.{
  ◌≡◌, refl, ◌^◌, ltb, true, [], ◌∷◌, ◌++◌, true, Bytes, codes, replicate, length,
}
use fota_secure.Consumer.{version_file, signing_public_key_file, device_private_key_file}
use fota_secure.Header.{Header}
use fota_secure.Header.Layout.{encode}
use fota_secure.Manifest.{ManifestFile}
use fota_secure.Manifest.Layout.{
  Spacing, print_manifest, print_files, print_object, print_fields, print_field, print_more,
}
use fota_secure.Tar.{file}
use fota_secure.Tar.Layout.{Member, archive, member_blocks, header, front, back, checksum}
use fota_secure.Tests.World.{Files, copied_signature}

abbrev pub member_of : Bytes → Bytes → Member
member_of path content = record {
  path = path;
  ids = replicate 24 b'0';
  mtime = replicate 12 b'0';
  kind = file;
  typeflag = b'0';
  names = replicate 188 0;
  content = content;
}

abbrev pub one_space : Spacing
one_space = record {
  key = [];
  colon = [];
  value = b' ' ∷ [];
  comma = [];
  item = b' ' ∷ [];
  close = [];
  end = [];
}

abbrev pub tool : Bytes
tool = codes "bin/tool"

abbrev pub tool_bytes : Bytes
tool_bytes = codes "#!/bin/sh"

abbrev pub tool_listing : ManifestFile
tool_listing = record { path = tool; sha256_hex = codes "23212f62696e2f7368" ++ replicate 46 b'0' }

abbrev pub before_files : Bytes
before_files = codes "{\"version\": \"1.2.0.0\", "

abbrev pub manifest_bytes : Bytes
unfolding print_manifest
manifest_bytes = print_manifest one_space before_files (tool_listing ∷ []) (codes "}")

abbrev pub tar_bytes : Bytes
unfolding archive member_blocks header front back checksum print_manifest
tar_bytes =
    archive (member_of (codes "manifest.json") manifest_bytes ∷ member_of tool tool_bytes ∷ [])
      (replicate 512 0)

abbrev pub package_header : Header
package_header = record {
  platform_tag = codes "GENERIC" ++ replicate 9 0;
  fw_version = codes "1.2.0.0" ++ replicate 5 0;
  wrapped_key_len = 32;
  iv = replicate 16 7;
}

abbrev pub wrapped : Bytes
wrapped = replicate 32 9

abbrev pub update : Bytes
unfolding encode
update =
    encode package_header
    ++ (wrapped
        ++ (copied_signature (codes "pub") (encode package_header ++ (wrapped ++ tar_bytes))
            ++ tar_bytes))

pub update_small : ltb (length update) (2 ^ 63) ≡ true
unfolding encode archive member_blocks header front back checksum print_manifest print_files
    print_object print_fields print_field print_more
update_small = refl

abbrev pub device_files : Files
device_files =
    (codes "-", [])
    ∷ (codes "update.fota", update)
    ∷ (signing_public_key_file, codes "pub")
    ∷ (device_private_key_file, codes "priv")
    ∷ (version_file, codes "1.1.9.9\n")
    ∷ []
