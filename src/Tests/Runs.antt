-- ===== src/Tests/Runs.antt =====
-- Whole runs of the consumer.
use fota_secure.Base.{List, ◌≡◌, refl, [], ◌∷◌, ◌++◌, none, some, codes, c_str, same_bytes}
use fota_secure.Header.{header_parse}
use fota_secure.Version.{
  component_value, close_component, scan, finish as finish_parts, version_parse, compare_parts,
  version_compare, check_secret, check_override, downgrade_check,
}
use fota_secure.VersionFile.{
  trim, read_parsed, read_content, digits, decimal, render, version_read_installed, write_text,
  version_write_installed, read_downgrade_secret_hash,
}
use fota_secure.TarPath.{is_dotdot, no_dotdot, path_is_safe}
use fota_secure.Tar.{
  TarEntry, file, is_all_zero, octal_loop, checksum_loop, checksum_matches, entry_type, entry_size,
  next_offset, parse_entry, tar_loop, tar_parse,
}
use fota_secure.Manifest.{
  json_body, extract_json_string, skip_json_whitespace, expect, find_key, field_value, field_step,
  finish_object, object_loop, array_step, array_loop, open_array, parse_manifest_files,
}
use fota_secure.Verify.{
  manifest_name, bytes_to_hex_lower, find_entry, count_files, check_digest, match_loop, check_count,
  check_listing, verify_manifest,
}
use fota_secure.Gunzip.{resize, after_inflate, inflate_round, gunzip_loop, gunzip}
use fota_secure.Extract.{
  unpack_verified, make_parents, ensure_parent_dirs, write_content, write_file, write_entry_file,
  write_entries, installer_extract,
}
use fota_secure.Fcrypto.{
  load_private_key, load_public_key, decrypt_into, unwrap_steps, unwrap_key, verify_steps,
  verify_signature, decrypt_steps, decrypt_payload,
}
use fota_secure.Install.{ok}
use fota_secure.Consumer.{
  go, success, version_file, install_dir, platform_tag_matches, install_result_to_exit_code,
  parse_secret, grow_input, read_loop, read_all, split_sections, check_header, check_space,
  check_signature, recover, open_package, record_version, install_package, run, read_input, main,
}
use fota_secure.Tar.Layout.{archive, member_blocks, header, front, back, checksum}
use fota_secure.Manifest.Layout.{
  print_manifest, print_files, print_object, print_fields, print_field, print_more,
}
use fota_secure.Header.Layout.{encode}
use fota_secure.VersionFile.RoundTrip.{version_of}
use fota_secure.Tests.World.{
  enough_install, Files, find_file, listing_device, stored, stored_inflate, copying_crypto, enough,
}
use fota_secure.Tests.Package.{tar_bytes, manifest_bytes, tool, device_files, tool_bytes, update}

abbrev pub updated_files : Files
updated_files =
    (version_file, codes "1.2.0.0\n")
    ∷ (version_file, [])
    ∷ (install_dir ++ codes "/bin/tool", tool_bytes)
    ∷ (install_dir ++ codes "/bin/tool", [])
    ∷ device_files

pub installs :
    run listing_device copying_crypto enough stored update none device_files
    ≡ some (success, updated_files)
unfolding header_parse component_value close_component scan finish_parts version_parse compare_parts
    version_compare check_secret check_override downgrade_check trim read_parsed read_content digits
    decimal render version_read_installed write_text version_write_installed
    read_downgrade_secret_hash is_dotdot no_dotdot path_is_safe is_all_zero octal_loop checksum_loop
    checksum_matches entry_type entry_size next_offset parse_entry tar_loop tar_parse json_body
    extract_json_string skip_json_whitespace expect find_key field_value field_step finish_object
    object_loop array_step array_loop open_array parse_manifest_files bytes_to_hex_lower find_entry
    count_files check_digest match_loop check_count check_listing verify_manifest resize
    after_inflate inflate_round gunzip_loop gunzip unpack_verified make_parents ensure_parent_dirs
    write_content write_file write_entry_file write_entries installer_extract load_private_key
    load_public_key decrypt_into unwrap_steps unwrap_key verify_steps verify_signature decrypt_steps
    decrypt_payload platform_tag_matches install_result_to_exit_code parse_secret grow_input
    read_loop read_all split_sections check_header check_space check_signature recover open_package
    record_version install_package run read_input main c_str same_bytes archive member_blocks header
    front back checksum print_manifest print_files print_object print_fields print_field print_more
    encode find_file stored_inflate
installs = refl

pub main_installs :
    main listing_device copying_crypto enough stored (codes "update.fota" ∷ []) device_files
    ≡ some (success, updated_files)
unfolding header_parse component_value close_component scan finish_parts version_parse compare_parts
    version_compare check_secret check_override downgrade_check trim read_parsed read_content digits
    decimal render version_read_installed write_text version_write_installed
    read_downgrade_secret_hash is_dotdot no_dotdot path_is_safe is_all_zero octal_loop checksum_loop
    checksum_matches entry_type entry_size next_offset parse_entry tar_loop tar_parse json_body
    extract_json_string skip_json_whitespace expect find_key field_value field_step finish_object
    object_loop array_step array_loop open_array parse_manifest_files bytes_to_hex_lower find_entry
    count_files check_digest match_loop check_count check_listing verify_manifest resize
    after_inflate inflate_round gunzip_loop gunzip unpack_verified make_parents ensure_parent_dirs
    write_content write_file write_entry_file write_entries installer_extract load_private_key
    load_public_key decrypt_into unwrap_steps unwrap_key verify_steps verify_signature decrypt_steps
    decrypt_payload platform_tag_matches install_result_to_exit_code parse_secret grow_input
    read_loop read_all split_sections check_header check_space check_signature recover open_package
    record_version install_package run read_input main c_str same_bytes archive member_blocks header
    front back checksum print_manifest print_files print_object print_fields print_field print_more
    encode find_file stored_inflate
main_installs = refl

abbrev pub package_entries : List TarEntry
package_entries =
    record { path = manifest_name; kind = file; content = manifest_bytes }
    ∷ record { path = tool; kind = file; content = tool_bytes }
    ∷ []

pub opens :
    open_package listing_device copying_crypto enough update none device_files
    ≡ go (tar_bytes, version_of 1 2 0 0)
unfolding header_parse component_value close_component scan finish_parts version_parse compare_parts
    version_compare check_secret check_override downgrade_check trim read_parsed read_content digits
    decimal render version_read_installed write_text version_write_installed
    read_downgrade_secret_hash is_dotdot no_dotdot path_is_safe is_all_zero octal_loop checksum_loop
    checksum_matches entry_type entry_size next_offset parse_entry tar_loop tar_parse json_body
    extract_json_string skip_json_whitespace expect find_key field_value field_step finish_object
    object_loop array_step array_loop open_array parse_manifest_files bytes_to_hex_lower find_entry
    count_files check_digest match_loop check_count check_listing verify_manifest resize
    after_inflate inflate_round gunzip_loop gunzip unpack_verified make_parents ensure_parent_dirs
    write_content write_file write_entry_file write_entries installer_extract load_private_key
    load_public_key decrypt_into unwrap_steps unwrap_key verify_steps verify_signature decrypt_steps
    decrypt_payload platform_tag_matches install_result_to_exit_code parse_secret grow_input
    read_loop read_all split_sections check_header check_space check_signature recover open_package
    record_version install_package run read_input main c_str same_bytes archive member_blocks header
    front back checksum print_manifest print_files print_object print_fields print_field print_more
    encode find_file stored_inflate
opens = refl

pub unpacks :
    unpack_verified stored copying_crypto.sha256 enough_install tar_bytes
    ≡ some (ok package_entries)
unfolding header_parse component_value close_component scan finish_parts version_parse compare_parts
    version_compare check_secret check_override downgrade_check trim read_parsed read_content digits
    decimal render version_read_installed write_text version_write_installed
    read_downgrade_secret_hash is_dotdot no_dotdot path_is_safe is_all_zero octal_loop checksum_loop
    checksum_matches entry_type entry_size next_offset parse_entry tar_loop tar_parse json_body
    extract_json_string skip_json_whitespace expect find_key field_value field_step finish_object
    object_loop array_step array_loop open_array parse_manifest_files bytes_to_hex_lower find_entry
    count_files check_digest match_loop check_count check_listing verify_manifest resize
    after_inflate inflate_round gunzip_loop gunzip unpack_verified make_parents ensure_parent_dirs
    write_content write_file write_entry_file write_entries installer_extract load_private_key
    load_public_key decrypt_into unwrap_steps unwrap_key verify_steps verify_signature decrypt_steps
    decrypt_payload platform_tag_matches install_result_to_exit_code parse_secret grow_input
    read_loop read_all split_sections check_header check_space check_signature recover open_package
    record_version install_package run read_input main c_str same_bytes archive member_blocks header
    front back checksum print_manifest print_files print_object print_fields print_field print_more
    encode find_file stored_inflate
unpacks = refl
