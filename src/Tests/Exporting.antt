-- ===== src/Tests/Exporting.antt =====
-- src/media/export.rs and src/server/handlers/media.rs on concrete inputs.
use weflow_server.Base.{true, ◌≡◌, refl, [], ◌∷◌, ◌++◌, none, some}
use weflow_server.Base.Bytes.{Bytes, xor_all}
use weflow_server.Base.Int.{pos}
use weflow_server.Base.Text.{text_leb, Text, codes, text_ops}
use weflow_server.Base.Map.{lookup, map_ops}
use weflow_server.Pathsafe.Resolve.{join}
use weflow_server.Pathsafe.{
  FilePath, safe_segment, path_starts_with, is_reserved_device, before_dot, is_device_name,
}
use weflow_server.Parser.{image}
use weflow_server.Index.{eq_ignore_ascii_case}
use weflow_server.Media.{detect_format, decrypt_dat_legacy}
use weflow_server.Media.Disk.{
  Disk, Faults, path_eq, file_at, put_file, remove_file, behind, read_dir, read_file, write_file,
  rename_file,
}
use weflow_server.Media.Export.{
  ExportCtx, ExportedMedia, Tools, file_media, md5_hex, before_last_dot, name_is_content_digest,
  sniff_image_ext, walk_find, write_out,
}
use weflow_server.Media.Export.One.{
  decode_image, image_source, image_out, intact, export_image, export_one,
}
use weflow_server.Media.Export.Handles.{
  add_handles, dirs_handles, digest_handles, digest_handles-IsHandle, IsHandle,
}
use weflow_server.Media.Export.Digest.{IsDigest, IsImage, export_one-image}
use weflow_server.Base.Sort.{insert_by, sort_by}
use weflow_server.Server.Params.{Params}
use weflow_server.Server.Auth.{authorized, constant_time_eq, diff_bytes}
use weflow_server.Server.Fetch.{
  Links, served, all_hits, same_contents, agreed, find_exported, extension, content_type,
  handler_by_id,
}
use weflow_server.Server.Fetch.Unique.{IsTheFile, handler_by_id_unique}
use weflow_server.Tests.Storage.{plain_codecs, keeps_block}

abbrev tools : Tools
tools = record { codecs = plain_codecs; decrypt_block = keeps_block; ffmpeg = λ b. none }

-- Every operation succeeds.
abbrev no_faults : Faults
no_faults = record {
  reads = λ p. true;
  creates = λ p. true;
  writes = λ p. true;
  left_behind = λ p. none;
  renames = λ p q. true;
}

abbrev ctx : ExportCtx
ctx = record {
  account_dir = codes "acc" ∷ [];
  export_dir = codes "out" ∷ [];
  media_keys = some record { aes = []; xor = 0 };
}

-- The digest of everything, and an image of four bytes.
abbrev digest : Text
digest = codes "0123456789abcdef0123456789abcdef"

abbrev picture : Bytes
picture = 0xFF ∷ 0xD8 ∷ 0xFF ∷ 0 ∷ []

abbrev source_path : FilePath
source_path =
    codes "acc"
    ∷ codes "msg"
    ∷ codes "attach"
    ∷ digest
    ∷ codes "2024"
    ∷ codes "Img"
    ∷ (digest ++ codes ".dat")
    ∷ []

abbrev before : Disk
before = (source_path, picture) ∷ []

abbrev picture_path : FilePath
picture_path = codes "out" ∷ codes "t" ∷ codes "images" ∷ (digest ++ codes ".jpg") ∷ []

abbrev picture_media : ExportedMedia
picture_media = file_media picture_path (codes "images") (digest ++ codes ".jpg") true

exported :
    (export_one tools no_faults ctx [] (codes "t") image (some digest) (pos 1) before).1
    ≡ some picture_media
unfolding text_ops map_ops safe_segment is_reserved_device before_dot is_device_name
    eq_ignore_ascii_case detect_format decrypt_dat_legacy path_eq file_at put_file remove_file
    behind read_dir read_file write_file rename_file sniff_image_ext walk_find write_out join
    decode_image image_source image_out intact export_image export_one xor_all
exported = refl

are_digests : (bytes : Bytes) → IsDigest (md5_hex tools bytes)
unfolding text_ops
are_digests bytes = (refl, refl)

export_one-image_example :
    IsImage tools ctx
      (codes "t")
      digest
      picture_media
      (export_one tools no_faults ctx [] (codes "t") image (some digest) (pos 1) before).0
export_one-image_example =
    export_one-image tools no_faults ctx [] (codes "t") digest (pos 1) before picture_media
      are_digests exported

abbrev after : Disk
after = (picture_path, picture) ∷ before

listed :
    lookup digest (digest_handles after (codes "out" ∷ []) (codes "t"))
    ≡ some (digest ++ codes ".jpg")
unfolding text_ops map_ops safe_segment is_reserved_device before_dot is_device_name path_eq file_at
    behind read_dir before_last_dot name_is_content_digest add_handles dirs_handles digest_handles
listed = refl

digest_handles-IsHandle_example :
    (safe_segment (codes "t") ≡ true)
    × IsHandle after (codes "out" ∷ codes "t" ∷ []) digest (digest ++ codes ".jpg")
digest_handles-IsHandle_example =
    digest_handles-IsHandle after (codes "out" ∷ []) (codes "t") digest (digest ++ codes ".jpg")
      listed

-- A system without links, and one byte for each character of a token.
abbrev no_links : Links
no_links p = some p

abbrev with_token : Params
with_token = (codes "access_token", codes "s") ∷ []

fetched :
    handler_by_id
      (λ t. t)
      (codes "s")
      no_links
      after
      (codes "out" ∷ [])
      (digest ++ codes ".jpg")
      with_token
      none
    ≡ served (codes "image/jpeg") picture
unfolding text_ops map_ops safe_segment is_reserved_device before_dot is_device_name path_eq file_at
    behind read_dir path_starts_with constant_time_eq diff_bytes authorized insert_by sort_by
    text_leb all_hits same_contents agreed find_exported extension content_type handler_by_id
fetched = refl

handler_by_id_unique_example :
    (authorized (λ t. t) (codes "s") with_token none ≡ true)
    × (safe_segment (digest ++ codes ".jpg") ≡ true)
    × ((croot path : FilePath) × (no_links (codes "out" ∷ []) ≡ some croot)
        × (path_starts_with croot path ≡ true)
        × (file_at path after ≡ some picture)
        × IsTheFile no_links after croot (codes "out" ∷ []) (digest ++ codes ".jpg") picture)
handler_by_id_unique_example =
    handler_by_id_unique (λ t. t) (codes "s") no_links after (codes "out" ∷ [])
      (digest ++ codes ".jpg") with_token none (codes "image/jpeg") picture (λ p c e. refl) fetched
