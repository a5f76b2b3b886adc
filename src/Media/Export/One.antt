-- ===== src/Media/Export/One.antt =====
-- `export_one` of src/media/export.rs, an arm for each kind of media.
use weflow_server.Base.{
  Bool, true, false, ◌||◌, List, [], ◌∷◌, ◌++◌, Option, none, some, if◌then◌else◌, ◌==◌, ◌>>=◌,
  length, unwrap_or, or_else,
}
use weflow_server.Base.Bytes.{Bytes}
use weflow_server.Base.Int.{ℤ}
use weflow_server.Base.Text.{Text, codes, is_empty, starts_with}
use weflow_server.Base.Map.{Map, lookup, values}
use weflow_server.Base.Decimal.{print_ℤ}
use weflow_server.Pathsafe.{FilePath}
use weflow_server.Parser.{MediaKind, image, voice, video, emoji, file}
use weflow_server.Index.{eq_ignore_ascii_case}
use weflow_server.Keys.{ImageKeys}
use weflow_server.Media.{
  magic_v1, magic_v2, v1_fixed_aes_key, v1, v2, legacy_xor, detect_format, decrypt_dat_payload,
  decrypt_dat_legacy,
}
use weflow_server.Media.Disk.{Disk, Faults, read_file, read_dir, is_file}
use weflow_server.Media.Export.{
  jpeg, png, zstd, sniff_image_ext, ExportCtx, ExportedMedia, AuxDb, Tools, md5_hex, wxgf_to_png,
  walk_find, write_out,
}

abbrev first_path : List FilePath → Option FilePath
first_path [] = none
first_path (p ∷ ps) = some p

-- The bytes of a source file, decoded.
unfoldable pub decode_image : Tools → Option ImageKeys → Bytes → Option Bytes
decode_image tools media_keys raw = elim (detect_format raw) [
  | some v1 ↦ decrypt_dat_payload tools.decrypt_block raw v1_fixed_aes_key 0
  | some v2 ↦ media_keys >>= λ keys. decrypt_dat_payload tools.decrypt_block raw keys.aes keys.xor
  | some legacy_xor ↦ media_keys >>= λ keys. some (decrypt_dat_legacy raw keys.xor)
  | none ↦
      if starts_with jpeg raw || starts_with png raw || starts_with (codes "GIF8") raw
      then some raw
      else none
]

-- The candidates in the months of the conversation's own directory.
abbrev pub in_months : Disk → FilePath → Text → List (Text × Bool) → List FilePath
in_months disk scoped resolved [] = []
in_months disk scoped resolved ((month, is_dir) ∷ months) =
    let rest = in_months disk scoped resolved months in
    let p : FilePath = scoped ++ month ∷ codes "Img" ∷ resolved ∷ [] in
    if is_file p disk then p ∷ rest else rest

abbrev or_walk : List FilePath → List FilePath → List FilePath
or_walk [] found = found
or_walk (p ∷ ps) found = p ∷ ps

unfoldable pub image_source : Tools → Disk → ExportCtx → Text → Text → Option FilePath
image_source tools disk ctx talker resolved =
    let attach = ctx.account_dir ++ codes "msg" ∷ codes "attach" ∷ [] in
    let scoped = attach ++ md5_hex tools (tools.codecs.utf8 talker) ∷ [] in
    first_path (
      or_walk
        (or_walk (in_months disk scoped resolved (read_dir scoped disk))
          (walk_find disk resolved 4 scoped []))
        (walk_find disk resolved 4 attach []))

abbrev pub as_png : Bytes → Option Bytes → Bytes × Text
as_png decoded none = (decoded, codes "wxgf")
as_png decoded (some p) = (p, codes "png")

-- What is written for a decoded image, and its extension.
unfoldable pub image_out : Tools → Bytes → Bytes × Text
image_out tools decoded =
    if starts_with (codes "wxgf") decoded
    then as_png decoded (wxgf_to_png tools decoded)
    else (decoded, sniff_image_ext decoded)

-- The bytes that pass the two tests on the decoded image.
unfoldable pub intact : Tools → Text → Bytes → Option Bytes
intact tools img_md5 decoded =
    if starts_with zstd decoded
    then none
    else if eq_ignore_ascii_case (md5_hex tools decoded) img_md5
    then some decoded
    else none

abbrev pub written_image :
    Tools → Faults → ExportCtx → Text → Text → Disk → Option Bytes → Disk × Option ExportedMedia
written_image tools faults ctx talker img_md5 disk none = (disk, none)
written_image tools faults ctx talker img_md5 disk (some decoded) =
    let out = image_out tools decoded in
    write_out faults ctx.export_dir talker (codes "images") (img_md5 ++ b'.' ∷ out.1) out.0 true
      disk

-- From the source, its bytes and the decoded bytes to those that may be written.
abbrev pub checked_decoded : Tools → Text → Option Bytes → Option Bytes
checked_decoded tools img_md5 decoded = decoded >>= intact tools img_md5

abbrev pub checked_raw : Tools → ExportCtx → Text → Option Bytes → Option Bytes
checked_raw tools ctx img_md5 raw =
    raw >>= λ r. checked_decoded tools img_md5 (decode_image tools ctx.media_keys r)

abbrev pub checked_source :
    Tools → Faults → ExportCtx → Text → Disk → Option FilePath → Option Bytes
checked_source tools faults ctx img_md5 disk src =
    src >>= λ p. checked_raw tools ctx img_md5 (read_file faults p disk)

unfoldable pub export_image :
    Tools → Faults → ExportCtx → Map AuxDb → Text → Text → Disk → Disk × Option ExportedMedia
export_image tools faults ctx aux talker img_md5 disk =
    let resolved =
      unwrap_or (lookup (codes "hardlink/hardlink.db") aux >>= λ db. db.image_file img_md5)
        (img_md5 ++ codes ".dat") in
    written_image tools faults ctx talker img_md5 disk
      (checked_source tools faults ctx img_md5 disk (image_source tools disk ctx talker resolved))

-- A fragment from its first `#!SILK` on, or all of it.
unfoldable pub silk_tail : Bytes → Option Bytes
silk_tail [] = none
silk_tail (b ∷ s) =
    let later = silk_tail s in if starts_with (codes "#!SILK") (b ∷ s) then some (b ∷ s) else later

abbrev pub voice_bytes : List (Option Bytes) → Bytes
voice_bytes [] = []
voice_bytes (none ∷ frags) = voice_bytes frags
voice_bytes (some frag ∷ frags) = unwrap_or (silk_tail frag) frag ++ voice_bytes frags

-- The first database that has bytes for the message.
unfoldable pub find_voice : ℤ → List AuxDb → Option Bytes
find_voice svr_id [] = none
find_voice svr_id (db ∷ dbs) =
    let rest = find_voice svr_id dbs in
    let bytes = voice_bytes (unwrap_or (db.voice_data svr_id) []) in
    if length bytes == 0 then rest else some bytes

abbrev pub written_voice :
    Faults → ExportCtx → Text → ℤ → Disk → Option Bytes → Disk × Option ExportedMedia
written_voice faults ctx talker svr_id disk none = (disk, none)
written_voice faults ctx talker svr_id disk (some bytes) =
    write_out faults ctx.export_dir talker (codes "voices")
      (codes "voice_" ++ print_ℤ svr_id ++ codes ".silk") bytes false disk

abbrev pub written_video :
    Faults → ExportCtx → Text → Text × Bool → Disk → Option Bytes → Disk × Option ExportedMedia
written_video faults ctx talker name disk none = (disk, none)
written_video faults ctx talker name disk (some bytes) =
    if starts_with magic_v1 bytes || starts_with magic_v2 bytes
    then (disk, none)
    else write_out faults ctx.export_dir talker (codes "videos") name.0 bytes name.1 disk

abbrev pub video_name : Text → Option Text → Text × Bool
video_name video_md5 (some name) = (name, false)
video_name video_md5 none = (video_md5 ++ codes ".mp4", true)

unfoldable pub export_video :
    Faults → ExportCtx → Map AuxDb → Text → Text → Disk → Disk × Option ExportedMedia
export_video faults ctx aux talker video_md5 disk =
    let name =
      video_name video_md5
        (lookup (codes "hardlink/hardlink.db") aux >>= λ db. db.video_file video_md5) in
    let video_root = ctx.account_dir ++ codes "msg" ∷ codes "video" ∷ [] in
    written_video faults ctx talker name disk
      (first_path (walk_find disk name.0 3 video_root []) >>= λ src. read_file faults src disk)

abbrev nonempty : Text → Option Text
nonempty url = if is_empty url then none else some url

abbrev linked_emoji : Text → Text → ExportedMedia
linked_emoji emoji_md5 url = record {
  file_name = emoji_md5 ++ codes ".gif";
  kind_dir = codes "emojis";
  local_path = [];
  external_url = some url;
  digest_named = true;
}

unfoldable pub export_emoji : Map AuxDb → Text → Option ExportedMedia
export_emoji aux emoji_md5 = do
  db ← lookup (codes "emoticon/emoticon.db") aux
  url ←
      or_else (db.cdn_url (codes "kNonStoreEmoticonTable") emoji_md5 >>= nonempty)
        (db.cdn_url (codes "EmoticonInfo") emoji_md5 >>= nonempty)
  some (linked_emoji emoji_md5 url)

-- A kind of media without the digest that it needs gives nothing.
abbrev pub with_md5 :
    Option Text → (Text → Disk → Disk × Option ExportedMedia) → Disk → Disk × Option ExportedMedia
with_md5 none f disk = (disk, none)
with_md5 (some md5) f disk = f md5 disk

unfoldable pub export_one :
    Tools
    → Faults
    → ExportCtx
    → Map AuxDb
    → Text
    → MediaKind
    → Option Text
    → ℤ
    → Disk
    → Disk × Option ExportedMedia
export_one tools faults ctx aux talker image md5 server_id disk =
    with_md5 md5 (export_image tools faults ctx aux talker) disk
export_one tools faults ctx aux talker voice md5 server_id disk =
    written_voice faults ctx talker server_id disk (find_voice server_id (values aux))
export_one tools faults ctx aux talker video md5 server_id disk =
    with_md5 md5 (export_video faults ctx aux talker) disk
export_one tools faults ctx aux talker emoji md5 server_id disk = (disk, md5 >>= export_emoji aux)
export_one tools faults ctx aux talker file md5 server_id disk = (disk, none)
