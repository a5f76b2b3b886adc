-- ===== src/Media/Export.antt =====
-- src/media/export.rs: the source of a message's media is found below the account's directory,
-- decoded, and copied into the export directory. The hash and the block cipher are other crates',
-- ffmpeg is another program, and the answers of the auxiliary databases are parameters. Names that
-- the code joins to a directory to write there are resolved by `join`; where it only reads, a name
-- that itself holds a separator names no file of the model.
pub mod One
pub mod Place
pub mod Writes
pub mod Written
pub mod Handles
pub mod Digest
pub mod Batch
use weflow_server.Base.{
  ℕ, zero, suc, ◌+◌, Bool, true, false, ◌&&◌, ◌||◌, ◌≡◌, List, [], ◌∷◌, ◌++◌, Option, none, some,
  if◌then◌else◌, not, is_some, ltb, leb, ◌==◌, ◌>>=◌, length, take, drop, all, map, unwrap_or,
  or_else,
}
use weflow_server.Base.Bytes.{Bytes, slice}
use weflow_server.Base.Int.{ℤ}
use weflow_server.Base.Text.{Text, codes, text_eq, is_empty, starts_with, is_ascii_digit, len}
use weflow_server.Base.Map.{Map, lookup, insert, values}
use weflow_server.Base.Decimal.{print_ℤ}
use weflow_server.Pathsafe.{FilePath, safe_segment}
use weflow_server.Pathsafe.Resolve.{join}
use weflow_server.Parser.{MediaKind, image, voice, video, emoji, file}
use weflow_server.Index.{eq_ignore_ascii_case}
use weflow_server.Keys.{Codecs, ImageKeys}
use weflow_server.Media.{
  magic_v1, magic_v2, v1_fixed_aes_key, DatFormat, v1, v2, legacy_xor, detect_format, BlockCipher,
  decrypt_dat_payload, decrypt_dat_legacy,
}
use weflow_server.Media.Disk.{Disk, Faults, read_file, write_file, rename_file, read_dir, is_file}

-- The part of `s.rsplit_once('.')` before the dot.
unfoldable pub before_last_dot : Text → Option Text
before_last_dot [] = none
before_last_dot (c ∷ s) = elim (before_last_dot s) [
  | some t ↦ some (c ∷ t)
  | none ↦ if c == b'.' then some [] else none
]

abbrev pub stem_of : Text → Text
stem_of name = unwrap_or (before_last_dot name) name

abbrev pub is_hex_digit : ℕ → Bool
is_hex_digit c = is_ascii_digit c || leb b'a' c && leb c b'f' || leb b'A' c && leb c b'F'

unfoldable pub name_is_content_digest : Text → Bool
name_is_content_digest name = len (stem_of name) == 32 && all is_hex_digit (stem_of name)

abbrev pub jpeg : Bytes
jpeg = 0xFF ∷ 0xD8 ∷ 0xFF ∷ []

abbrev pub png : Bytes
png = 0x89 ∷ b'P' ∷ b'N' ∷ b'G' ∷ []

abbrev pub zstd : Bytes
zstd = 0x28 ∷ 0xB5 ∷ 0x2F ∷ 0xFD ∷ []

unfoldable pub sniff_image_ext : Bytes → Text
sniff_image_ext bytes =
    if starts_with (codes "wxgf") bytes
    then codes "wxgf"
    else if starts_with jpeg bytes
    then codes "jpg"
    else if starts_with png bytes
    then codes "png"
    else if starts_with (codes "GIF8") bytes
    then codes "gif"
    else if ltb 12 (length bytes)
        && text_eq (slice 0 4 bytes) (codes "RIFF")
        && text_eq (slice 8 12 bytes) (codes "WEBP")
    then codes "webp"
    else if starts_with (codes "BM") bytes
    then codes "bmp"
    else codes "bin"

pub record ExportCtx : Type 0 where
  pub account_dir : FilePath
  pub export_dir : FilePath
  pub media_keys : Option ImageKeys

-- A path that is empty stands for no local file.
pub record ExportedMedia : Type 0 where
  pub file_name : Text
  pub kind_dir : Text
  pub local_path : FilePath
  pub external_url : Option Text
  pub digest_named : Bool

-- The answers of one auxiliary database: the file names of images and videos, the fragments of a
-- voice message (none where the query fails), and the address of an emoji in a table.
pub record AuxDb : Type 0 where
  pub image_file : Text → Option Text
  pub video_file : Text → Option Text
  pub voice_data : ℤ → Option (List (Option Bytes))
  pub cdn_url : Text → Text → Option Text

-- The other programs and crates. `ffmpeg` answers the picture that it writes.
pub record Tools : Type 0 where
  pub codecs : Codecs
  pub decrypt_block : BlockCipher
  pub ffmpeg : Bytes → Option Bytes

-- `format!("{:x}", md5)`
abbrev pub md5_hex : Tools → Bytes → Text
md5_hex tools bytes = tools.codecs.hex_encode (tools.codecs.md5 bytes)

unfoldable pub wxgf_to_png : Tools → Bytes → Option Bytes
wxgf_to_png tools bytes = tools.ffmpeg bytes >>= λ p. if starts_with png p then some p else none

-- The loop of `walk_find` over the entries of a directory, which stops at four finds.
abbrev pub walk_entries :
    (FilePath → List FilePath → List FilePath)
    → FilePath
    → Text
    → List (Text × Bool)
    → List FilePath
    → List FilePath
walk_entries deeper root pattern [] out = out
walk_entries deeper root pattern ((name, is_dir) ∷ entries) out =
    let next : List FilePath =
      if is_dir
      then deeper (root ++ name ∷ []) out
      else if text_eq name pattern
      then out ++ (root ++ name ∷ []) ∷ []
      else out in
    let rest = walk_entries deeper root pattern entries next in
    if leb 4 (length next) then next else rest

unfoldable pub walk_find : Disk → Text → ℕ → FilePath → List FilePath → List FilePath
walk_find disk pattern zero root out = out
walk_find disk pattern (suc depth) root out =
    let walked =
      walk_entries (walk_find disk pattern depth) root pattern (read_dir root disk) out in
    if leb 4 (length out) then out else walked

abbrev pub file_media : FilePath → Text → Text → Bool → ExportedMedia
file_media path kind_dir file_name digest_named = record {
  file_name = file_name;
  kind_dir = kind_dir;
  local_path = path;
  external_url = none;
  digest_named = digest_named;
}

abbrev pub tmp_name : Text → Text
tmp_name file_name = codes "." ++ file_name ++ codes ".tmp"

-- The rename, once the temporary file is there.
abbrev pub renamed :
    Faults → FilePath → FilePath → ExportedMedia → Disk × Bool → Disk × Option ExportedMedia
renamed faults tmp path m (disk, false) = (disk, none)
renamed faults tmp path m (disk, true) =
    let r = rename_file faults tmp path disk in (r.0, if r.1 then some m else none)

abbrev pub is_content : Bytes → Option Bytes → Bool
is_content bytes none = false
is_content bytes (some existing) = text_eq existing bytes

-- The end of `write_out`, once the paths are joined.
abbrev pub placed :
    Faults
    → FilePath
    → FilePath
    → FilePath
    → Text
    → Text
    → Bytes
    → Bool
    → Disk
    → Disk × Option ExportedMedia
placed faults dir path tmp kind_dir file_name bytes digest_named disk =
    let m = file_media path kind_dir file_name digest_named in
    if not (faults.creates dir)
    then (disk, none)
    else if is_content bytes (read_file faults path disk)
    then (disk, some m)
    else renamed faults tmp path m (write_file faults tmp bytes disk)

unfoldable pub write_out :
    Faults → FilePath → Text → Text → Text → Bytes → Bool → Disk → Disk × Option ExportedMedia
write_out faults export_dir talker kind_dir file_name bytes digest_named disk =
    let dir = join export_dir talker ++ kind_dir ∷ [] in
    if not (safe_segment talker) || not (safe_segment file_name)
    then (disk, none)
    else placed faults dir (join dir file_name) (join dir (tmp_name file_name)) kind_dir file_name
        bytes digest_named disk
