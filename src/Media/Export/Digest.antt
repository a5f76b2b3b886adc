-- ===== src/Media/Export/Digest.antt =====
-- src/media/export.rs: an exported image is the one that its digest names, and it can be fetched.
use weflow_server.Base.{
  ℕ, ◌<◌, Bool, true, false, ◌≡◌, refl, ◌∙◌, [], ◌∷◌, ◌++◌, Option, none, some, if◌then◌else◌, map,
  all, arith,
}
use mathlib.Core.Option.{some-injective}
use weflow_server.Base.Bytes.{Bytes}
use weflow_server.Base.Text.{Text, starts_with, codes, len, text_eq_iff, to_ascii_lower}
use weflow_server.Base.Map.{Map}
use weflow_server.Pathsafe.{FilePath, safe_segment}
use weflow_server.Base.Int.{ℤ}
use weflow_server.Parser.{image}
use weflow_server.Index.{eq_ignore_ascii_case}
use weflow_server.Media.Disk.{Disk, Faults, file_at, read_file}
use weflow_server.Media.Export.{
  ExportCtx, ExportedMedia, wxgf_to_png, AuxDb, Tools, md5_hex, before_last_dot, is_hex_digit,
  name_is_content_digest, sniff_image_ext,
}
use weflow_server.Media.Export.One.{
  export_one, decode_image, checked_decoded, checked_raw, checked_source, written_image, image_out,
  as_png, intact, export_image,
}
use weflow_server.Media.Export.Handles.{fetchable_media_id}
use weflow_server.Media.Export.Writes.{kind_path}
use weflow_server.Media.Export.Written.{write_out-written}

before_last_dot-append :
    (s ext : Text) → before_last_dot ext ≡ none → before_last_dot (s ++ b'.' ∷ ext) ≡ some s
unfolding before_last_dot
before_last_dot-append [] ext h = rw h refl
before_last_dot-append (c ∷ s) ext h = rw (before_last_dot-append s ext h) refl

either : {A : Type 0} (P : A → Type 0) (b : Bool) {x y : A} → P x → P y → P (if b then x else y)
either P true px py = px
either P false px py = py

-- The extensions that are ever written hold no dot.
sniff_image_ext-plain : (bytes : Bytes) → before_last_dot (sniff_image_ext bytes) ≡ none
unfolding sniff_image_ext before_last_dot
sniff_image_ext-plain bytes = ground arith

as_png-plain : (decoded : Bytes) (p : Option Bytes) → before_last_dot (as_png decoded p).1 ≡ none
unfolding before_last_dot
as_png-plain decoded none = refl
as_png-plain decoded (some p) = refl

image_out-plain :
    (tools : Tools) (decoded : Bytes) → before_last_dot (image_out tools decoded).1 ≡ none
unfolding image_out before_last_dot
image_out-plain tools decoded =
    either (λ (out : Bytes × Text). before_last_dot out.1 ≡ none)
      (starts_with (codes "wxgf") decoded) (as_png-plain decoded (wxgf_to_png tools decoded))
      (sniff_image_ext-plain decoded)

-- 32 hexadecimal digits, as `hex` writes the 16 bytes of a digest.
abbrev pub IsDigest : Text → Type 0
IsDigest s = (len s ≡ 32) × (all is_hex_digit s ≡ true)

folded-digit :
    (a b : ℕ)
    → to_ascii_lower a ≡ to_ascii_lower b
    → is_hex_digit a ≡ true
    → (is_hex_digit b ≡ true) × (a < 128) × (b < 128)
folded-digit a b h d = ground arith

folded-IsDigest :
    (s t : Text)
    → map to_ascii_lower s ≡ map to_ascii_lower t
    → all is_hex_digit s ≡ true
    → (all is_hex_digit t ≡ true) × (len t ≡ len s)
unfolding len
folded-IsDigest [] [] h d = (refl, refl)
folded-IsDigest [] (b ∷ t) h d = absurd cc
folded-IsDigest (a ∷ s) [] h d = absurd cc
folded-IsDigest (a ∷ s) (b ∷ t) h d = ground (arith, folded-digit a b, folded-IsDigest s t)

digest_name :
    (s ext : Text)
    → IsDigest s
    → before_last_dot ext ≡ none
    → name_is_content_digest (s ++ b'.' ∷ ext) ≡ true
unfolding name_is_content_digest
digest_name s ext h plain = rw (before_last_dot-append s ext plain, h.0, h.1) refl

named-IsDigest : (s t : Text) → IsDigest s → eq_ignore_ascii_case s t ≡ true → IsDigest t
unfolding eq_ignore_ascii_case
named-IsDigest s t h e =
    let f =
      folded-IsDigest s t ((text_eq_iff (map to_ascii_lower s) (map to_ascii_lower t)).0 e) h.1 in
    (f.1 ∙ h.0, f.0)

intact-digest :
    (tools : Tools) (img_md5 : Text) (raw decoded : Bytes)
    → intact tools img_md5 raw ≡ some decoded
    → eq_ignore_ascii_case (md5_hex tools decoded) img_md5 ≡ true
unfolding intact
intact-digest tools img_md5 raw decoded h = ground (arith, some-injective raw decoded)

-- What passes all stages of an export has the digest.
checked_decoded-digest :
    (tools : Tools) (img_md5 : Text) (out : Option Bytes) (decoded : Bytes)
    → checked_decoded tools img_md5 out ≡ some decoded
    → eq_ignore_ascii_case (md5_hex tools decoded) img_md5 ≡ true
checked_decoded-digest tools img_md5 none decoded h = absurd cc
checked_decoded-digest tools img_md5 (some raw) decoded h =
    intact-digest tools img_md5 raw decoded h

checked_raw-digest :
    (tools : Tools) (ctx : ExportCtx) (img_md5 : Text) (raw : Option Bytes) (decoded : Bytes)
    → checked_raw tools ctx img_md5 raw ≡ some decoded
    → eq_ignore_ascii_case (md5_hex tools decoded) img_md5 ≡ true
checked_raw-digest tools ctx img_md5 none decoded h = absurd cc
checked_raw-digest tools ctx img_md5 (some raw) decoded h =
    checked_decoded-digest tools img_md5 (decode_image tools ctx.media_keys raw) decoded h

checked_source-digest :
    (tools : Tools) (faults : Faults) (ctx : ExportCtx) (img_md5 : Text) (disk : Disk)
    (src : Option FilePath) (decoded : Bytes)
    → checked_source tools faults ctx img_md5 disk src ≡ some decoded
    → eq_ignore_ascii_case (md5_hex tools decoded) img_md5 ≡ true
checked_source-digest tools faults ctx img_md5 disk none decoded h = absurd cc
checked_source-digest tools faults ctx img_md5 disk (some p) decoded h =
    checked_raw-digest tools ctx img_md5 (read_file faults p disk) decoded h

-- What an answered image file is, with its digest and its handle.
abbrev pub IsImage : Tools → ExportCtx → Text → Text → ExportedMedia → Disk → Type 0
IsImage tools ctx talker img_md5 m after =
    (decoded : Bytes) × (eq_ignore_ascii_case (md5_hex tools decoded) img_md5 ≡ true)
    × (file_at m.local_path after ≡ some (image_out tools decoded).0)
    × (fetchable_media_id after ctx.export_dir talker m.kind_dir m.file_name ≡ some m.file_name)

fetchable-written :
    (export_dir : FilePath) (talker kind_dir name : Text) (bytes : Bytes) (disk : Disk)
    → safe_segment talker ≡ true
    → safe_segment name ≡ true
    → name_is_content_digest name ≡ true
    → file_at (kind_path export_dir talker kind_dir name) disk ≡ some bytes
    → fetchable_media_id disk export_dir talker kind_dir name ≡ some name
unfolding fetchable_media_id
fetchable-written export_dir talker kind_dir name bytes disk t n d f = rw (t, n, d, f) refl

written_image-IsImage :
    (tools : Tools) (faults : Faults) (ctx : ExportCtx) (talker img_md5 : Text) (disk : Disk)
    (out : Option Bytes) (m : ExportedMedia)
    → ((bytes : Bytes) → IsDigest (md5_hex tools bytes))
    → ((decoded : Bytes)
        → out ≡ some decoded
        → eq_ignore_ascii_case (md5_hex tools decoded) img_md5 ≡ true)
    → (written_image tools faults ctx talker img_md5 disk out).1 ≡ some m
    → IsImage tools ctx talker img_md5 m (written_image tools faults ctx talker img_md5 disk out).0
written_image-IsImage tools faults ctx talker img_md5 disk none m digests checked h = absurd cc
written_image-IsImage tools faults ctx talker img_md5 disk (some decoded) m digests checked h =
    let out = image_out tools decoded in
    let name : Text = img_md5 ++ b'.' ∷ out.1 in
    let same = checked decoded refl in
    let w =
      write_out-written faults ctx.export_dir talker (codes "images") name out.0 true disk m h in
    let is_digest = named-IsDigest (md5_hex tools decoded) img_md5 (digests decoded) same in
    let d = digest_name img_md5 out.1 is_digest (image_out-plain tools decoded) in
    (
      decoded,
      same,
      rw w.0 w.3,
      rw w.0 (fetchable-written ctx.export_dir talker (codes "images") name out.0 _ w.1 w.2 d w.3),
    )

-- An image is exported only when the decoded bytes have the digest that the message names, whatever
-- the case of its letters. The exported file holds these bytes, or the picture that ffmpeg makes of
-- them, and its name is a handle by which it can be fetched. The digests of the crate are 32
-- hexadecimal digits.
pub export_one-image :
    (tools : Tools) (faults : Faults) (ctx : ExportCtx) (aux : Map AuxDb) (talker img_md5 : Text)
    (server_id : ℤ) (disk : Disk) (m : ExportedMedia)
    → ((bytes : Bytes) → IsDigest (md5_hex tools bytes))
    → (export_one tools faults ctx aux talker image (some img_md5) server_id disk).1 ≡ some m
    → IsImage tools ctx talker img_md5 m
        (export_one tools faults ctx aux talker image (some img_md5) server_id disk).0
unfolding export_one export_image
export_one-image tools faults ctx aux talker img_md5 server_id disk m digests h =
    written_image-IsImage tools faults ctx talker img_md5 disk _ m digests
      (checked_source-digest tools faults ctx img_md5 disk _) h
