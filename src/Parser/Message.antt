-- ===== src/Parser/Message.antt =====
-- `parse_message` of src/parser/mod.rs and the extractors that it calls.
pub mod Laws
pub mod FileName
use mathlib.Core.List.{◌++◌}
use weflow_server.Base.{
  ℕ, Bool, true, false, not, ◌&&◌, ◌||◌, List, [], ◌∷◌, map, Option, none, some, ◌==◌,
  if◌then◌else◌, ◌>>=◌, or_else, unwrap_or, option_map, is_some, take,
}
use weflow_server.Base.Int.{ℤ, pos, negsuc}
use weflow_server.Base.Text.{
  text_ops, Text, codes, text_eq, is_empty, contains, trim, trim_end_matches, is_control,
}
use weflow_server.Base.Decimal.{decimal_ops, print_ℤ, parse_i64}
use weflow_server.Parser.{
  MediaKind, image, voice, video, emoji, file, MediaHint, QuoteInfo, RevokeInfo, ParsedMsg,
}
use weflow_server.Parser.Xml.{
  xml_ops, attr, elem_text, elem_text_unwrapped, strip_elem, strip_tags, is_xml, between, open_tag,
  close_tag,
}
use weflow_server.Parser.LocalType.{
  local_type_ops, split_local_type, placeholder_for, subtype_of, is_six,
}

abbrev extension_of : Option Text → Text
extension_of none = codes "jpg"
extension_of (some t) =
    if text_eq t (codes "2")
    then codes "png"
    else if text_eq t (codes "3")
    then codes "gif"
    else if text_eq t (codes "4")
    then codes "webp"
    else codes "jpg"

unfoldable pub image_ext : Text → Text
image_ext xml = extension_of (attr xml (codes "type"))

abbrev pub is_reserved_char : ℕ → Bool
is_reserved_char c =
    c == b'<'
    || c == b'>'
    || c == b':'
    || c == b'"'
    || c == b'/'
    || c == b'\\'
    || c == b'|'
    || c == b'?'
    || c == b'*'
    || is_control c

abbrev pub clean_char : ℕ → ℕ
clean_char c = if is_reserved_char c then b'_' else c

unfoldable pub sanitize_file_name : Text → Text
sanitize_file_name name =
    let trimmed = trim_end_matches (λ c. c == b'.') (trim (map clean_char name)) in
    if is_empty trimmed then codes "file" else trimmed

abbrev is_none {ℓ} : {A : Type ℓ} → Option A → Bool
is_none o = not (is_some o)

abbrev value_of : Text → Text → Option Text
value_of xml name = or_else (elem_text xml name) (attr xml name)

unfoldable pub extract_revoke : Text → Option RevokeInfo
extract_revoke xml =
    let info : RevokeInfo = record {
      msg_id = value_of xml (codes "msgid");
      new_msg_id = value_of xml (codes "newmsgid");
      replace_msg = value_of xml (codes "replacemsg");
    } in
    if contains (codes "revokemsg") xml
      || contains (codes "replacemsg") xml
      || contains (codes "revoke") xml
      || contains (codes "撤回") xml
    then (if is_none info.msg_id && is_none info.new_msg_id && is_none info.replace_msg
        then none
        else some info)
    else none

unfoldable pub extract_refermsg : Text → Option QuoteInfo
extract_refermsg xml = do
  inner ← between (codes "<refermsg>") (codes "</refermsg>") xml
  some (record {
    platform_message_id = unwrap_or (value_of inner (codes "svrid")) [];
    sender = unwrap_or (value_of inner (codes "chatusr")) [];
    content = strip_tags (unwrap_or (elem_text inner (codes "content")) []);
    msg_type = unwrap_or (elem_text inner (codes "type") >>= parse_i64) (pos 0);
  })

abbrev stripped_or_start : Text → Text
stripped_or_start xml = let text = strip_tags xml in if is_empty text then take 64 xml else text

abbrev system_text_of : Option RevokeInfo → Text → Text
system_text_of (some r) xml = unwrap_or r.replace_msg (codes "撤回了一条消息")
system_text_of none xml =
    unwrap_or
      (or_else (elem_text xml (codes "content_template")) (elem_text xml (codes "template")))
      (stripped_or_start xml)

unfoldable pub parse_system_text : Text → Text
parse_system_text xml = system_text_of (extract_revoke xml) xml

-- `<md5>.<ext>`, or `<stem><id>.<ext>` with no md5.
abbrev pub named : Option Text → Text → Text → ℤ → Text
named (some m) ext stem id = m ++ (codes "." ++ ext)
named none ext stem id = stem ++ (print_ℤ id ++ (codes "." ++ ext))

unfoldable pub image_hint : ℤ → Text → MediaHint
image_hint local_id xml =
    let md5 = or_else (attr xml (codes "md5")) (attr xml (codes "cdnthumbmd5")) in
    record {
      kind = image;
      file_name = named md5 (image_ext xml) (codes "img_") local_id;
      md5 = md5;
      aes_key = attr xml (codes "aeskey");
    }

unfoldable pub voice_hint : ℤ → Text → MediaHint
voice_hint server_id xml = record {
  kind = voice;
  file_name = codes "voice_" ++ (print_ℤ server_id ++ codes ".silk");
  md5 = attr xml (codes "md5");
  aes_key = attr xml (codes "aeskey");
}

unfoldable pub video_hint : ℤ → Text → MediaHint
video_hint local_id xml =
    let md5 = or_else (attr xml (codes "md5")) (attr xml (codes "cdnvideomd5")) in
    record {
      kind = video;
      file_name = named md5 (codes "mp4") (codes "video_") local_id;
      md5 = md5;
      aes_key = attr xml (codes "aeskey");
    }

unfoldable pub emoji_hint : ℤ → Text → MediaHint
emoji_hint local_id xml =
    let md5 = attr xml (codes "md5") in
    record {
      kind = emoji;
      file_name = named md5 (codes "gif") (codes "emoji_") local_id;
      md5 = md5;
      aes_key = none;
    }

abbrev own_value : Text → Text → Option Text
own_value own name = or_else (elem_text_unwrapped own name) (attr own name)

abbrev title_name : Option Text → ℤ → Text
title_name (some t) local_id = sanitize_file_name t
title_name none local_id = codes "file_" ++ print_ℤ local_id

unfoldable pub file_hint : ℤ → Text → MediaHint
file_hint local_id xml =
    let own = strip_elem xml (codes "refermsg") in
    record {
      kind = file;
      file_name = title_name (own_value own (codes "title")) local_id;
      md5 = own_value own (codes "md5");
      aes_key = own_value own (codes "aeskey");
    }

-- The values that the `match base` of `parse_message` assigns.
pub record Rich : Type 0 where
  pub media : Option MediaHint
  pub reply_to : Option Text
  pub quote : Option QuoteInfo
  pub revoke : Option RevokeInfo

abbrev pub no_rich : Rich
no_rich = record { media = none; reply_to = none; quote = none; revoke = none }

abbrev pub with_media : MediaHint → Rich
with_media hint = record no_rich { media = some hint }

unfoldable pub rich_appmsg : ℤ → ℤ → Text → Rich
rich_appmsg local_type local_id xml =
    let quote = extract_refermsg xml in
    record {
      media = if is_six (subtype_of local_type xml) then some (file_hint local_id xml) else none;
      reply_to = option_map (λ (q : QuoteInfo). q.platform_message_id) quote;
      quote = quote;
      revoke = none;
    }

unfoldable pub rich_of : ℤ → ℤ → ℤ → ℤ → Text → Rich
rich_of (negsuc n) local_type server_id local_id xml = no_rich
rich_of (pos n) local_type server_id local_id xml =
    if n == 3
    then with_media (image_hint local_id xml)
    else if n == 34
    then with_media (voice_hint server_id xml)
    else if n == 43
    then with_media (video_hint local_id xml)
    else if n == 47
    then with_media (emoji_hint local_id xml)
    else if n == 49
    then rich_appmsg local_type local_id xml
    else if n == 10000 || n == 10002
    then record no_rich { revoke = extract_revoke xml }
    else no_rich

abbrev pub is_system : ℤ → Bool
is_system (negsuc n) = false
is_system (pos n) = n == 10000 || n == 10002

unfoldable pub plain_text : Text → Text
plain_text content = if is_xml content then strip_tags content else content

abbrev display_of : Option Text → ℤ → Text → Text
display_of (some p) base content = p
display_of none base content =
    if is_system base then parse_system_text content else plain_text content

unfoldable pub parse_message : ℤ → ℤ → ℤ → Text → ParsedMsg
parse_message local_type server_id local_id content =
    let base = (split_local_type local_type).0 in
    let display = display_of (placeholder_for local_type) base content in
    let rich =
      if is_xml content then rich_of base local_type server_id local_id content else no_rich in
    record {
      display = display;
      raw_content = content;
      parsed_text = if is_system base then display else plain_text content;
      media = rich.media;
      reply_to = rich.reply_to;
      quote = rich.quote;
      revoke = rich.revoke;
    }

-- The line that a test names to see through all of these, and through what they call.
unfoldable pub message_ops : Unit {0}
unfolding text_ops xml_ops local_type_ops decimal_ops image_ext sanitize_file_name extract_revoke
    extract_refermsg parse_system_text image_hint voice_hint video_hint emoji_hint file_hint
    rich_appmsg rich_of plain_text parse_message
message_ops = tt
