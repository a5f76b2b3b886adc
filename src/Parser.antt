-- ===== src/Parser.antt =====
-- src/parser/mod.rs: the parsed view of one message.
pub mod LocalType
pub mod Xml
pub mod Content
pub mod Message
use weflow_server.Base.{Bool, Option}
use weflow_server.Base.Int.{ℤ}
use weflow_server.Base.Text.{Text, codes}

pub data MediaKind : Type 0 where
  image voice video emoji file : MediaKind

unfoldable pub as_str : MediaKind → Text
as_str image = codes "image"
as_str voice = codes "voice"
as_str video = codes "video"
as_str emoji = codes "emoji"
as_str file = codes "file"

pub record MediaHint : Type 0 where
  pub kind : MediaKind
  pub file_name : Text
  pub md5 : Option Text
  pub aes_key : Option Text

pub record QuoteInfo : Type 0 where
  pub platform_message_id : Text
  pub sender : Text
  pub content : Text
  pub msg_type : ℤ

pub record RevokeInfo : Type 0 where
  pub msg_id : Option Text
  pub new_msg_id : Option Text
  pub replace_msg : Option Text

pub record ParsedMsg : Type 0 where
  pub display : Text
  pub raw_content : Text
  pub parsed_text : Text
  pub media : Option MediaHint
  pub reply_to : Option Text
  pub quote : Option QuoteInfo
  pub revoke : Option RevokeInfo
