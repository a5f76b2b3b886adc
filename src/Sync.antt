-- ===== src/Sync.antt =====
-- src/sync: the events, the bus that replays them, and the poll that applies new rows.
pub mod Apply
pub mod Drain
pub mod History
pub mod Poll
use weflow_server.Base.{Option, none, some, List, option_map}
use weflow_server.Base.Int.{ℤ}
use weflow_server.Base.Text.{Text, codes}
use weflow_server.Parser.{MediaKind, image, voice, video, emoji, file, MediaHint, as_str}
use weflow_server.Store.{Watermark}

-- `kind_dir_for` of src/media/export.rs
unfoldable pub kind_dir_for : MediaKind → Option Text
kind_dir_for image = some (codes "images")
kind_dir_for voice = some (codes "voices")
kind_dir_for video = some (codes "videos")
kind_dir_for emoji = some (codes "emojis")
kind_dir_for file = none

pub record PushMedia : Type 0 where
  pub kind : Text
  pub kind_dir : Option Text
  pub file_name : Text
  pub md5 : Option Text

-- `PushMedia::from`: the decryption key of the hint is not passed on.
unfoldable pub push_media : MediaHint → PushMedia
push_media m = record {
  kind = as_str m.kind;
  kind_dir = kind_dir_for m.kind;
  file_name = m.file_name;
  md5 = m.md5;
}

pub record NewMessageEvent : Type 0 where
  pub session_id : Text
  pub session_type : Text
  pub rawid : Text
  pub source_name : Text
  pub group_name : Option Text
  pub content : Text
  pub timestamp : ℤ
  pub media : Option PushMedia

pub record RevokeEvent : Type 0 where
  pub session_id : Text
  pub session_type : Text
  pub rawid : Text
  pub source_name : Text
  pub group_name : Option Text
  pub content : Text
  pub timestamp : ℤ

pub data Event : Type 0 where
  baseline : List (Text × Watermark) → Event
  new_message : NewMessageEvent → Event
  revoked : RevokeEvent → Event
