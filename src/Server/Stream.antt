-- ===== src/Server/Stream.antt =====
-- src/server/handlers/push_events.rs: the stream of events to one client. What the stream takes from
-- its receiver, and the end of the server, are the signals; the disk is the one at the time of a
-- frame. The pings that keep the connection open carry nothing and are left out.
pub mod Numbers
use weflow_server.Base.{
  ℕ, Bool, List, [], ◌∷◌, ◌++◌, Option, none, some, if◌then◌else◌, unwrap_or, option_map, map,
  or_else, ◌>>=◌,
}
use weflow_server.Base.Int.{ℤ}
use weflow_server.Base.Text.{Text, codes}
use weflow_server.Base.Decimal.{parse_u64}
use weflow_server.Base.Map.{lookup}
use weflow_server.Pathsafe.{FilePath}
use weflow_server.Store.{Watermark}
use weflow_server.Sync.{
  Event, baseline, new_message, revoked, NewMessageEvent, RevokeEvent, PushMedia,
}
use weflow_server.Sync.History.Bus.{Broadcast, EventBus, subscribe_with_replay}
use weflow_server.Media.Disk.{Disk}
use weflow_server.Media.Export.Handles.{fetchable_media_id}
use weflow_server.Server.Auth.{Encode, authorized}
use weflow_server.Server.Params.{Params}

pub record EventMedia : Type 0 where
  pub media_id : Option Text
  pub file_name : Text
  pub md5 : Option Text
  pub kind : Text

pub record EventNew : Type 0 where
  pub content : Text
  pub event : Text
  pub group_name : Option Text
  pub media : Option EventMedia
  pub rawid : Text
  pub session_id : Text
  pub session_type : Text
  pub source_name : Text
  pub timestamp : ℤ

pub record EventRevoke : Type 0 where
  pub content : Text
  pub event : Text
  pub group_name : Option Text
  pub rawid : Text
  pub session_id : Text
  pub session_type : Text
  pub source_name : Text
  pub timestamp : ℤ

-- `EventSync` holds the generation of the process and the watermarks by their tables.
pub data Payload : Type 0 where
  event_new : EventNew → Payload
  event_revoke : EventRevoke → Payload
  event_sync : ℕ → List (Text × Watermark) → Payload

-- The name of a frame and its payload, from the export directory, the disk and an event.
abbrev pub Serializer : Type 0
Serializer = FilePath → Disk → Event → Text × Payload

abbrev pub event_media : FilePath → Disk → Text → PushMedia → EventMedia
event_media export_dir disk session_id md = record {
  media_id = md.kind_dir >>= λ dir. fetchable_media_id disk export_dir session_id dir md.file_name;
  file_name = md.file_name;
  md5 = md.md5;
  kind = md.kind;
}

unfoldable pub serialize_event : ℕ → Serializer
serialize_event generation export_dir disk (new_message m) = (
  codes "message.new",
  event_new record {
    content = m.content;
    event = codes "message.new";
    group_name = m.group_name;
    media = option_map (event_media export_dir disk m.session_id) m.media;
    rawid = m.rawid;
    session_id = m.session_id;
    session_type = m.session_type;
    source_name = m.source_name;
    timestamp = m.timestamp;
  },
)
serialize_event generation export_dir disk (revoked r) = (
  codes "message.revoke",
  event_revoke record {
    content = r.content;
    event = codes "message.revoke";
    group_name = r.group_name;
    rawid = r.rawid;
    session_id = r.session_id;
    session_type = r.session_type;
    source_name = r.source_name;
    timestamp = r.timestamp;
  },
)
serialize_event generation export_dir disk (baseline wms) =
    (codes "sync", event_sync generation wms)

-- A frame of the stream; the first one has no payload of an event.
pub record Frame : Type 0 where
  pub id : Option ℕ
  pub event : Text
  pub payload : Option Payload

abbrev pub frame_of : Option ℕ → Text × Payload → Frame
frame_of id p = record { id = id; event = p.0; payload = some p.1 }

abbrev pub ready_frame : Frame
ready_frame = record { id = none; event = codes "ready"; payload = none }

-- What the stream waits for: the end of the server, the end of the channel, an event with its id, or
-- that events were lost, with the watermarks of that time.
pub data Signal : Type 0 where
  shutdown closed : Signal
  stamped : ℕ × Event → Signal
  lagged : List (Text × Watermark) → Signal

module _ (serialize : Serializer) (export_dir : FilePath) (disks : ℕ → Disk) where
  abbrev pub event_frame : ℕ × Event → Frame
  event_frame p = frame_of (some p.0) (serialize export_dir (disks p.0) p.1)

  abbrev pub sync_frame : List (Text × Watermark) → Frame
  sync_frame wms = frame_of none (serialize export_dir (disks 0) (baseline wms))

  -- The loop over what is received. After a loss the present watermarks follow, without an id.
  unfoldable pub live_frames : List Signal → List Frame
  live_frames [] = []
  live_frames (shutdown ∷ signals) = []
  live_frames (closed ∷ signals) = []
  live_frames (stamped p ∷ signals) = event_frame p ∷ live_frames signals
  live_frames (lagged wms ∷ signals) = sync_frame wms ∷ live_frames signals

  -- First the greeting, then the replay, then the present watermarks, and then what comes in.
  unfoldable pub sse_frames : List (ℕ × Event) → List (Text × Watermark) → List Signal → List Frame
  sse_frames replay wms signals =
      ready_frame ∷ (map event_frame replay ++ sync_frame wms ∷ live_frames signals)

-- The id that a client names, in a header or as a parameter.
unfoldable pub last_event_id : Option Text → Params → ℕ
last_event_id header query =
    unwrap_or (or_else (header >>= parse_u64) (lookup (codes "lastEventId") query >>= parse_u64)) 0

-- The handler: `none` refuses a request without the credential.
unfoldable pub push_messages :
    Encode
    → Text
    → ℕ
    → FilePath
    → (ℕ → Disk)
    → (net : Broadcast (ℕ × Event)) → ℕ
    → EventBus net
    → Params
    → Option Text
    → Option Text
    → List (Text × Watermark)
    → List Signal
    → Option (List Frame)
push_messages encode token generation export_dir disks net now bus query authorization last_id wms
      signals =
    let since = last_event_id last_id query in
    if authorized encode token query authorization
    then some (
        sse_frames (serialize_event generation) export_dir disks
          (subscribe_with_replay net now since bus).2 wms signals)
    else none
