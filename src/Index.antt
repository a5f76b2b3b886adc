-- ===== src/Index.antt =====
-- src/store/index.rs: the columns of a table, found under the names that the versions of the client
-- give them, and the rows that are read through them. SQLite is a parameter, with what it answers.
pub mod Columns
pub mod Sections
pub mod Rooms
pub mod Build
pub mod Full
pub mod Counts
pub mod Tally
pub mod Marks
pub mod Places
pub mod Rosters
use weflow_server.Base.{
  ℕ, zero, suc, ◌+◌, Bool, true, false, not, ◌&&◌, ◌||◌, List, [], ◌∷◌, ◌++◌, Option, none, some,
  if◌then◌else◌, or_else, unwrap_or, option_map, is_some, keep_if, ◌>>=◌, get_elem?, any, find,
  length, map,
}
use weflow_server.Base.Int.{ℤ, pos, eqb_ℤ}
use weflow_server.Base.Bytes.{Bytes}
use weflow_server.Base.Text.{Text, codes, text_eq, is_empty, trim, to_ascii_lower}
use weflow_server.Base.Map.{Map, lookup}
use weflow_server.Parser.Content.{Decoders, decode_content}
use weflow_server.Parser.Message.{parse_message}
use weflow_server.Store.{Contact, MessageRecord, contact_name}

-- A value of SQLite. The bytes of a text need not be UTF-8; a float is none that is read here.
pub data Cell : Type 0 where
  null float : Cell
  integer : ℤ → Cell
  text : Bytes → Cell
  blob : Bytes → Cell

abbrev pub Row : Type 0
Row = List Cell

-- What a query gives: its rows, and whether reading ends with an error behind them.
pub record Rows : Type 0 where
  pub rows : List Row
  pub broken : Bool

-- An open database: the columns of a table, none if there is no such table; the first tables by
-- name; the rows of a table, as the columns asked for in the order of others; and the rows of the
-- one join. `none` is a query that SQLite refuses.
pub record Connection : Type 0 where
  pub table_columns : Text → List Text
  pub table_names : ℕ → List Text
  pub select : Text → List Text → List Text → Option Rows
  pub card_rows : Option Rows

unfoldable pub eq_ignore_ascii_case : Text → Text → Bool
eq_ignore_ascii_case a b = text_eq (map to_ascii_lower a) (map to_ascii_lower b)

-- The first name of the group that a column has, in whatever case, as the column spells it.
unfoldable pub pick : List Text → List Text → Option Text
pick cols [] = none
pick cols (name ∷ group) = or_else (find (λ c. eq_ignore_ascii_case c name) cols) (pick cols group)

-- The getters answer for a missing column and for a value of another type alike.
unfoldable pub get_opt_str : Decoders → Row → ℕ → Option Text
get_opt_str d row i = elim (get_elem? row i) [
  | some (text b) ↦ option_map trim (d.from_utf8 b)
  | _ ↦ none
]

unfoldable pub get_i64 : Row → ℕ → ℤ
get_i64 row i = elim (get_elem? row i) [ some (integer z) ↦ z | _ ↦ pos 0 ]

unfoldable pub get_opt_blob : Row → ℕ → Option Bytes
get_opt_blob row i = elim (get_elem? row i) [ some (blob b) ↦ some b | _ ↦ none ]

unfoldable pub get_opt_bytes : Row → ℕ → Option Bytes
get_opt_bytes row i = elim (get_elem? row i) [
  | some (text b) ↦ some b
  | some (blob b) ↦ some b
  | _ ↦ none
]

-- `MSG_COLUMNS`
abbrev pub local_names : List Text
local_names = codes "local_id" ∷ codes "localId" ∷ codes "id" ∷ []

abbrev pub server_names : List Text
server_names = codes "server_id" ∷ codes "serverId" ∷ codes "msg_svr_id" ∷ codes "msgSvrId" ∷ []

abbrev pub kind_names : List Text
kind_names =
    codes "local_type" ∷ codes "localType" ∷ codes "type" ∷ codes "msg_type" ∷ codes "msgType" ∷ []

abbrev pub time_names : List Text
time_names =
    codes "create_time" ∷ codes "createTime" ∷ codes "msg_create_time" ∷ codes "timestamp" ∷ []

abbrev pub seq_names : List Text
seq_names = codes "sort_seq" ∷ codes "sortSeq" ∷ codes "seq" ∷ codes "msg_seq" ∷ []

abbrev pub sender_names : List Text
sender_names =
    codes "sender_username" ∷ codes "senderUsername" ∷ codes "talker" ∷ codes "from_username" ∷ []

abbrev pub real_names : List Text
real_names =
    codes "real_sender_id" ∷ codes "realSenderId" ∷ codes "sender_rowid" ∷ codes "send_id" ∷ []

-- The columns of a message table, and the names in the order of the query. The positions, which the
-- source keeps beside them, are `position` of these.
pub record MsgCols : Type 0 where
  pub local : Text
  pub server : Option Text
  pub kind : Option Text
  pub time : Option Text
  pub seq : Option Text
  pub sender : Option Text
  pub real : Option Text
  pub content : Option Text
  pub compress : Option Text
  pub selected : List Text

-- Each further column once.
unfoldable pub select_once : List Text → List (Option Text) → List Text
select_once chosen [] = chosen
select_once chosen (none ∷ more) = select_once chosen more
select_once chosen (some c ∷ more) =
    select_once (if any (λ s. text_eq s c) chosen then chosen else chosen ++ c ∷ []) more

unfoldable pub probe_columns : List Text → Text → MsgCols
probe_columns cols local =
    let server = pick cols server_names in
    let kind = pick cols kind_names in
    let time = pick cols time_names in
    let seq = pick cols seq_names in
    let sender = pick cols sender_names in
    let real = pick cols real_names in
    let content = find (λ c. eq_ignore_ascii_case c (codes "message_content")) cols in
    let compress = find (λ c. eq_ignore_ascii_case c (codes "compress_content")) cols in
    record {
      local = local;
      server = server;
      kind = kind;
      time = time;
      seq = seq;
      sender = sender;
      real = real;
      content = content;
      compress = compress;
      selected =
          select_once (local ∷ [])
            (server ∷ kind ∷ time ∷ seq ∷ sender ∷ real ∷ content ∷ compress ∷ []);
    }

unfoldable pub probe : Connection → Text → Option MsgCols
probe conn table =
    let cols = conn.table_columns table in option_map (probe_columns cols) (pick cols local_names)

-- `selected.iter().position(|s| s == name)`; the length if there is none.
unfoldable pub position : Text → List Text → ℕ
position name [] = 0
position name (s ∷ selected) = if text_eq s name then 0 else suc (position name selected)

abbrev pub pos_of : MsgCols → Option Text → ℕ
pos_of m column = unwrap_or (option_map (λ c. position c m.selected) column) 0

pub record OwnedMsgRow : Type 0 where
  pub local_id : ℤ
  pub server_id : ℤ
  pub local_type : ℤ
  pub create_time : ℤ
  pub sort_seq : ℤ
  pub sender_username : Text
  pub content : Option Bytes
  pub compress : Option Bytes

-- `HashMap<i64, String>`
abbrev pub UidMap : Type 0
UidMap = List (ℤ × Text)

unfoldable pub lookup_uid : ℤ → UidMap → Option Text
lookup_uid k [] = none
lookup_uid k ((j, v) ∷ m) = if eqb_ℤ j k then some v else lookup_uid k m

abbrev pub filled : Text → Bool
filled s = not (is_empty s)

abbrev pub i64_at : MsgCols → Row → Option Text → ℤ
i64_at m row column = if is_some column then get_i64 row (pos_of m column) else pos 0

-- The sender's name if the row has it, or else that of the sender's number.
abbrev pub named_sender : Decoders → MsgCols → Row → UidMap → Text
named_sender d m row name2id =
    let name =
      if is_some m.sender
      then unwrap_or (keep_if filled (get_opt_str d row (pos_of m m.sender))) []
      else [] in
    if is_empty name && is_some m.real
    then unwrap_or (lookup_uid (get_i64 row (pos_of m m.real)) name2id) []
    else name

unfoldable pub extract : Decoders → MsgCols → Row → UidMap → OwnedMsgRow
extract d m row name2id = record {
  local_id = get_i64 row 0;
  server_id = i64_at m row m.server;
  local_type = i64_at m row m.kind;
  create_time = i64_at m row m.time;
  sort_seq = i64_at m row m.seq;
  sender_username = named_sender d m row name2id;
  content = if is_some m.content then get_opt_bytes row (pos_of m m.content) else none;
  compress = if is_some m.compress then get_opt_blob row (pos_of m m.compress) else none;
}

abbrev pub is_name_of : Text → Text → Bool
is_name_of username s = filled s && not (text_eq s username)

unfoldable pub row_to_record : Decoders → OwnedMsgRow → Text → Map Contact → MessageRecord
row_to_record d row my_wxid contacts =
    let content =
      unwrap_or (decode_content d row.compress row.content row.sender_username)
        (d.from_utf8_lossy (unwrap_or row.content [])) in
    record {
      local_id = row.local_id;
      server_id = row.server_id;
      local_type = row.local_type;
      create_time = row.create_time;
      sort_seq = row.sort_seq;
      is_send = filled row.sender_username && text_eq row.sender_username my_wxid;
      sender_username = row.sender_username;
      sender_name =
          unwrap_or
            (keep_if (is_name_of row.sender_username)
              (option_map contact_name (lookup row.sender_username contacts)))
            row.sender_username;
      parsed = parse_message row.local_type row.server_id row.local_id content;
    }
