-- ===== src/Tests/Building.antt =====
-- src/store/index.rs and src/store/group_meta.rs on concrete inputs.
use weflow_server.Base.{◌≡◌, refl, false, List, [], ◌∷◌, none, some, map, ◌%◌, if◌then◌else◌}
use weflow_server.Base.Int.{pos}
use weflow_server.Base.Text.{Text, codes, text_eq, text_ops}
use weflow_server.Base.Map.{map_ops}
use weflow_server.Parser.Content.{Decoders}
use weflow_server.Store.{MessageRecord, Watermark, total_messages}
use weflow_server.Db.{DbFile, message}
use weflow_server.Db.Live.{Sqlite, empty_pool}
use weflow_server.Sync.Drain.{max_watermark, before}
use weflow_server.Sync.Drain.Complete.{behind}
use weflow_server.Index.{
  Cell, integer, text, Row, Connection, pick, eq_ignore_ascii_case, MsgCols, select_once,
  probe_columns, probe, position, extract, UidMap, row_to_record, get_i64,
}
use weflow_server.Index.Columns.{row_by_name, extract-probe}
use weflow_server.Index.Rosters.{AreOnce}
use weflow_server.Index.Build.{
  word, IndexProgress, Source, load_message_table, add_rows, row_indexed,
}
use weflow_server.Index.Full.{build_all_live}
use weflow_server.Index.Tally.{build_all_live-Agrees}
use weflow_server.Index.Marks.{load_message_table-behind}

abbrev ascii : Decoders
ascii = record { decode_all = λ b. none; from_utf8 = λ b. some b; from_utf8_lossy = λ b. b }

-- A table whose sender's number stands before its time.
abbrev columns : List Text
columns =
    codes "localId"
    ∷ codes "real_sender_id"
    ∷ codes "create_time"
    ∷ codes "sort_seq"
    ∷ codes "message_content"
    ∷ []

abbrev table_name : Text
table_name = codes "Msg_0123456789abcdef"

abbrev value : Text → Cell
value c =
    if text_eq c (codes "localId")
    then integer (pos 4)
    else if text_eq c (codes "create_time")
    then integer (pos 90)
    else if text_eq c (codes "sort_seq")
    then integer (pos 91)
    else if text_eq c (codes "real_sender_id")
    then integer (pos 2)
    else text (codes "hi")

abbrev message_cols : MsgCols
message_cols = record {
  local = codes "localId";
  server = none;
  kind = none;
  time = some (codes "create_time");
  seq = some (codes "sort_seq");
  sender = none;
  real = some (codes "real_sender_id");
  content = some (codes "message_content");
  compress = none;
  selected =
      codes "localId"
      ∷ codes "create_time"
      ∷ codes "sort_seq"
      ∷ codes "real_sender_id"
      ∷ codes "message_content"
      ∷ [];
}

abbrev one_row : Row
one_row =
    integer (pos 4) ∷ integer (pos 90) ∷ integer (pos 91) ∷ integer (pos 2) ∷ text (codes "hi") ∷ []

abbrev messages_db : Connection
messages_db = record {
  table_columns = λ t. columns;
  table_names = λ n. table_name ∷ [];
  select = λ t cols order. some (record { rows = one_row ∷ []; broken = false });
  card_rows = none;
}

probed : probe messages_db table_name ≡ some message_cols
unfolding text_ops probe pick eq_ignore_ascii_case probe_columns select_once
probed = refl

abbrev uids : UidMap
uids = (pos 2, codes "wxid_b") ∷ []

extract-probe_example :
    extract ascii message_cols (map value message_cols.selected) uids
    ≡ row_by_name ascii value message_cols uids
extract-probe_example = extract-probe ascii messages_db table_name value message_cols uids probed

abbrev opens_all : Sqlite
opens_all = record { try_open = λ rel key. none; version = λ rel. some (pos 1) }

abbrev source : Source
source = record {
  key_for = λ rel. some (codes "k");
  sqlite = opens_all;
  conn = λ rel. messages_db;
  decoders = ascii;
  md5_hex = λ s. s;
  now_ms = pos 5;
}

abbrev one_file : List DbFile
one_file = record { rel = codes "message/m.db"; kind = message } ∷ []

abbrev zero_progress : IndexProgress
zero_progress = record { tables_done = 0; tables_total = 0; messages_indexed = 0 }

build_all_live-Agrees_example :
    (build_all_live source (codes "me") one_file empty_pool zero_progress).progress.messages_indexed
    ≡ total_messages (build_all_live source (codes "me") one_file empty_pool zero_progress).store
      % word
build_all_live-Agrees_example =
    build_all_live-Agrees source (codes "me") one_file empty_pool zero_progress refl

abbrev built_mark : Watermark
built_mark = record { create_time = pos 90; sort_seq = pos 91; local_id = pos 4 }

abbrev built_rows : List MessageRecord
built_rows = row_to_record ascii (extract ascii message_cols one_row uids) (codes "me") [] ∷ []

read_through :
    (load_message_table source messages_db table_name uids [] (codes "me") zero_progress).1
    ≡ some (built_rows, built_mark)
unfolding text_ops load_message_table add_rows row_indexed probe pick eq_ignore_ascii_case
    probe_columns select_once max_watermark before extract get_i64 position
read_through = refl

load_message_table-behind_example : behind built_mark built_rows ≡ []
load_message_table-behind_example =
    load_message_table-behind source messages_db table_name uids [] (codes "me") zero_progress
      built_rows built_mark read_through

-- The room 7 with the member 2, twice.
abbrev room_uids : UidMap
room_uids = (pos 7, codes "r@chatroom") ∷ uids

abbrev member_rows : List Row
member_rows =
    (integer (pos 7) ∷ integer (pos 2) ∷ []) ∷ (integer (pos 7) ∷ integer (pos 2) ∷ []) ∷ []

none_once : AreOnce []
unfolding map_ops
none_once room = tt
