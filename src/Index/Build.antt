-- ===== src/Index/Build.antt =====
-- src/store/index.rs: the full build of the index with its counters. The databases, the registered
-- keys and SQLite are parameters; the moments timeline is not read here.
use weflow_server.Base.{
  ℕ, suc, ◌+◌, ◌-◌, ◌%◌, ◌^◌, Bool, ◌&&◌, ◌||◌, List, [], ◌∷◌, ◌++◌, Option, none, some,
  if◌then◌else◌, unwrap_or, ◌>>=◌, leb, ◌==◌, all, length, map,
}
use weflow_server.Base.Int.{ℤ}
use weflow_server.Base.Text.{Text, codes, strip_prefix, starts_with, is_ascii_digit, to_ascii_lower}
use weflow_server.Base.Map.{Map, lookup, insert}
use weflow_server.Parser.Content.{Decoders}
use weflow_server.Store.{Store, Session, Contact, MessageRecord, Watermark, no_watermark}
use weflow_server.Db.{DbFile}
use weflow_server.Db.Live.{AcquireError, LivePool, Sqlite, get_or_open}
use weflow_server.Sync.Drain.{max_watermark}
use weflow_server.Index.{
  Row, Connection, UidMap, MsgCols, probe, extract, OwnedMsgRow, row_to_record,
}
use weflow_server.Index.Rooms.{load_uid_map, name2id_table}

-- The counters are `AtomicUsize`s, which wrap.
abbrev pub word : ℕ
word = 2 ^ 64

pub record IndexProgress : Type 0 where
  pub tables_done : ℕ
  pub tables_total : ℕ
  pub messages_indexed : ℕ

unfoldable pub set_tables_total : ℕ → IndexProgress → IndexProgress
set_tables_total total p = record p { tables_total = total; tables_done = 0; messages_indexed = 0 }

unfoldable pub row_indexed : IndexProgress → IndexProgress
row_indexed p = record p { messages_indexed = (p.messages_indexed + 1) % word }

unfoldable pub rollback_rows : ℕ → IndexProgress → IndexProgress
rollback_rows n p = record p { messages_indexed = (p.messages_indexed + word - n % word) % word }

unfoldable pub finish_table : IndexProgress → IndexProgress
finish_table p = record p { tables_done = (p.tables_done + 1) % word }

-- What the build reads from: SQLite with the keys that open a file, and an open file's content; and
-- what decodes bytes and digests names.
pub record Source : Type 0 where
  pub key_for : Text → Option Text
  pub sqlite : Sqlite
  pub conn : Text → Connection
  pub decoders : Decoders
  pub md5_hex : Text → Text
  pub now_ms : ℤ

abbrev is_hex_digit : ℕ → Bool
is_hex_digit c = is_ascii_digit c || leb b'a' c && leb c b'f' || leb b'A' c && leb c b'F'

-- The digest in a message table's name.
unfoldable pub table_suffix : Text → Option Text
table_suffix t = do
  rest ← strip_prefix (codes "msg_") (map to_ascii_lower t)
  if (length rest == 32 || length rest == 16) && all is_hex_digit rest then some rest else none

unfoldable pub tables_in : List Text → List (Text × Text)
tables_in [] = []
tables_in (t ∷ names) =
    let more = tables_in names in
    elim (table_suffix t) [ some suffix ↦ (t, suffix) ∷ more | none ↦ more ]

unfoldable pub message_tables : Connection → List (Text × Text)
message_tables conn = tables_in (conn.table_names 1000)

-- The session whose name has the digest, or the digest itself.
unfoldable pub table_session : (Text → Text) → Text → Map Session → Text
table_session md5_hex suffix [] = suffix
table_session md5_hex suffix ((username, s) ∷ sessions) =
    let later = table_session md5_hex suffix sessions in
    if starts_with (map to_ascii_lower suffix) (md5_hex username) then username else later

-- The loop over the rows of one table.
pub record Loaded : Type 0 where
  pub records : List MessageRecord
  pub watermark : Watermark
  pub counted : ℕ
  pub progress : IndexProgress

abbrev pub row_watermark : OwnedMsgRow → Watermark
row_watermark r = record {
  create_time = r.create_time;
  sort_seq = r.sort_seq;
  local_id = r.local_id;
}

abbrev pub add_row : Source → MsgCols → UidMap → Map Contact → Text → Row → Loaded → Loaded
add_row src cols uids contacts my_wxid row l =
    let owned = extract src.decoders cols row uids in
    record {
      records = l.records ++ row_to_record src.decoders owned my_wxid contacts ∷ [];
      watermark = max_watermark l.watermark (row_watermark owned);
      counted = suc l.counted;
      progress = row_indexed l.progress;
    }

unfoldable pub add_rows :
    Source → MsgCols → UidMap → Map Contact → Text → List Row → Loaded → Loaded
add_rows src cols uids contacts my_wxid [] l = l
add_rows src cols uids contacts my_wxid (row ∷ rows) l =
    add_rows src cols uids contacts my_wxid rows (add_row src cols uids contacts my_wxid row l)

-- The columns that a table is ordered by.
abbrev pub order_of : MsgCols → List Text
order_of cols = unwrap_or cols.time cols.local ∷ unwrap_or cols.seq cols.local ∷ cols.local ∷ []

abbrev pub nothing_loaded : IndexProgress → Loaded
nothing_loaded p = record { records = []; watermark = no_watermark; counted = 0; progress = p }

-- A read that breaks takes its rows out of the count.
abbrev pub read_whole : Bool → Loaded → IndexProgress × Option (List MessageRecord × Watermark)
read_whole broken l =
    if broken
    then (rollback_rows l.counted l.progress, none)
    else (l.progress, some (l.records, l.watermark))

-- The counters afterwards, and the records with the watermark, `none` an error.
unfoldable pub load_message_table :
    Source
    → Connection
    → Text
    → UidMap
    → Map Contact
    → Text
    → IndexProgress
    → IndexProgress × Option (List MessageRecord × Watermark)
load_message_table src conn table uids contacts my_wxid p =
    elim (probe conn table) as (λ _. IndexProgress × Option (List MessageRecord × Watermark)) [
      | none ↦ (p, none)
      | some cols ↦
          elim (conn.select table cols.selected (order_of cols))
            as (λ _. IndexProgress × Option (List MessageRecord × Watermark)) [
              | none ↦ (p, none)
              | some r ↦
                  read_whole r.broken
                    (add_rows src cols uids contacts my_wxid r.rows (nothing_loaded p))
            ]
    ]

pub record BuildState : Type 0 where
  pub store : Store
  pub pool : LivePool
  pub progress : IndexProgress

abbrev pub mark_key : Text → Text → Text
mark_key rel table = rel ++ (codes ":" ++ table)

-- The records of a table go behind those that its conversation has.
unfoldable pub add_table : Text → Text → List MessageRecord → Watermark → Store → Store
add_table conv key records wm s = record s {
  convs = insert conv (unwrap_or (lookup conv s.convs) [] ++ records) s.convs;
  watermarks =
      insert key (max_watermark (unwrap_or (lookup key s.watermarks) no_watermark) wm) s.watermarks;
}

abbrev pub enter_table :
    Source
    → Text
    → Text × Text
    → BuildState
    → IndexProgress × Option (List MessageRecord × Watermark)
    → BuildState
enter_table src rel t b (p, none) = record b { progress = p }
enter_table src rel (table, suffix) b (p, some (records, wm)) = record b {
  store =
      add_table (table_session src.md5_hex suffix b.store.sessions) (mark_key rel table) records wm
        b.store;
  progress = finish_table p;
}

unfoldable pub scan_tables :
    Source → Text → UidMap → Map Contact → Text → List (Text × Text) → BuildState → BuildState
scan_tables src rel uids contacts my_wxid [] b = b
scan_tables src rel uids contacts my_wxid (t ∷ tables) b =
    scan_tables src rel uids contacts my_wxid tables (
      enter_table src rel t b
        (load_message_table src (src.conn rel) t.0 uids contacts my_wxid b.progress))

-- A file with a key is opened, and if that works, its content goes through `use_conn`.
abbrev pub opened_or :
    (Connection → BuildState → BuildState)
    → Connection
    → BuildState
    → LivePool × Option AcquireError
    → BuildState
opened_or use_conn conn b (pool, none) = use_conn conn (record b { pool = pool })
opened_or use_conn conn b (pool, some why) = record b { pool = pool }

abbrev pub with_file :
    Source → Text → Text → (Connection → BuildState → BuildState) → BuildState → BuildState
with_file src rel key use_conn b =
    opened_or use_conn (src.conn rel) b (get_or_open src.sqlite rel key b.pool)

abbrev pub scan_conn : Source → Map Contact → Text → Text → Connection → BuildState → BuildState
scan_conn src contacts my_wxid rel conn b =
    scan_tables src rel (load_uid_map src.decoders conn (name2id_table conn)) contacts my_wxid
      (message_tables conn) b

unfoldable pub scan_file : Source → Map Contact → Text → DbFile → BuildState → BuildState
scan_file src contacts my_wxid f b = elim (src.key_for f.rel) as (λ _. BuildState) [
  | none ↦ b
  | some key ↦ with_file src f.rel key (scan_conn src contacts my_wxid f.rel) b
]

unfoldable pub scan_files : Source → Map Contact → Text → List DbFile → BuildState → BuildState
scan_files src contacts my_wxid [] b = b
scan_files src contacts my_wxid (f ∷ files) b =
    scan_files src contacts my_wxid files (scan_file src contacts my_wxid f b)
