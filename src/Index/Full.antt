-- ===== src/Index/Full.antt =====
-- src/store/index.rs: `build_all_live`, its sections in their order and its early returns.
use weflow_server.Base.{
  ℕ, ◌+◌, Bool, true, false, List, [], ◌∷◌, Option, none, some, unwrap_or, option_map, find, retain,
  length,
}
use weflow_server.Base.Text.{Text}
use weflow_server.Base.Map.{Map, lookup}
use weflow_server.Store.{Session, MessageRecord, empty_store, mark_index_built}
use weflow_server.Db.{DbKind, DbFile, session, contact, contact_fts, message, media, sns, other}
use weflow_server.Db.Live.{AcquireError, LivePool, get_or_open}
use weflow_server.Index.{Connection}
use weflow_server.Index.Sections.{load_sessions, load_contacts}
use weflow_server.Index.Rooms.{load_chatroom_meta, load_group_cards}
use weflow_server.Index.Build.{
  IndexProgress, set_tables_total, Source, BuildState, with_file, message_tables, scan_files,
}

unfoldable pub is_kind : DbKind → DbFile → Bool
is_kind session f = elim f.kind [ session ↦ true | _ ↦ false ]
is_kind message f = elim f.kind [ message ↦ true | _ ↦ false ]
is_kind contact f = elim f.kind [ contact ↦ true | _ ↦ false ]
is_kind contact_fts f = elim f.kind [ contact_fts ↦ true | _ ↦ false ]
is_kind media f = elim f.kind [ media ↦ true | _ ↦ false ]
is_kind sns f = elim f.kind [ sns ↦ true | _ ↦ false ]
is_kind other f = elim f.kind [ other ↦ true | _ ↦ false ]

-- The section of the first file of a kind. Without such a file the build goes on; with one that has
-- no key it ends with what it has, the flag false.
abbrev pub section :
    Source
    → DbKind
    → (Connection → BuildState → BuildState)
    → List DbFile
    → BuildState
    → BuildState × Bool
section src kind load files b = elim (find (is_kind kind) files) as (λ _. BuildState × Bool) [
  | none ↦ (b, true)
  | some f ↦ elim (src.key_for f.rel) as (λ _. BuildState × Bool) [
    | none ↦ (b, false)
    | some key ↦ (with_file src f.rel key load b, true)
  ]
]

abbrev pub sessions_from : Source → Connection → BuildState → BuildState
sessions_from src conn b = record b { store = (load_sessions src.decoders conn b.store).0 }

abbrev pub contacts_from : Source → Connection → BuildState → BuildState
contacts_from src conn b = record b {
  store = load_chatroom_meta src.decoders conn (load_contacts src.decoders conn b.store).0;
}

abbrev pub cards_from : Source → Connection → BuildState → BuildState
cards_from src conn b = record b { store = load_group_cards src.decoders conn b.store }

-- The denominator: the tables of the files that can be opened. Each is opened for it.
abbrev counted_if : ℕ → ℕ → LivePool × Option AcquireError → LivePool × ℕ
counted_if tables n (pool, none) = (pool, n + tables)
counted_if tables n (pool, some why) = (pool, n)

abbrev count_file : Source → DbFile → LivePool × ℕ → LivePool × ℕ
count_file src f (pool, n) = elim (src.key_for f.rel) as (λ _. LivePool × ℕ) [
  | none ↦ (pool, n)
  | some key ↦
      counted_if (length (message_tables (src.conn f.rel))) n
        (get_or_open src.sqlite f.rel key pool)
]

unfoldable pub count_tables : Source → List DbFile → LivePool × ℕ → LivePool × ℕ
count_tables src [] c = c
count_tables src (f ∷ files) c = count_tables src files (count_file src f c)

-- The messages of all files, behind their denominator. The contacts are those from before.
unfoldable pub scan_messages : Source → Text → List DbFile → BuildState → BuildState
scan_messages src my_wxid files b =
    let message_files = retain (is_kind message) files in
    let (pool, total) = count_tables src message_files (b.pool, 0) in
    scan_files src b.store.contacts my_wxid message_files
      (record b { pool = pool; progress = set_tables_total total b.progress })

-- The counts of the sessions, from the conversations.
unfoldable pub fill_counts : Map (List MessageRecord) → Map Session → Map Session
fill_counts convs [] = []
fill_counts convs ((username, s) ∷ sessions) =
    (username, record s { message_count = unwrap_or (option_map length (lookup username convs)) 0 })
    ∷ fill_counts convs sessions

-- The timeline of the moments is not part of this store: only the file is opened.
abbrev pub leave_store : Connection → BuildState → BuildState
leave_store conn b = b

abbrev pub then_if : (BuildState → BuildState × Bool) → BuildState × Bool → BuildState × Bool
then_if next (b, true) = next b
then_if next (b, false) = (b, false)

-- Cards are optional: a file without a key does not end the build.
abbrev pub optional_section : BuildState × Bool → BuildState × Bool
optional_section (b, go_on) = (b, true)

abbrev pub fill_if : BuildState × Bool → BuildState
fill_if (b, true) = record b {
  store = record b.store { sessions = fill_counts b.store.convs b.store.sessions };
}
fill_if (b, false) = b

unfoldable pub build_all_live_inner :
    Source → Text → List DbFile → LivePool → IndexProgress → BuildState
build_all_live_inner src my_wxid files pool progress =
    let start : BuildState = record {
      store = record empty_store { my_wxid = my_wxid };
      pool = pool;
      progress = progress;
    } in
    let one = section src session (sessions_from src) files start in
    let two = then_if (section src contact (contacts_from src) files) one in
    let cards =
      then_if (λ b. optional_section (section src contact_fts (cards_from src) files b)) two in
    let three = then_if (λ b. (scan_messages src my_wxid files b, true)) cards in
    fill_if (then_if (section src sns leave_store files) three)

unfoldable pub build_all_live : Source → Text → List DbFile → LivePool → IndexProgress → BuildState
build_all_live src my_wxid files pool progress =
    let b = build_all_live_inner src my_wxid files pool progress in
    record b { store = mark_index_built src.now_ms b.store }
