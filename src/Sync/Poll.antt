-- ===== src/Sync/Poll.antt =====
-- `AccountSync` of src/sync/mod.rs: which source files have changed, the round that reads them, and
-- what it remembers of them. The files, the keys, SQLite and the tables it shows are a `World`.
pub mod Emptied
pub mod Cursor
pub mod Round
pub mod Ledger
use weflow_server.Base.{
  ℕ, Bool, true, false, not, ◌&&◌, ◌||◌, List, [], ◌∷◌, ◌++◌, Option, none, some, if◌then◌else◌,
  unwrap_or, option_map, is_some, ◌>>=◌, any, map, ◌==◌, length,
}
use weflow_server.Base.Int.{ℤ, eqb_ℤ, pos}
use weflow_server.Base.Text.{Text, codes, text_eq}
use weflow_server.Base.Map.{Map, lookup, insert}
use weflow_server.Store.{Store, MessageRecord, Watermark, no_watermark, mark_index_built}
use weflow_server.Db.{DbKind, DbFile, message, session, sns, contact, contact_fts}
use weflow_server.Db.Live.{
  AcquireError, wrong_key, LivePool, Sqlite, mark_keyless, get_or_open, is_open,
  foreign_commit_pending, advance_data_version,
}
use weflow_server.Sync.{Event}
use weflow_server.Sync.Drain.{Drained, drain, read_page, read_max_pages, watermark_of}
use weflow_server.Sync.Apply.{Read, is_recall_row, apply_read}

pub record SrcStamp : Type 0 where
  pub mtime_ns : ℤ
  pub size : ℕ

pub record DbStamps : Type 0 where
  pub main : Option SrcStamp
  pub wal : Option SrcStamp

unfoldable pub stamp_eq : Option SrcStamp → Option SrcStamp → Bool
stamp_eq none none = true
stamp_eq none (some b) = false
stamp_eq (some a) none = false
stamp_eq (some a) (some b) = eqb_ℤ a.mtime_ns b.mtime_ns && a.size == b.size

unfoldable pub stamps_eq : DbStamps → DbStamps → Bool
stamps_eq a b = stamp_eq a.main b.main && stamp_eq a.wal b.wal

pub data Work : Type 0 where
  messages sessions moments contacts group_meta : DbFile → Work

unfoldable pub work_file : Work → DbFile
work_file (messages f) = f
work_file (sessions f) = f
work_file (moments f) = f
work_file (contacts f) = f
work_file (group_meta f) = f

unfoldable pub work_of : DbFile → List Work
work_of f = elim f.kind [
  | message ↦ messages f ∷ []
  | session ↦ sessions f ∷ []
  | sns ↦ moments f ∷ []
  | contact ↦ contacts f ∷ []
  | contact_fts ↦ group_meta f ∷ []
  | _ ↦ []
]

-- A message table: its name, the digest in the name, and `read_new` on it.
pub record Table : Type 0 where
  pub name : Text
  pub suffix : Text
  pub read_new : Watermark → Option (List MessageRecord)

-- What the code outside this file answers during a round: the directory walk, the file stamps, the
-- registered keys, SQLite, the tables of a file, the session of a table's digest, the reload of a
-- section of the store, and the clock.
pub record World : Type 0 where
  pub db_files : List DbFile
  pub src_stamp : Text → Option SrcStamp
  pub wal_stamp : Text → Option SrcStamp
  pub key_for : Text → Option Text
  pub sqlite : Sqlite
  pub message_tables : Text → List Table
  pub table_session : Store → Text → Text
  pub load : Work → Store → Store
  pub now_ms : ℤ

abbrev pub stamps_of : World → Text → DbStamps
stamps_of w rel = record { main = w.src_stamp rel; wal = w.wal_stamp rel }

pub record AccountSync : Type 0 where
  pub store : Store
  pub pool : LivePool
  pub stamps : Map DbStamps

-- An open file is asked for its data version, a closed one for its stamps.
unfoldable pub has_changed : World → AccountSync → Text → Bool
has_changed w a rel =
    if is_open rel a.pool
    then unwrap_or (foreign_commit_pending w.sqlite rel a.pool) true
    else not (
        unwrap_or (option_map (λ prev. stamps_eq prev (stamps_of w rel)) (lookup rel a.stamps))
          false)

unfoldable pub changed_work : World → AccountSync → List DbFile → List Work
changed_work w a [] = []
changed_work w a (f ∷ fs) =
    let rest = changed_work w a fs in if has_changed w a f.rel then work_of f ++ rest else rest

unfoldable pub classify_changed : World → AccountSync → List Work
classify_changed w a = changed_work w a w.db_files

-- The rows of a page go one by one to the new ones or to the recalls, each with its watermark.
unfoldable pub collect : Text → Text → List MessageRecord → Read → Read
collect owner wm_key [] r = r
collect owner wm_key (row ∷ rows) r = collect owner wm_key rows (record {
  new_rows = if is_recall_row row then r.new_rows else r.new_rows ++ (owner, row) ∷ [];
  new_watermarks = r.new_watermarks ++ (wm_key, watermark_of row) ∷ [];
  revoke_rows = if is_recall_row row then r.revoke_rows ++ (owner, row) ∷ [] else r.revoke_rows;
})

abbrev pub watermark_key : Text → Text → Text
watermark_key rel table = rel ++ (codes ":" ++ table)

-- All tables of one file; the flag stays true while every table was emptied.
unfoldable pub read_tables : World → Store → Text → List Table → Bool → Read → Option (Read × Bool)
read_tables w s rel [] all r = some (r, all)
read_tables w s rel (t ∷ ts) all r = do
  let key = watermark_key rel t.name
  d ← drain t.read_new read_page read_max_pages (unwrap_or (lookup key s.watermarks) no_watermark)
  read_tables w s rel ts (all && d.drained_all) (collect (w.table_session s t.suffix) key d.rows r)

-- The first phase, with the pool, what was read, and the files that were read to the end.
pub record Phase1 : Type 0 where
  pub pool : LivePool
  pub rows : Read
  pub read_done : List Text

abbrev pub note_read : Text → Phase1 → Read × Bool → Phase1
note_read rel p (r, all) = record p {
  rows = r;
  read_done = if all then p.read_done ++ rel ∷ [] else p.read_done;
}

-- A file whose connection was given or refused. A key that SQLite refuses starts the backoff.
abbrev pub with_connection :
    World → Store → Text → Phase1 → LivePool × Option AcquireError → LivePool × Option Phase1
with_connection w s rel p (pool, none) = (
  pool,
  option_map (note_read rel (record p { pool = pool }))
      (read_tables w s rel (w.message_tables rel) true p.rows),
)
with_connection w s rel p (pool, some wrong_key) =
    (mark_keyless rel pool, some (record p { pool = mark_keyless rel pool }))
with_connection w s rel p (pool, some e) = (pool, some (record p { pool = pool }))

-- The pool keeps what was opened also when a table cannot be read, which ends the round.
unfoldable pub read_file : World → Store → Text → Phase1 → LivePool × Option Phase1
read_file w s rel p = elim (w.key_for rel) [
  | none ↦ (p.pool, some p)
  | some key ↦ with_connection w s rel p (get_or_open w.sqlite rel key p.pool)
]

unfoldable pub read_work : World → Store → List Work → Phase1 → LivePool × Option Phase1
read_work w s [] p = (p.pool, some p)
read_work w s (messages f ∷ ws) p =
    let one = read_file w s f.rel p in
    elim (one.1) [ none ↦ (one.0, none) | some q ↦ read_work w s ws q ]
read_work w s (x ∷ ws) p = read_work w s ws p

-- Reloading one section over its connection; a file without a key or a connection is left out.
abbrev pub loaded : World → Work → LivePool × Option AcquireError → AccountSync → AccountSync
loaded w x (pool, none) a = record a { pool = pool; store = w.load x a.store }
loaded w x (pool, some e) a = record a { pool = pool }

unfoldable pub reload_file : World → Work → AccountSync → AccountSync
reload_file w x a = elim (w.key_for (work_file x).rel) [
  | none ↦ a
  | some key ↦ loaded w x (get_or_open w.sqlite (work_file x).rel key a.pool) a
]

unfoldable pub reload_section : World → Work → AccountSync → AccountSync
reload_section w (messages f) a = a
reload_section w (sessions f) a = reload_file w (sessions f) a
reload_section w (moments f) a = reload_file w (moments f) a
reload_section w (contacts f) a = reload_file w (contacts f) a
reload_section w (group_meta f) a = reload_file w (group_meta f) a

-- The third phase, and whether it went through: the flags are those read before each item.
unfoldable pub reload_sections : World → List Bool → List Work → AccountSync → AccountSync × Bool
reload_sections w stops [] a = (a, true)
reload_sections w [] (x ∷ xs) a = reload_sections w [] xs (reload_section w x a)
reload_sections w (stop ∷ stops) (x ∷ xs) a =
    let rest = reload_sections w stops xs (reload_section w x a) in
    if stop then (a, false) else rest

abbrev pub was_read : List Text → Text → Bool
was_read read_done rel = any (text_eq rel) read_done

abbrev pub remember : World → Text → AccountSync → AccountSync
remember w rel a = record a {
  stamps = insert rel (stamps_of w rel) a.stamps;
  pool = advance_data_version w.sqlite rel a.pool;
}

-- The fourth phase: only a file that was read to the end is remembered.
unfoldable pub remember_read : World → List Text → List Work → AccountSync → AccountSync
remember_read w read_done [] a = a
remember_read w read_done (x ∷ xs) a =
    remember_read w read_done xs
      (if was_read read_done (work_file x).rel then remember w (work_file x).rel a else a)

abbrev pub is_empty_list {ℓ} : {A : Type ℓ} → List A → Bool
is_empty_list [] = true
is_empty_list (x ∷ xs) = false

-- The flag of a deregistration, as it is read on entry, under the write lock, and before each item
-- of the third phase (it is off behind the end of the list).
pub record Stops : Type 0 where
  pub entry : Bool
  pub apply : Bool
  pub reload : List Bool

abbrev pub nothing_read : LivePool → Phase1
nothing_read pool = record {
  pool = pool;
  rows = record { new_rows = []; new_watermarks = []; revoke_rows = [] };
  read_done = [];
}

abbrev pub marked : World → AccountSync → AccountSync
marked w a = record a { store = mark_index_built w.now_ms a.store }

-- The phases behind the reads. A round that is stopped under the write lock emits nothing.
unfoldable pub finish_round :
    World → Stops → List Work → Phase1 → AccountSync → AccountSync × List Event
finish_round w stops work p a =
    let applied : Store × List Event = apply_read stops.apply p.rows a.store in
    let reads : AccountSync = record a { pool = p.pool; store = applied.0 } in
    let reloaded : AccountSync × Bool = reload_sections w stops.reload work reads in
    if stops.apply
    then (reads, [])
    else if reloaded.1
    then (marked w (remember_read w p.read_done work reloaded.0), applied.1)
    else (reloaded.0, applied.1)

abbrev pub round :
    World
    → Stops
    → List Work
    → AccountSync
    → LivePool × Option Phase1
    → AccountSync × Option (List Event)
round w stops work a (pool, none) = (record a { pool = pool }, none)
round w stops work a (pool, some p) =
    let end : AccountSync × List Event = finish_round w stops work p a in (end.0, some end.1)

-- The state afterwards and the events that were published, or `none` where a read failed.
unfoldable pub poll_once : World → Stops → AccountSync → AccountSync × Option (List Event)
poll_once w stops a =
    let work : List Work = classify_changed w a in
    if stops.entry
    then (a, some [])
    else if is_empty_list work
    then (a, some [])
    else round w stops work a (read_work w a.store work (nothing_read a.pool))

-- The line that a test names to see through all of these.
unfoldable pub poll_ops : Unit {0}
unfolding stamp_eq stamps_eq work_file work_of has_changed changed_work classify_changed collect
    read_tables read_file read_work reload_file reload_section reload_sections remember_read
    finish_round poll_once
poll_ops = tt
