-- ===== src/Db/Live.antt =====
-- src/db/live.rs: the pool of long-lived connections, one for each source file. A connection is a
-- handle of the SQLite binding: only whether there is one is kept.
pub mod Backoff
pub mod Pending
use weflow_server.Base.{
  ℕ, Bool, true, false, not, ◌&&◌, ◌||◌, List, [], ◌∷◌, ◌++◌, Option, none, some, if◌then◌else◌,
  unwrap_or, option_map, any, retain, ◌>>=◌,
}
use weflow_server.Base.Int.{ℤ, eqb_ℤ}
use weflow_server.Base.Text.{Text, text_eq}
use weflow_server.Base.Map.{Map, lookup, insert}

-- `AcquireError`; the input-output error is kept without its text.
pub data AcquireError : Type 0 where
  wrong_key missing io : AcquireError

pub record LiveDb : Type 0 where
  pub key_hex64 : Text
  pub conn : Bool
  pub data_version : Option ℤ

pub record LivePool : Type 0 where
  pub pool : Map LiveDb
  pub keyless : List Text

-- `LivePool::new`
abbrev pub empty_pool : LivePool
empty_pool = record { pool = []; keyless = [] }

pub data Opened : Type 0 where
  ok : LiveDb → Opened
  failed : AcquireError → Opened

-- What the SQLite binding answers: `try_open rel key` opens the file with a key, and
-- `version rel` reads `PRAGMA data_version` on the connection that the pool holds on the file then.
-- The pragma is local to a connection: another moment or another connection is another `Sqlite`.
pub record Sqlite : Type 0 where
  pub try_open : Text → Text → Option AcquireError
  pub version : Text → Option ℤ

unfoldable pub mark_keyless : Text → LivePool → LivePool
mark_keyless rel p = record p { keyless = rel ∷ p.keyless }

unfoldable pub is_keyless : Text → LivePool → Bool
is_keyless rel p = any (text_eq rel) p.keyless

abbrev unless_eq : Text → Text → Bool
unless_eq rel k = not (text_eq rel k)

unfoldable pub forget_keyless : Text → LivePool → LivePool
forget_keyless rel p = record p { keyless = retain (unless_eq rel) p.keyless }

abbrev pub new_live_db : Text → LiveDb
new_live_db key = record { key_hex64 = key; conn = false; data_version = none }

unfoldable pub close_db : LiveDb → LiveDb
close_db e = record e { conn = false; data_version = none }

-- `LiveDb::acquire`: the entry afterwards, and the error if there is one.
unfoldable pub acquire : Sqlite → Text → LiveDb → LiveDb × Option AcquireError
acquire db rel e =
    let failure : Option AcquireError = db.try_open rel e.key_hex64 in
    let opened : LiveDb = record e { conn = true; data_version = db.version rel } in
    if e.conn then (e, none) else elim failure [ none ↦ (opened, none) | some why ↦ (e, some why) ]

-- The test of the backoff: no entry, or a closed one with the same key.
abbrev pub same_key : Text → Option LiveDb → Bool
same_key incoming none = true
same_key incoming (some e) = not e.conn && text_eq e.key_hex64 incoming

abbrev pub store_entry :
    Text → LivePool → LiveDb × Option AcquireError → LivePool × Option AcquireError
store_entry rel p (e, why) = (record p { pool = insert rel e p.pool }, why)

-- The part of `get_or_open` behind the backoff.
unfoldable pub open_entry : Sqlite → Text → Text → LivePool → LivePool × Option AcquireError
open_entry db rel incoming p =
    let entry : LiveDb = unwrap_or (lookup rel p.pool) (new_live_db incoming) in
    store_entry rel p (acquire db rel (record entry { key_hex64 = incoming }))

unfoldable pub get_or_open : Sqlite → Text → Text → LivePool → LivePool × Option AcquireError
get_or_open db rel incoming p =
    if is_keyless rel p
    then if same_key incoming (lookup rel p.pool)
      then (p, some wrong_key)
      else open_entry db rel incoming (forget_keyless rel p)
    else open_entry db rel incoming p

unfoldable pub is_open : Text → LivePool → Bool
is_open rel p = unwrap_or (option_map (λ (e : LiveDb). e.conn) (lookup rel p.pool)) false

unfoldable pub close : Text → LivePool → LivePool
close rel p = record p {
  pool = unwrap_or (option_map (λ e. insert rel (close_db e) p.pool) (lookup rel p.pool)) p.pool;
}

abbrev pub differs : ℤ → Option ℤ → Bool
differs now none = true
differs now (some v) = not (eqb_ℤ v now)

unfoldable pub foreign_commit_pending : Sqlite → Text → LivePool → Option Bool
foreign_commit_pending db rel p = do
  entry ← lookup rel p.pool
  now ← (if entry.conn then db.version rel else none)
  some (differs now entry.data_version)

abbrev pub rebaseline : Sqlite → Text → LiveDb → LiveDb
rebaseline db rel e = record e {
  data_version =
      unwrap_or (option_map (λ now. some now) (if e.conn then db.version rel else none))
        e.data_version;
}

unfoldable pub advance_data_version : Sqlite → Text → LivePool → LivePool
advance_data_version db rel p = record p {
  pool =
      unwrap_or (option_map (λ e. insert rel (rebaseline db rel e) p.pool) (lookup rel p.pool))
        p.pool;
}

-- The line that a test names to see through all of these.
unfoldable pub live_ops : Unit {0}
unfolding mark_keyless is_keyless forget_keyless close_db acquire open_entry get_or_open is_open
    close foreign_commit_pending advance_data_version
live_ops = tt
