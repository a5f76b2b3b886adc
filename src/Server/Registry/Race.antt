-- ===== src/Server/Registry/Race.antt =====
-- A build against a deregistration: `start_account`, `full_sync`, `publish_watermark_baseline` and
-- `deregister_account` (src/server/mod.rs, src/sync/mod.rs), cut where the store's lock is taken or
-- released, the flag is read, or the bus is used. Either side can stand still between any two steps.
-- A critical section that only touches the store is one step, which waits for the lock; the bus has a
-- lock of its own, and a reset takes no other. No other account is registered in between.
pub mod Ghost
use weflow_server.Base.{◌≡◌, ℕ, suc, Bool, true, false, ◌&&◌, List, [], if◌then◌else◌}
use weflow_server.Base.Text.{Text}
use weflow_server.Store.{Store, Watermark, empty_store, mark_index_built}
use weflow_server.Base.Int.{ℤ}
use weflow_server.Sync.{Event, baseline}
use weflow_server.Sync.History.{HistoryBuf, append, clear}
use weflow_server.Server.Registry.{AccountStatus, indexing, ready, error, is_ready}

-- Where the build of a handle stands: reading, holding a built index that it may install, done with
-- that or broken by an error, past the second test of the flag, holding the store's lock past the
-- third one, and at the end, with or without a result.
pub data Build : Type 0 where
  syncing : Build
  installing : Store → Build
  installed broken guarded publishing finished discarded : Build

-- Where the deregistration stands: not begun, out of the registry, the flag set, the index dropped,
-- the replay cleared, the generation moved on, and the present watermarks published.
pub data Teardown : Type 0 where
  idle removed retired cleared wiped bumped reset : Teardown

-- What the two share: whether the registry holds the handle, the handle's flag, index with its lock
-- and status, and the replay with its generation.
pub record Shared : Type 0 where
  pub registered : Bool
  pub stopped : Bool
  pub store : Store
  pub locked : Bool
  pub status : AccountStatus
  pub history : HistoryBuf Event
  pub generation : ℕ
  pub build : Build
  pub teardown : Teardown

-- The end of `publish_watermark_baseline`, with the lock held and the flag read: the watermarks of
-- the store go to the bus, and the lock is released.
unfoldable pub publish_watermark_baseline : ℕ → Shared → Shared
publish_watermark_baseline now s = record s {
  history = (append now (baseline s.store.watermarks) s.history).0;
  locked = false;
  build = finished;
}

-- `current_watermarks`: those of the handle if it is registered and ready.
unfoldable pub ready_watermarks : Shared → List (Text × Watermark)
ready_watermarks s = if s.registered && is_ready s.status then s.store.watermarks else []

-- The three last calls of a deregistration.
unfoldable pub clear_replay : Shared → Shared
clear_replay s = record s { history = clear s.history; teardown = wiped }

unfoldable pub bump_generation : Shared → Shared
bump_generation s = record s { generation = suc s.generation; teardown = bumped }

unfoldable pub publish_current : ℕ → Shared → Shared
publish_current now s = record s {
  history = (append now (baseline (ready_watermarks s)) s.history).0;
  teardown = reset;
}

pub data Step : Shared → Shared → Type 0 where
  -- The first test of the flag, at the end of the reads.
  built :
      (s : Shared) (index : Store)
      → s.build ≡ syncing
      → s.stopped ≡ false
      → Step s (record s { build = installing index })
  abandoned :
      (s : Shared) → s.build ≡ syncing → s.stopped ≡ true → Step s (record s { build = installed })
  -- The index is installed under the write lock, without another test.
  install :
      (s : Shared) (index : Store) (now : ℤ)
      → s.build ≡ installing index
      → s.locked ≡ false
      → Step s (record s { build = installed; store = mark_index_built now index })
  -- A build that fails installs nothing.
  break_off : (s : Shared) → s.build ≡ syncing → Step s (record s { build = broken })
  -- The second test, in the task that waited for the build.
  discard :
      (s : Shared)
      → s.build ≡ installed
      → s.stopped ≡ true
      → Step s (record s { build = discarded })
  discard_broken :
      (s : Shared) → s.build ≡ broken → s.stopped ≡ true → Step s (record s { build = discarded })
  go_error :
      (s : Shared)
      → s.build ≡ broken
      → s.stopped ≡ false
      → Step s (record s { build = finished; status = error })
  go_ready :
      (s : Shared)
      → s.build ≡ installed
      → s.stopped ≡ false
      → Step s (record s { build = guarded; status = ready })
  -- The store's lock is taken and the flag is read under it; the lock is kept for the publication.
  lock_running :
      (s : Shared)
      → s.build ≡ guarded
      → s.locked ≡ false
      → s.stopped ≡ false
      → Step s (record s { build = publishing; locked = true })
  lock_stopped :
      (s : Shared)
      → s.build ≡ guarded
      → s.locked ≡ false
      → s.stopped ≡ true
      → Step s (record s { build = finished })
  announce :
      (s : Shared) (now : ℕ) → s.build ≡ publishing → Step s (publish_watermark_baseline now s)
  -- The steps of the deregistration.
  remove_handle :
      (s : Shared)
      → s.teardown ≡ idle
      → Step s (record s { teardown = removed; registered = false })
  set_stopped :
      (s : Shared) → s.teardown ≡ removed → Step s (record s { teardown = retired; stopped = true })
  drop_index :
      (s : Shared)
      → s.teardown ≡ retired
      → s.locked ≡ false
      → Step s (record s { teardown = cleared; store = empty_store })
  clear_bus : (s : Shared) → s.teardown ≡ cleared → Step s (clear_replay s)
  bump : (s : Shared) → s.teardown ≡ wiped → Step s (bump_generation s)
  publish_reset : (s : Shared) (now : ℕ) → s.teardown ≡ bumped → Step s (publish_current now s)

-- Any number of steps.
pub data Reach : Shared → Shared → Type 0 where
  none_taken : (s : Shared) → Reach s s
  then_step : {s t u : Shared} → Reach s t → Step t u → Reach s u

-- A registration has just bound the handle.
abbrev pub start : HistoryBuf Event → ℕ → Shared
start history generation = record {
  registered = true;
  stopped = false;
  store = empty_store;
  locked = false;
  status = indexing;
  history = history;
  generation = generation;
  build = syncing;
  teardown = idle;
}
