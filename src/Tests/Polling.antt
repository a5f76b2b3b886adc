-- ===== src/Tests/Polling.antt =====
-- A round of src/sync/mod.rs and the pool of src/db/live.rs on concrete inputs.
use mathlib.Core.Bool.{true≢false}
use weflow_server.Base.{
  ℕ, List, ◌==◌, ◌≡◌, ◌≢◌, refl, sym, ◌∙◌, ◌⊎◌, inr, true, false, not, [], ◌∷◌, none, some,
  if◌then◌else◌,
}
use weflow_server.Base.Int.{pos}
use weflow_server.Base.Text.{Text, codes, text_eq, text_eq_iff, text_ops}
use weflow_server.Base.Map.{lookup, map_ops}
use weflow_server.Db.{message}
use weflow_server.Db.Live.{
  wrong_key, LiveDb, LivePool, empty_pool, Sqlite, mark_keyless, is_keyless, get_or_open, is_open,
  foreign_commit_pending, live_ops,
}
use weflow_server.Db.Live.Backoff.{get_or_open-backoff}
use weflow_server.Db.Live.Pending.{
  Happening, commit, acquired, advanced, run, seen_after, commits_after, run-pending,
}
use weflow_server.Sync.Drain.Complete.{behind}
use weflow_server.Sync.Poll.{World, AccountSync, Stops, poll_once, stamps_of}
use weflow_server.Sync.Poll.Emptied.{Emptied}
use weflow_server.Sync.Poll.Ledger.{poll_once-stamps, Discarded, poll_once-Discarded}
use weflow_server.Tests.Samples.{from_ann, small_store}

abbrev rel : Text
rel = codes "m"

-- SQLite that opens with one key only, and reports version 3.
abbrev with_key : Text → Sqlite
with_key key = record {
  try_open = λ r k. if text_eq k key then none else some wrong_key;
  version = λ r. some (pos 3);
}

refused : (get_or_open (with_key (codes "b")) rel (codes "a") empty_pool).1 ≡ some wrong_key
unfolding text_ops map_ops live_ops
refused = refl

get_or_open-backoff_example :
    get_or_open
      (with_key (codes "a"))
      rel
      (codes "a")
      (mark_keyless rel (get_or_open (with_key (codes "b")) rel (codes "a") empty_pool).0)
    ≡ (
      mark_keyless rel (get_or_open (with_key (codes "b")) rel (codes "a") empty_pool).0,
      some wrong_key,
    )
get_or_open-backoff_example =
    get_or_open-backoff (with_key (codes "b")) (with_key (codes "a")) rel (codes "a") empty_pool
      wrong_key refused

abbrev closed_db : LiveDb
closed_db = record { key_hex64 = codes "a"; conn = false; data_version = none }

abbrev marked_pool : LivePool
marked_pool = record { pool = (rel, closed_db) ∷ []; keyless = rel ∷ [] }

marked : is_keyless rel marked_pool ≡ true
unfolding text_ops live_ops
marked = refl

present : lookup rel marked_pool.pool ≡ some closed_db
unfolding text_ops map_ops
present = refl

differ : text_eq (codes "a") (codes "b") ≡ false
unfolding text_ops
differ = refl

other_key : closed_db.key_hex64 ≢ codes "b"
other_key e = absurd (true≢false (sym ((text_eq_iff closed_db.key_hex64 (codes "b")).1 e) ∙ differ))

unmarked : is_keyless rel empty_pool ≡ false
unfolding live_ops
unmarked = refl

not_open : is_open rel empty_pool ≡ false
unfolding live_ops map_ops
not_open = refl

-- SQLite after n commits, and a file that is read, acquired again and committed to once more.
abbrev after_commits : ℕ → Sqlite
after_commits n = record { try_open = λ r k. none; version = λ r. some (pos n) }

abbrev busy : List Happening
busy = commit ∷ acquired (codes "b") ∷ advanced ∷ acquired (codes "b") ∷ commit ∷ []

pos_apart : (m n : ℕ) → pos m ≡ pos n → m ≡ n
pos_apart m n e = cc

run-pending_example :
    foreign_commit_pending
      (after_commits (commits_after busy 3))
      rel
      (run after_commits rel busy
        (3, (get_or_open (after_commits 3) rel (codes "b") empty_pool).0)).1
    ≡ some (not (seen_after busy 3 3 == commits_after busy 3))
run-pending_example =
    run-pending after_commits rel (λ n. pos n) (λ n. refl) pos_apart (codes "b") empty_pool 3 busy
      unmarked not_open refl

abbrev open_db : LiveDb
open_db = record { key_hex64 = codes "b"; conn = true; data_version = some (pos 2) }

abbrev open_pool : LivePool
open_pool = record { pool = (rel, open_db) ∷ []; keyless = [] }

open_there : lookup rel open_pool.pool ≡ some open_db
unfolding text_ops map_ops
open_there = refl

open_unmarked : is_keyless rel open_pool ≡ false
unfolding live_ops
open_unmarked = refl

-- One message file with one table.
abbrev world : World
world = record {
  db_files = record { rel = rel; kind = message } ∷ [];
  src_stamp = λ r. some (record { mtime_ns = pos 5; size = 10 });
  wal_stamp = λ r. none;
  key_for = λ r. some (codes "b");
  sqlite = with_key (codes "b");
  message_tables = λ r.
      record {
        name = codes "t";
        suffix = codes "s";
        read_new = λ wm. some (behind wm (from_ann 3 1002 ∷ []));
      }
      ∷ [];
  table_session = λ s suffix. codes "ann";
  load = λ x s. s;
  now_ms = pos 7;
}

abbrev before_round : AccountSync
before_round = record { store = small_store; pool = empty_pool; stamps = [] }

abbrev running : Stops
running = record { entry = false; apply = false; reload = [] }

poll_once-stamps_example :
    (lookup rel (poll_once world running before_round).0.stamps ≡ lookup rel before_round.stamps)
    ⊎ (Emptied world small_store rel
        × (lookup rel (poll_once world running before_round).0.stamps ≡ some (stamps_of world rel)))
poll_once-stamps_example = poll_once-stamps world running before_round rel

abbrev stopping : Stops
stopping = record { entry = false; apply = true; reload = [] }

poll_once-Discarded_example : Discarded before_round (poll_once world stopping before_round)
poll_once-Discarded_example = poll_once-Discarded world stopping before_round (inr refl)
