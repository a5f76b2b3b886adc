-- ===== src/Db/Live/Pending.antt =====
-- `LivePool` of src/db/live.rs: when a file counts as changed.
use weflow_server.Base.{
  ℕ, suc, ◌==◌, ◌≡◌, refl, ap, ◌∙◌, true, false, not, List, [], ◌∷◌, none, some, arith,
}
use weflow_server.Base.Int.{ℤ, eqb_ℤ, eqb_ℤ_iff}
use weflow_server.Base.Text.{Text}
use weflow_server.Base.Map.{lookup}
use weflow_server.Db.Live.{
  LiveDb, LivePool, Sqlite, is_keyless, acquire, open_entry, get_or_open, is_open,
  foreign_commit_pending, advance_data_version, differs, rebaseline,
}
use weflow_server.Db.Live.Backoff.{lookup-inserted, opened, open_entry-opened}

pending-entry :
    (db : Sqlite) (rel : Text) (p : LivePool) (e : LiveDb) (v : ℤ)
    → lookup rel p.pool ≡ some e
    → e.conn ≡ true
    → db.version rel ≡ some v
    → foreign_commit_pending db rel p ≡ some (differs v e.data_version)
unfolding foreign_commit_pending
pending-entry db rel p e v present held now = rw (present, held, now) refl

advance_data_version-entry :
    (db : Sqlite) (rel : Text) (p : LivePool) (e : LiveDb)
    → lookup rel p.pool ≡ some e
    → lookup rel (advance_data_version db rel p).pool ≡ some (rebaseline db rel e)
unfolding advance_data_version
advance_data_version-entry db rel p e present =
    rw present (lookup-inserted rel (rebaseline db rel e) p)

rebaseline-version :
    (db : Sqlite) (rel : Text) (e : LiveDb) (v : ℤ)
    → e.conn ≡ true
    → db.version rel ≡ some v
    → (rebaseline db rel e).data_version ≡ some v
rebaseline-version db rel e v held now = rw (held, now) refl

-- Acquiring an open connection keeps its baseline.
acquire-held :
    (db : Sqlite) (rel : Text) (e : LiveDb) → e.conn ≡ true → acquire db rel e ≡ (e, none)
unfolding acquire
acquire-held db rel e held = simp held

get_or_open-entry :
    (db : Sqlite) (rel key : Text) (p : LivePool) (e : LiveDb)
    → lookup rel p.pool ≡ some e
    → e.conn ≡ true
    → is_keyless rel p ≡ false
    → lookup rel (get_or_open db rel key p).0.pool ≡ some (record e { key_hex64 = key })
unfolding get_or_open open_entry
get_or_open-entry db rel key p e present held unmarked =
    rw (unmarked, present, acquire-held db rel (record e { key_hex64 = key }) held)
      (lookup-inserted rel _ p)

-- What can follow on an open file: another connection commits to it, its connection is acquired
-- again with some key, or its baseline is moved to the present.
pub data Happening : Type 0 where
  commit : Happening
  acquired : Text → Happening
  advanced : Happening

-- The pool under one happening, where `at n` is SQLite after n commits of others, as the connection
-- that the pool holds on the file sees it. Reads on a connection change neither.
pub happen : (ℕ → Sqlite) → Text → Happening → ℕ × LivePool → ℕ × LivePool
happen at_count rel commit (n, p) = (suc n, p)
happen at_count rel (acquired key) (n, p) = (n, (get_or_open (at_count n) rel key p).0)
happen at_count rel advanced (n, p) = (n, advance_data_version (at_count n) rel p)

pub run : (ℕ → Sqlite) → Text → List Happening → ℕ × LivePool → ℕ × LivePool
unfolding happen
run at_count rel [] s = s
run at_count rel (h ∷ hs) s = run at_count rel hs (happen at_count rel h s)

-- How many commits there were at the last advance, or at the beginning.
pub seen_after : List Happening → ℕ → ℕ → ℕ
seen_after [] n seen = seen
seen_after (commit ∷ hs) n seen = seen_after hs (suc n) seen
seen_after (acquired key ∷ hs) n seen = seen_after hs n seen
seen_after (advanced ∷ hs) n seen = seen_after hs n n

pub commits_after : List Happening → ℕ → ℕ
commits_after [] n = n
commits_after (commit ∷ hs) n = commits_after hs (suc n)
commits_after (acquired key ∷ hs) n = commits_after hs n
commits_after (advanced ∷ hs) n = commits_after hs n

-- The pool holds an open connection whose baseline is the data version `v`.
record Tracked (rel : Text) (v : ℤ) (p : LivePool) : Type 0 where
  entry : LiveDb
  present : lookup rel p.pool ≡ some entry
  held : entry.conn ≡ true
  baseline : entry.data_version ≡ some v
  unmarked : is_keyless rel p ≡ false

get_or_open-keyless :
    (db : Sqlite) (rel key : Text) (p : LivePool)
    → is_keyless rel p ≡ false
    → is_keyless rel (get_or_open db rel key p).0 ≡ false
unfolding get_or_open open_entry is_keyless
get_or_open-keyless db rel key p unmarked = rw unmarked unmarked

Tracked-acquired :
    (db : Sqlite) (rel key : Text) (v : ℤ) (p : LivePool)
    → Tracked rel v p
    → Tracked rel v (get_or_open db rel key p).0
Tracked-acquired db rel key v p t = record {
  entry = record t.entry { key_hex64 = key };
  present = get_or_open-entry db rel key p t.entry t.present t.held t.unmarked;
  held = t.held;
  baseline = t.baseline;
  unmarked = get_or_open-keyless db rel key p t.unmarked;
}

Tracked-advanced :
    (db : Sqlite) (rel : Text) (v w : ℤ) (p : LivePool)
    → db.version rel ≡ some w
    → Tracked rel v p
    → Tracked rel w (advance_data_version db rel p)
unfolding advance_data_version is_keyless
Tracked-advanced db rel v w p now t = record {
  entry = rebaseline db rel t.entry;
  present = advance_data_version-entry db rel p t.entry t.present;
  held = t.held;
  baseline = rebaseline-version db rel t.entry w t.held now;
  unmarked = t.unmarked;
}

Tracked-opened :
    (db : Sqlite) (rel key : Text) (p : LivePool) (v : ℤ)
    → is_keyless rel p ≡ false
    → is_open rel p ≡ false
    → db.try_open rel key ≡ none
    → db.version rel ≡ some v
    → Tracked rel v (get_or_open db rel key p).0
unfolding get_or_open is_keyless
Tracked-opened db rel key p v unmarked closed works now =
    let there : Tracked rel v (opened db rel key p) = record {
      entry = record { key_hex64 = key; conn = true; data_version = db.version rel };
      present = lookup-inserted rel _ p;
      held = refl;
      baseline = now;
      unmarked = unmarked;
    } in
    rw (unmarked, open_entry-opened db rel key p closed works) there

-- The data version of the connection that is held tells the counts of commits apart.
module _ (at_count : ℕ → Sqlite) (rel : Text) (version : ℕ → ℤ)
    (answers : (n : ℕ) → (at_count n).version rel ≡ some (version n))
    (apart : (m n : ℕ) → version m ≡ version n → m ≡ n) where
  versions-eq : (m n : ℕ) → eqb_ℤ (version m) (version n) ≡ (m == n)
  versions-eq m n = ground (arith, eqb_ℤ_iff (version m) (version n), apart m n, ap version)

  run-Tracked :
      (hs : List Happening) (n seen : ℕ) (p : LivePool)
      → Tracked rel (version seen) p
      → ((run at_count rel hs (n, p)).0 ≡ commits_after hs n)
        × Tracked rel (version (seen_after hs n seen)) (run at_count rel hs (n, p)).1
  unfolding run commits_after seen_after
  run-Tracked [] n seen p t = (refl, t)
  run-Tracked (commit ∷ hs) n seen p t = run-Tracked hs (suc n) seen p t
  run-Tracked (acquired key ∷ hs) n seen p t =
      run-Tracked hs n seen _ (Tracked-acquired (at_count n) rel key (version seen) p t)
  run-Tracked (advanced ∷ hs) n seen p t =
      run-Tracked hs n n _
        (Tracked-advanced (at_count n) rel (version seen) (version n) p (answers n) t)

  Tracked-pending :
      (n seen : ℕ) (p : LivePool)
      → Tracked rel (version seen) p
      → foreign_commit_pending (at_count n) rel p ≡ some (not (seen == n))
  Tracked-pending n seen p t =
      pending-entry (at_count n) rel p t.entry (version n) t.present t.held (answers n)
      ∙ rw (t.baseline, versions-eq seen n) refl

  -- A file that is not open and not marked is opened, with a key that opens it, when n commits have
  -- been made. Whatever commits of others, acquisitions and advances follow in whatever order, it
  -- counts as changed exactly if the number of commits is another than at the last advance, or at the
  -- opening if there was none. The data version that the held connection answers is asked to differ
  -- with the number of commits.
  pub run-pending :
      (key : Text) (p : LivePool) (n : ℕ) (hs : List Happening)
      → is_keyless rel p ≡ false
      → is_open rel p ≡ false
      → (at_count n).try_open rel key ≡ none
      → foreign_commit_pending
          (at_count (commits_after hs n))
          rel
          (run at_count rel hs (n, (get_or_open (at_count n) rel key p).0)).1
        ≡ some (not (seen_after hs n n == commits_after hs n))
  run-pending key p n hs unmarked closed works =
      let start =
        Tracked-opened (at_count n) rel key p (version n) unmarked closed works (answers n) in
      Tracked-pending (commits_after hs n) (seen_after hs n n) _
        (run-Tracked hs n n (get_or_open (at_count n) rel key p).0 start).1
