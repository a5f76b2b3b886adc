-- ===== src/Sync/Poll/Emptied.antt =====
-- The files that the first phase of a round reports as read were read to the end.
use mathlib.Core.Option.{some-injective}
use weflow_server.Base.{
  ℕ, suc, zero, ◌<◌, leb, length, ap, sym, refl, unwrap_or, Bool, Bool-cases, arith, option_map,
  not, ◌&&◌, and-eq-true, ◌≡◌, inl, inr, Bool, true, false, List, [], ◌∷◌, Option, none, some, All,
  All-append, Option-cases,
}
use weflow_server.Base.Text.{Text}
use weflow_server.Store.{Store}
use weflow_server.Db.Live.{AcquireError, wrong_key, missing, io, LivePool, get_or_open}
use weflow_server.Sync.Apply.{Read}
use weflow_server.Base.Map.{lookup}
use weflow_server.Store.{Watermark, MessageRecord, no_watermark}
use weflow_server.Sync.Drain.{Drained, drain, after_page, advance, read_page, read_max_pages}
use weflow_server.Sync.Poll.{
  Table, watermark_key, Work, messages, sessions, moments, contacts, group_meta, World, read_tables,
  Phase1, note_read, with_connection, read_file, read_work,
}

-- The watermark from which a table of a file is read.
abbrev pub stored_mark : Store → Text → Table → Watermark
stored_mark s rel t = unwrap_or (lookup (watermark_key rel t.name) s.watermarks) no_watermark

-- A table that was read until a page was not full: a read of it, the last of the loop, gave fewer
-- rows than a page holds.
abbrev pub DrainedAll : Store → Text → Table → Type 0
DrainedAll s rel t =
    (d : Drained) × (mark : Watermark) × (rows : List MessageRecord) × (drain t.read_new read_page
        read_max_pages (stored_mark s rel t)
      ≡ some d)
    × (t.read_new mark ≡ some rows)
    × (length rows < read_page)
    × (d.cursor ≡ advance mark rows)

-- Every message table of the file was.
abbrev pub Emptied : World → Store → Text → Type 0
Emptied w s rel = All (DrainedAll s rel) (w.message_tables rel)

-- The last read of a loop that says that nothing is left.
abbrev LastPage : (Watermark → Option (List MessageRecord)) → ℕ → Drained → Type 0
LastPage read page d =
    (mark : Watermark) × (rows : List MessageRecord) × (read mark ≡ some rows)
    × (length rows < page)
    × (d.cursor ≡ advance mark rows)

module _ (read : Watermark → Option (List MessageRecord)) (page : ℕ) where
  after_page-LastPage :
      (rows : List MessageRecord) (rest : Option Drained) (d : Drained)
      → ((e : Drained) → rest ≡ some e → e.drained_all ≡ true → LastPage read page e)
      → option_map (after_page rows) rest ≡ some d
      → d.drained_all ≡ true
      → LastPage read page d
  after_page-LastPage rows none d later h all = absurd cc
  after_page-LastPage rows (some e) d later h all =
      let same = some-injective (after_page rows e) d h in
      rw (← same) (later e refl (rw (← same) at all))

  last-LastPage :
      (wm : Watermark) (rows : List MessageRecord) (d : Drained) (all : Bool)
      → read wm ≡ some rows
      → some record { rows = rows; cursor = advance wm rows; drained_all = all } ≡ some d
      → length rows < page
      → LastPage read page d
  last-LastPage wm rows d all got h short =
      (wm, rows, got, short, ap (λ (e : Drained). e.cursor) (sym (some-injective _ d h)))

  drain-LastPage :
      (n : ℕ) (wm : Watermark) (d : Drained)
      → drain read page n wm ≡ some d
      → d.drained_all ≡ true
      → LastPage read page d
  unfolding drain
  drain-LastPage zero wm d h all = absurd cc
  drain-LastPage (suc zero) wm d h all = elim (Option-cases (read wm)) [
    | inl failed ↦ absurd (let g = (rw failed at h) in cc)
    | inr (rows, got) ↦
        let last = (rw got at h) in
        let e : not (leb page (length rows)) ≡ d.drained_all =
          ap (λ (x : Drained). x.drained_all) (some-injective _ d last) in
        last-LastPage wm rows d (not (leb page (length rows))) got last (ground arith)
  ]
  drain-LastPage (suc (suc n)) wm d h all = elim (Option-cases (read wm)) [
    | inl failed ↦ absurd (let g = (rw failed at h) in cc)
    | inr (rows, got) ↦ elim (Bool-cases (leb page (length rows))) [
      | inl full ↦
          after_page-LastPage rows (drain read page (suc n) (advance wm rows)) d
            (λ e g a. drain-LastPage (suc n) (advance wm rows) e g a) (rw (got, full) at h) all
      | inr short ↦ last-LastPage wm rows d true got (rw (got, short) at h) (ground arith)
    ]
  ]

read_tables-DrainedAll :
    (w : World) (s : Store) (rel : Text) (ts : List Table) (all : Bool) (r after : Read)
    → read_tables w s rel ts all r ≡ some (after, true)
    → (all ≡ true) × All (DrainedAll s rel) ts
unfolding read_tables
read_tables-DrainedAll w s rel [] all r after h =
    (ap (λ (x : Read × Bool). x.1) (some-injective (r, all) (after, true) h), tt)
read_tables-DrainedAll w s rel (t ∷ ts) all r after h =
    elim (Option-cases (drain t.read_new read_page read_max_pages (stored_mark s rel t))) [
      | inl failed ↦ absurd (let g = (rw failed at h) in cc)
      | inr (d, read) ↦
          let later =
            read_tables-DrainedAll w s rel ts (all && d.drained_all) _ after (rw read at h) in
          let both = and-eq-true all d.drained_all later.0 in
          let last =
            drain-LastPage t.read_new read_page read_max_pages (stored_mark s rel t) d read
              both.1 in
          (both.0, ((d, last.0, last.1, read, last.2, last.3, last.4), later.1))
    ]

pub note_read-Emptied :
    (w : World) (s : Store) (rel : Text) (p : Phase1) (before : Read) (r : Read × Bool)
    → read_tables w s rel (w.message_tables rel) true before ≡ some r
    → All (Emptied w s) p.read_done
    → All (Emptied w s) (note_read rel p r).read_done
note_read-Emptied w s rel p before (r, true) e h =
    let drained = read_tables-DrainedAll w s rel (w.message_tables rel) true before r e in
    All-append (Emptied w s) p.read_done (rel ∷ []) h (drained.1, tt)
note_read-Emptied w s rel p before (r, false) e h = h

pub with_connection-Emptied :
    (w : World) (s : Store) (rel : Text) (p : Phase1) (c : LivePool × Option AcquireError)
    (q : Phase1)
    → All (Emptied w s) p.read_done
    → (with_connection w s rel p c).1 ≡ some q
    → All (Emptied w s) q.read_done
with_connection-Emptied w s rel p (pool, none) q h e =
    elim (Option-cases (read_tables w s rel (w.message_tables rel) true p.rows)) [
      | inl failed ↦ absurd (let g = rw failed at e in cc)
      | inr (r, done) ↦
          let same = some-injective (note_read rel (record p { pool = pool }) r) q (rw done at e) in
          rw (← same) (note_read-Emptied w s rel (record p { pool = pool }) p.rows r done h)
    ]
with_connection-Emptied w s rel p (pool, some wrong_key) q h e = rw (← some-injective _ q e) h
with_connection-Emptied w s rel p (pool, some missing) q h e = rw (← some-injective _ q e) h
with_connection-Emptied w s rel p (pool, some io) q h e = rw (← some-injective _ q e) h

pub read_file-Emptied :
    (w : World) (s : Store) (rel : Text) (p q : Phase1)
    → All (Emptied w s) p.read_done
    → (read_file w s rel p).1 ≡ some q
    → All (Emptied w s) q.read_done
unfolding read_file
read_file-Emptied w s rel p q h e = elim (Option-cases (w.key_for rel)) [
  | inl unkeyed ↦ rw (← some-injective p q (rw (unkeyed, read_file) at e)) h
  | inr (key, keyed) ↦
      with_connection-Emptied w s rel p (get_or_open w.sqlite rel key p.pool) q h
        (rw (keyed, read_file) at e)
]

pub read_work-Emptied :
    (w : World) (s : Store) (ws : List Work) (p q : Phase1)
    → All (Emptied w s) p.read_done
    → (read_work w s ws p).1 ≡ some q
    → All (Emptied w s) q.read_done
unfolding read_work
read_work-Emptied w s [] p q h e = rw (← some-injective p q e) h
read_work-Emptied w s (messages f ∷ ws) p q h e = elim (Option-cases (read_file w s f.rel p).1) [
  | inl failed ↦ absurd (let g = rw (failed, read_work) at e in cc)
  | inr (m, read) ↦
      read_work-Emptied w s ws m q (read_file-Emptied w s f.rel p m h read)
        (rw (read, read_work) at e)
]
read_work-Emptied w s (sessions f ∷ ws) p q h e = read_work-Emptied w s ws p q h e
read_work-Emptied w s (moments f ∷ ws) p q h e = read_work-Emptied w s ws p q h e
read_work-Emptied w s (contacts f ∷ ws) p q h e = read_work-Emptied w s ws p q h e
read_work-Emptied w s (group_meta f ∷ ws) p q h e = read_work-Emptied w s ws p q h e
