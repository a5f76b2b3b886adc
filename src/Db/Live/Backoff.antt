-- ===== src/Db/Live/Backoff.antt =====
-- `LivePool` of src/db/live.rs: a key that was refused, and the key that replaces it.
use weflow_server.Base.{
  ◌≡◌, ◌≢◌, refl, ◌∙◌, true, false, not, List, [], ◌∷◌, none, some, arith, unwrap_or, any, retain,
  Bool-cases, Option-cases, inl, inr,
}
use weflow_server.Base.Text.{Text, text_eq, text_eq_iff, text_eq_refl}
use weflow_server.Base.Map.{lookup, insert, lookup-insert}
use weflow_server.Db.Live.{
  AcquireError, wrong_key, LiveDb, LivePool, Sqlite, mark_keyless, is_keyless, forget_keyless,
  acquire, same_key, open_entry, get_or_open, is_open, new_live_db,
}

pub lookup-inserted :
    (rel : Text) (e : LiveDb) (p : LivePool) → lookup rel (insert rel e p.pool) ≡ some e
lookup-inserted rel e p = rw (lookup-insert rel rel e p.pool, text_eq_refl rel) refl

-- What a failed attempt leaves: a closed entry with the key that failed.
acquire-failed :
    (db : Sqlite) (rel : Text) (e : LiveDb) (why : AcquireError)
    → (acquire db rel e).1 ≡ some why
    → ((acquire db rel e).0 ≡ e) × (e.conn ≡ false)
unfolding acquire
acquire-failed db rel e why h = elim (Bool-cases e.conn) [
  | inl held ↦ absurd (let g = rw held at h in cc)
  | inr closed ↦ elim (Option-cases (db.try_open rel e.key_hex64)) [
    | inl t ↦ absurd (let g = rw (closed, t) at h in cc)
    | inr (x, t) ↦ (simp (closed, t), closed)
  ]
]

open_entry-failed :
    (db : Sqlite) (rel key : Text) (p : LivePool) (why : AcquireError)
    → (open_entry db rel key p).1 ≡ some why
    → same_key key (lookup rel (open_entry db rel key p).0.pool) ≡ true
unfolding open_entry
open_entry-failed db rel key p why h =
    let entry : LiveDb = record (unwrap_or (lookup rel p.pool) (new_live_db key)) {
      key_hex64 = key;
    } in
    let stays = acquire-failed db rel entry why h in
    rw (lookup-inserted rel (acquire db rel entry).0 p, stays.0)
      (rw (stays.1, text_eq_refl key) refl)

get_or_open-failed :
    (db : Sqlite) (rel key : Text) (p : LivePool) (why : AcquireError)
    → (get_or_open db rel key p).1 ≡ some why
    → same_key key (lookup rel (get_or_open db rel key p).0.pool) ≡ true
unfolding get_or_open
get_or_open-failed db rel key p why h = elim (Bool-cases (is_keyless rel p)) [
  | inl marked ↦ elim (Bool-cases (same_key key (lookup rel p.pool))) [
    | inl same ↦ rw (marked, same) same
    | inr new ↦
        rw (marked, new)
          (open_entry-failed db rel key (forget_keyless rel p) why (rw (marked, new) at h))
  ]
  | inr fresh ↦ rw fresh (open_entry-failed db rel key p why (rw fresh at h))
]

marked-refused :
    (db : Sqlite) (rel key : Text) (p : LivePool)
    → same_key key (lookup rel p.pool) ≡ true
    → get_or_open db rel key (mark_keyless rel p) ≡ (mark_keyless rel p, some wrong_key)
unfolding get_or_open mark_keyless is_keyless
marked-refused db rel key p same = rw (text_eq_refl rel, same) refl

-- Once an attempt has failed and the file is marked, the next attempt with the same key fails at
-- once, whatever the file has become: the pool stays as it is and the file is not opened.
pub get_or_open-backoff :
    (db later : Sqlite) (rel key : Text) (p : LivePool) (why : AcquireError)
    → (get_or_open db rel key p).1 ≡ some why
    → get_or_open later rel key (mark_keyless rel (get_or_open db rel key p).0)
      ≡ (mark_keyless rel (get_or_open db rel key p).0, some wrong_key)
get_or_open-backoff db later rel key p why h =
    marked-refused later rel key (get_or_open db rel key p).0
      (get_or_open-failed db rel key p why h)

acquire-opened :
    (db : Sqlite) (rel : Text) (e : LiveDb)
    → e.conn ≡ false
    → db.try_open rel e.key_hex64 ≡ none
    → acquire db rel e ≡ (record e { conn = true; data_version = db.version rel }, none)
unfolding acquire
acquire-opened db rel e closed works = rw (closed, works) refl

-- The pool with a new connection for a file.
abbrev pub opened : Sqlite → Text → Text → LivePool → LivePool
opened db rel key p = record p {
  pool = insert rel (record { key_hex64 = key; conn = true; data_version = db.version rel }) p.pool;
}

pub open_entry-opened :
    (db : Sqlite) (rel key : Text) (p : LivePool)
    → is_open rel p ≡ false
    → db.try_open rel key ≡ none
    → open_entry db rel key p ≡ (opened db rel key p, none)
unfolding open_entry is_open
open_entry-opened db rel key p closed works = elim (Option-cases (lookup rel p.pool)) [
  | inl absent ↦ rw (absent, acquire-opened db rel (new_live_db key) refl works) refl
  | inr (e, present) ↦
      rw
        (present, acquire-opened db rel (record e { key_hex64 = key }) (rw present at closed) works)
        refl
]

forgotten :
    (rel : Text) (rels : List Text)
    → any (text_eq rel) (retain (λ k. not (text_eq rel k)) rels) ≡ false
forgotten rel [] = refl
forgotten rel (k ∷ rels) = elim (Bool-cases (text_eq rel k)) [
  | inl same ↦ rw same (forgotten rel rels)
  | inr other ↦ rw (other, other, forgotten rel rels) refl
]

forget_keyless-is_keyless :
    (rel : Text) (p : LivePool) → is_keyless rel (forget_keyless rel p) ≡ false
unfolding is_keyless forget_keyless
forget_keyless-is_keyless rel p = forgotten rel p.keyless

forget_keyless-is_open :
    (rel : Text) (p : LivePool) → is_open rel (forget_keyless rel p) ≡ is_open rel p
unfolding is_open forget_keyless
forget_keyless-is_open rel p = refl

closed-is_open :
    (rel : Text) (p : LivePool) (e : LiveDb)
    → lookup rel p.pool ≡ some e
    → e.conn ≡ false
    → is_open rel p ≡ false
unfolding is_open
closed-is_open rel p e present closed = rw present closed

opened-is_open :
    (db : Sqlite) (rel key : Text) (p : LivePool) → is_open rel (opened db rel key p) ≡ true
unfolding is_open
opened-is_open db rel key p = rw (lookup-inserted rel _ p) refl

opened-is_keyless :
    (db : Sqlite) (rel key : Text) (p : LivePool)
    → is_keyless rel (opened db rel key p) ≡ is_keyless rel p
unfolding is_keyless
opened-is_keyless db rel key p = refl

-- A marked file with another key registered, which opens it: the mark goes, and the file is open.
pub get_or_open-recovers :
    (db : Sqlite) (rel key : Text) (p : LivePool) (e : LiveDb)
    → is_keyless rel p ≡ true
    → lookup rel p.pool ≡ some e
    → e.conn ≡ false
    → e.key_hex64 ≢ key
    → db.try_open rel key ≡ none
    → (get_or_open db rel key p ≡ (opened db rel key (forget_keyless rel p), none))
      × (is_keyless rel (get_or_open db rel key p).0 ≡ false)
      × (is_open rel (get_or_open db rel key p).0 ≡ true)
unfolding get_or_open
get_or_open-recovers db rel key p e marked present closed other works =
    let new : same_key key (lookup rel p.pool) ≡ false =
      rw present (ground (arith, text_eq_iff e.key_hex64 key)) in
    let shut : is_open rel (forget_keyless rel p) ≡ false =
      forget_keyless-is_open rel p ∙ closed-is_open rel p e present closed in
    rw (marked, new, open_entry-opened db rel key (forget_keyless rel p) shut works)
      (
        refl,
        opened-is_keyless db rel key _ ∙ forget_keyless-is_keyless rel p,
        opened-is_open db rel key (forget_keyless rel p),
      )
