-- ===== src/Sync/Poll/Ledger.antt =====
-- What a round of the poll remembers of a file, and what a failed or stopped round leaves.
use weflow_server.Base.{
  ◌≡◌, refl, ap, ◌∙◌, ◌⊎◌, inl, inr, Bool, true, false, ◌||◌, List, [], ◌∷◌, Option, none, some,
  unwrap_or, All, Bool-cases, Option-cases,
}
use weflow_server.Base.Text.{Text, text_eq, text_eq_iff}
use weflow_server.Base.Map.{Map, lookup, lookup-insert}
use weflow_server.Store.{Store}
use weflow_server.Db.Live.{AcquireError, LivePool, get_or_open}
use weflow_server.Sync.{Event}
use weflow_server.Sync.Apply.{apply_read}
use weflow_server.Sync.Poll.{
  Work, messages, sessions, moments, contacts, group_meta, work_file, DbStamps, World, AccountSync,
  stamps_of, Phase1, loaded, reload_file, reload_section, reload_sections, was_read, remember,
  remember_read, Stops, finish_round, poll_once, classify_changed,
}
use weflow_server.Sync.Poll.Emptied.{Emptied}
use weflow_server.Sync.Poll.Round.{poll_once-entry, poll_once-cases}

loaded-stamps :
    (w : World) (x : Work) (c : LivePool × Option AcquireError) (a : AccountSync)
    → (loaded w x c a).stamps ≡ a.stamps
loaded-stamps w x (pool, none) a = refl
loaded-stamps w x (pool, some e) a = refl

reload_file-stamps :
    (w : World) (x : Work) (a : AccountSync) → (reload_file w x a).stamps ≡ a.stamps
unfolding reload_file
reload_file-stamps w x a = elim (Option-cases (w.key_for (work_file x).rel)) [
  | inl unkeyed ↦ rw (unkeyed, reload_file) refl
  | inr (key, keyed) ↦
      rw (keyed, reload_file)
        (loaded-stamps w x (get_or_open w.sqlite (work_file x).rel key a.pool) a)
]

reload_section-stamps :
    (w : World) (x : Work) (a : AccountSync) → (reload_section w x a).stamps ≡ a.stamps
unfolding reload_section
reload_section-stamps w (messages f) a = refl
reload_section-stamps w (sessions f) a = reload_file-stamps w (sessions f) a
reload_section-stamps w (moments f) a = reload_file-stamps w (moments f) a
reload_section-stamps w (contacts f) a = reload_file-stamps w (contacts f) a
reload_section-stamps w (group_meta f) a = reload_file-stamps w (group_meta f) a

reload_sections-stamps :
    (w : World) (stops : List Bool) (xs : List Work) (a : AccountSync)
    → (reload_sections w stops xs a).0.stamps ≡ a.stamps
unfolding reload_sections
reload_sections-stamps w stops [] a = refl
reload_sections-stamps w [] (x ∷ xs) a =
    reload_sections-stamps w [] xs (reload_section w x a) ∙ reload_section-stamps w x a
reload_sections-stamps w (true ∷ stops) (x ∷ xs) a = refl
reload_sections-stamps w (false ∷ stops) (x ∷ xs) a =
    reload_sections-stamps w stops xs (reload_section w x a) ∙ reload_section-stamps w x a

-- Unchanged stamps, or those that the file shows now, where the file was read.
abbrev Moved : World → List Text → Text → Map DbStamps → Map DbStamps → Type 0
Moved w read_done rel old new =
    (lookup rel new ≡ lookup rel old)
    ⊎ ((was_read read_done rel ≡ true) × (lookup rel new ≡ some (stamps_of w rel)))

remember-Moved :
    (w : World) (read_done : List Text) (file rel : Text) (a : AccountSync)
    → was_read read_done file ≡ true
    → Moved w read_done rel a.stamps (remember w file a).stamps
remember-Moved w read_done file rel a read = elim (Bool-cases (text_eq file rel)) [
  | inl same ↦
      let e : file ≡ rel = (text_eq_iff file rel).0 same in
      inr (
        rw e at read,
        rw (lookup-insert file rel (stamps_of w file) a.stamps, same)
            (ap (λ f. some (stamps_of w f)) e),
      )
  | inr other ↦ inl (rw (lookup-insert file rel (stamps_of w file) a.stamps, other) refl)
]

Moved-trans :
    (w : World) (read_done : List Text) (rel : Text) (old mid new : Map DbStamps)
    → Moved w read_done rel old mid
    → Moved w read_done rel mid new
    → Moved w read_done rel old new
Moved-trans w read_done rel old mid new h (inr k) = inr k
Moved-trans w read_done rel old mid new (inl h) (inl k) = inl (k ∙ h)
Moved-trans w read_done rel old mid new (inr (r, h)) (inl k) = inr (r, k ∙ h)

remember_read-Moved :
    (w : World) (read_done : List Text) (xs : List Work) (a : AccountSync) (rel : Text)
    → Moved w read_done rel a.stamps (remember_read w read_done xs a).stamps
unfolding remember_read
remember_read-Moved w read_done [] a rel = inl refl
remember_read-Moved w read_done (x ∷ xs) a rel =
    elim (Bool-cases (was_read read_done (work_file x).rel)) [
      | inl read ↦
          let next : AccountSync = remember w (work_file x).rel a in
          rw (read, remember_read)
            (Moved-trans w read_done rel a.stamps next.stamps _
              (remember-Moved w read_done (work_file x).rel rel a read)
              (remember_read-Moved w read_done xs next rel))
      | inr unread ↦ rw (unread, remember_read) (remember_read-Moved w read_done xs a rel)
    ]

-- The round up to the third phase, not stopped under the write lock.
abbrev reloaded : World → Stops → List Work → Phase1 → AccountSync → AccountSync × Bool
reloaded w stops work p a =
    reload_sections w stops.reload work
      (record a { pool = p.pool; store = (apply_read false p.rows a.store).0 })

reloaded-stamps :
    (w : World) (stops : Stops) (work : List Work) (p : Phase1) (a : AccountSync)
    → (reloaded w stops work p a).0.stamps ≡ a.stamps
reloaded-stamps w stops work p a = reload_sections-stamps w stops.reload work _

finish_round-Moved :
    (w : World) (stops : Stops) (work : List Work) (p : Phase1) (a : AccountSync) (rel : Text)
    → Moved w p.read_done rel a.stamps (finish_round w stops work p a).0.stamps
unfolding finish_round
finish_round-Moved w stops work p a rel = elim (Bool-cases stops.apply) [
  | inl stop ↦ rw (stop, finish_round) (inl refl)
  | inr go ↦ elim (Bool-cases (reloaded w stops work p a).1) [
    | inl through ↦
        rw (go, finish_round, through)
          (Moved-trans w p.read_done rel a.stamps (reloaded w stops work p a).0.stamps _
            (inl (ap (lookup rel) (reloaded-stamps w stops work p a)))
            (remember_read-Moved w p.read_done work (reloaded w stops work p a).0 rel))
    | inr halted ↦
        rw (go, finish_round, halted) (inl (ap (lookup rel) (reloaded-stamps w stops work p a)))
  ]
]

Emptied-was_read :
    (w : World) (s : Store) (rel : Text) (rels : List Text)
    → All (Emptied w s) rels
    → was_read rels rel ≡ true
    → Emptied w s rel
Emptied-was_read w s rel [] h e = absurd cc
Emptied-was_read w s rel (r ∷ rels) h e = elim (Bool-cases (text_eq rel r)) [
  | inl same ↦ rw ((text_eq_iff rel r).0 same) h.0
  | inr other ↦ Emptied-was_read w s rel rels h.1 (rw other at e)
]

-- After a round, the stamps of a source file are those from before it, or those that the file shows
-- now; the latter only for a file each message table of which was read, from its watermark on, until
-- a read gave fewer rows than a page holds.
-- A file that could not be opened, or was read in part, is thus not taken for read.
pub poll_once-stamps :
    (w : World) (stops : Stops) (a : AccountSync) (rel : Text)
    → (lookup rel (poll_once w stops a).0.stamps ≡ lookup rel a.stamps)
      ⊎ (Emptied w a.store rel
          × (lookup rel (poll_once w stops a).0.stamps ≡ some (stamps_of w rel)))
poll_once-stamps w stops a rel = elim (poll_once-cases w stops a) [
  | inl e ↦ rw e (inl refl)
  | inr (inl (pool, e)) ↦ rw e (inl refl)
  | inr (inr (p, emptied, e)) ↦
      rw e (elim (finish_round-Moved w stops (classify_changed w a) p a rel) [
        | inl k ↦ inl k
        | inr (r, k) ↦ inr (Emptied-was_read w a.store rel p.read_done emptied r, k)
      ])
]

finish_round-stopped :
    (w : World) (stops : Stops) (work : List Work) (p : Phase1) (a : AccountSync)
    → stops.apply ≡ true
    → finish_round w stops work p a ≡ (record a { pool = p.pool }, [])
unfolding finish_round apply_read
finish_round-stopped w stops work p a stop = rw stop refl

-- A round that leaves the store and the stamps and publishes nothing.
abbrev pub Discarded : AccountSync → AccountSync × Option (List Event) → Type 0
Discarded a r = (r.0.store ≡ a.store) × (r.0.stamps ≡ a.stamps) × (unwrap_or r.1 [] ≡ [])

poll_once-applied :
    (w : World) (stops : Stops) (a : AccountSync)
    → stops.apply ≡ true
    → Discarded a (poll_once w stops a)
poll_once-applied w stops a stop = elim (poll_once-cases w stops a) [
  | inl e ↦ rw e (refl, refl, refl)
  | inr (inl (pool, e)) ↦ rw e (refl, refl, refl)
  | inr (inr (p, emptied, e)) ↦
      rw (e, finish_round-stopped w stops (classify_changed w a) p a stop) (refl, refl, refl)
]

-- A round in which a read fails, or on whose entry or during whose reads the account is
-- deregistered, leaves the store and the stamps as they were and publishes nothing.
pub poll_once-Discarded :
    (w : World) (stops : Stops) (a : AccountSync)
    → ((poll_once w stops a).1 ≡ none) ⊎ ((stops.entry || stops.apply) ≡ true)
    → Discarded a (poll_once w stops a)
poll_once-Discarded w stops a (inl failed) = elim (poll_once-cases w stops a) [
  | inl e ↦ rw e (refl, refl, refl)
  | inr (inl (pool, e)) ↦ rw e (refl, refl, refl)
  | inr (inr (p, emptied, e)) ↦ absurd (let g = rw e at failed in cc)
]
poll_once-Discarded w stops a (inr stop) = elim (Bool-cases stops.entry) [
  | inl entry ↦ rw (poll_once-entry w stops a entry) (refl, refl, refl)
  | inr go ↦ poll_once-applied w stops a (rw go at stop)
]
