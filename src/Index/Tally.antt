-- ===== src/Index/Tally.antt =====
-- The counter at the end of a full build, on each of its ways out.
use weflow_server.Base.{
  ◌≡◌, refl, ◌∙◌, Bool, true, false, List, [], Option, none, some, arith, inl, inr, Bool-cases,
  Option-cases, find, retain,
}
use weflow_server.Base.Text.{Text, codes}
use weflow_server.Parser.Content.{Decoders}
use weflow_server.Store.{Store, total_messages, mark_index_built, empty_store}
use weflow_server.Db.{DbKind, DbFile, session, contact, contact_fts, sns, message}
use weflow_server.Db.Live.{AcquireError, LivePool, get_or_open}
use weflow_server.Index.{Connection, Row, Rows}
use weflow_server.Index.Sections.{
  load_sessions, load_sessions_from, session_table, session_username, load_contacts,
  contact_username, loaded_by, with_rows,
}
use weflow_server.Index.Rooms.{load_chatroom_meta, load_group_cards, uid_map, no_uids}
use weflow_server.Index.Build.{IndexProgress, set_tables_total, Source, BuildState, opened_or}
use weflow_server.Index.Full.{
  is_kind, section, sessions_from, contacts_from, cards_from, leave_store, count_tables,
  scan_messages, build_all_live_inner, build_all_live, fill_if, then_if, optional_section,
}
use weflow_server.Index.Counts.{Agrees, scan_files-Agrees}

-- No conversation is there yet, and no row is counted.
abbrev Untouched : BuildState → Type 0
Untouched b = (b.store.convs ≡ []) × (b.progress.messages_indexed ≡ 0)

loaded_by-convs :
    (c : Option Text) (query : Text → Option Rows) (s : Store) (add : List Row → Store)
    → ((rows : List Row) → (add rows).convs ≡ s.convs)
    → (loaded_by c query s add).0.convs ≡ s.convs
loaded_by-convs none query s add keeps = refl
loaded_by-convs (some c) query s add keeps = elim (Option-cases (query c)) [
  | inl refused ↦ rw (refused, with_rows) refl
  | inr (r, rows) ↦ rw (rows, with_rows) (keeps r.rows)
]

load_sessions-convs :
    (d : Decoders) (conn : Connection) (s : Store) → (load_sessions d conn s).0.convs ≡ s.convs
unfolding load_sessions load_sessions_from
load_sessions-convs d conn s = elim (Option-cases (session_table conn)) [
  | inl absent ↦ rw (absent, load_sessions) refl
  | inr (t, there) ↦
      rw (there, load_sessions)
        (loaded_by-convs (session_username (conn.table_columns t)) _ s _ (λ rows. refl))
]

load_contacts-convs :
    (d : Decoders) (conn : Connection) (s : Store) → (load_contacts d conn s).0.convs ≡ s.convs
unfolding load_contacts
load_contacts-convs d conn s =
    loaded_by-convs (contact_username (conn.table_columns (codes "contact"))) _ s _ (λ rows. refl)

load_chatroom_meta-convs :
    (d : Decoders) (conn : Connection) (s : Store) → (load_chatroom_meta d conn s).convs ≡ s.convs
unfolding load_chatroom_meta
load_chatroom_meta-convs d conn s = elim (Bool-cases (no_uids (uid_map d conn))) [
  | inl unnamed ↦ rw unnamed refl
  | inr named ↦ rw named refl
]

load_group_cards-convs :
    (d : Decoders) (conn : Connection) (s : Store) → (load_group_cards d conn s).convs ≡ s.convs
unfolding load_group_cards
load_group_cards-convs d conn s = ground arith

module _ (src : Source) where
  -- What a section's load keeps, the section keeps.
  section-keeps :
      (P : BuildState → Type 0) (kind : DbKind) (load : Connection → BuildState → BuildState)
      (files : List DbFile) (b : BuildState)
      → ((pool : LivePool) → P b → P (record b { pool = pool }))
      → ((conn : Connection) (b' : BuildState) → P b' → P (load conn b'))
      → P b
      → P (section src kind load files b).0
  section-keeps P kind load files b pools keeps h =
      elim (Option-cases (find (is_kind kind) files)) [
        | inl absent ↦ rw (absent, section) h
        | inr (f, there) ↦ elim (Option-cases (src.key_for f.rel)) [
          | inl unkeyed ↦ rw (there, section, unkeyed) h
          | inr (key, keyed) ↦
              rw (there, section, keyed) (opened_keeps (get_or_open src.sqlite f.rel key b.pool) f)
        ]
      ]
    where
      opened_keeps :
          (o : LivePool × Option AcquireError) (f : DbFile)
          → P (opened_or load (src.conn f.rel) b o)
      opened_keeps (pool, none) f = keeps (src.conn f.rel) (record b { pool = pool }) (pools pool h)
      opened_keeps (pool, some why) f = pools pool h

  sessions-Untouched :
      (files : List DbFile) (b : BuildState)
      → Untouched b
      → Untouched (section src session (sessions_from src) files b).0
  sessions-Untouched files b h =
      section-keeps Untouched session (sessions_from src) files b (λ pool k. k)
        (λ conn b' k. (load_sessions-convs src.decoders conn b'.store ∙ k.0, k.1)) h

  contacts-Untouched :
      (files : List DbFile) (b : BuildState)
      → Untouched b
      → Untouched (section src contact (contacts_from src) files b).0
  contacts-Untouched files b h =
      section-keeps Untouched contact (contacts_from src) files b (λ pool k. k)
        (λ conn b' k. (
          load_chatroom_meta-convs src.decoders conn (load_contacts src.decoders conn b'.store).0
              ∙ load_contacts-convs src.decoders conn b'.store
              ∙ k.0,
          k.1,
        ))
        h

  cards-Untouched :
      (files : List DbFile) (b : BuildState)
      → Untouched b
      → Untouched (section src contact_fts (cards_from src) files b).0
  cards-Untouched files b h =
      section-keeps Untouched contact_fts (cards_from src) files b (λ pool k. k)
        (λ conn b' k. (load_group_cards-convs src.decoders conn b'.store ∙ k.0, k.1)) h

  Untouched-Agrees : (b : BuildState) → Untouched b → Agrees b
  unfolding total_messages
  Untouched-Agrees b h = rw (h.0, h.1) refl

  scan_messages-Agrees :
      (my_wxid : Text) (files : List DbFile) (b : BuildState)
      → Untouched b
      → Agrees (scan_messages src my_wxid files b)
  unfolding scan_messages
  scan_messages-Agrees my_wxid files b h =
      let message_files = retain (is_kind message) files in
      let (pool, total) = count_tables src message_files (b.pool, 0) in
      let reset : BuildState = record b {
        pool = pool;
        progress = set_tables_total total b.progress;
      } in
      scan_files-Agrees src b.store.contacts my_wxid message_files reset
        (Untouched-Agrees reset (h.0, unfold set_tables_total in refl))

  fill_if-Agrees : (r : BuildState × Bool) → Agrees r.0 → Agrees (fill_if r)
  unfolding total_messages
  fill_if-Agrees (b, true) h = h
  fill_if-Agrees (b, false) h = h

then_if-keeps :
    (P Q : BuildState → Type 0) (next : BuildState → BuildState × Bool) (r : BuildState × Bool)
    → ((b : BuildState) → P b → Q b)
    → ((b : BuildState) → P b → Q (next b).0)
    → P r.0
    → Q (then_if next r).0
then_if-keeps P Q next (b, true) stays goes h = goes b h
then_if-keeps P Q next (b, false) stays goes h = stays b h

optional_section-store : (r : BuildState × Bool) → (optional_section r).0 ≡ r.0
optional_section-store (b, go_on) = refl

build_all_live_inner-Agrees :
    (src : Source) (my_wxid : Text) (files : List DbFile) (pool : LivePool)
    (progress : IndexProgress)
    → progress.messages_indexed ≡ 0
    → Agrees (build_all_live_inner src my_wxid files pool progress)
unfolding build_all_live_inner
build_all_live_inner-Agrees src my_wxid files pool progress zeroed =
    let start : BuildState = record {
      store = record empty_store { my_wxid = my_wxid };
      pool = pool;
      progress = progress;
    } in
    let one = section src session (sessions_from src) files start in
    let two = then_if (section src contact (contacts_from src) files) one in
    let add_cards : BuildState → BuildState × Bool =
      λ b. optional_section (section src contact_fts (cards_from src) files b) in
    let cards = then_if add_cards two in
    let scan : BuildState → BuildState × Bool = λ b. (scan_messages src my_wxid files b, true) in
    let three = then_if scan cards in
    let h1 = sessions-Untouched src files start (refl, zeroed) in
    let h2 =
      then_if-keeps Untouched Untouched (section src contact (contacts_from src) files) one
        (λ b k. k) (contacts-Untouched src files) h1 in
    let h3 =
      then_if-keeps Untouched Untouched add_cards two (λ b k. k)
        (λ b k.
          rw (optional_section-store (section src contact_fts (cards_from src) files b))
            (cards-Untouched src files b k))
        h2 in
    let h4 =
      then_if-keeps Untouched Agrees scan cards (Untouched-Agrees src)
        (scan_messages-Agrees src my_wxid files) h3 in
    fill_if-Agrees src (then_if (section src sns leave_store files) three) (
      then_if-keeps Agrees Agrees (section src sns leave_store files) three (λ b k. k)
        (λ b k. section-keeps src Agrees sns leave_store files b (λ pool k. k) (λ conn b' k. k) k)
        h4)

-- A full build that starts with its counter of rows at zero ends with the counter at the number of
-- messages that its index holds, modulo 2 ^ 64, wherever it ends: at a section without a key, with
-- files that cannot be opened, and with tables whose reading broke off.
pub build_all_live-Agrees :
    (src : Source) (my_wxid : Text) (files : List DbFile) (pool : LivePool)
    (progress : IndexProgress)
    → progress.messages_indexed ≡ 0
    → Agrees (build_all_live src my_wxid files pool progress)
unfolding build_all_live mark_index_built total_messages
build_all_live-Agrees src my_wxid files pool progress zeroed =
    unfold total_messages in build_all_live_inner-Agrees src my_wxid files pool progress zeroed
