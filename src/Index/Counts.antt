-- ===== src/Index/Counts.antt =====
-- The counter of the rows against the messages that the index holds.
use weflow_server.Base.{
  ℕ, ◌+◌, ◌%◌, ◌≡◌, refl, sym, ap, ◌∙◌, Bool, true, false, List, [], ◌∷◌, ◌++◌, Option, none, some,
  arith, inl, inr, unwrap_or, Bool-cases, Option-cases, length, length-append,
}
use weflow_server.Base.Text.{Text, text_eq}
use weflow_server.Base.Map.{Map, lookup, insert}
use weflow_server.Store.{Store, Contact, MessageRecord, Watermark, total_messages, sum_lengths}
use weflow_server.Db.{DbFile}
use weflow_server.Db.Live.{AcquireError, LivePool, get_or_open}
use weflow_server.Index.{Row, Connection, UidMap, MsgCols, probe}
use weflow_server.Index.Rooms.{load_uid_map, name2id_table}
use weflow_server.Index.Build.{
  word, IndexProgress, row_indexed, rollback_rows, finish_table, Source, Loaded, add_row, add_rows,
  nothing_loaded, read_whole, load_message_table, BuildState, add_table, enter_table, scan_tables,
  opened_or, scan_file, scan_files, order_of, scan_conn, message_tables,
}

-- The counter is the number of messages, as far as a word holds it.
abbrev pub Agrees : BuildState → Type 0
Agrees b = b.progress.messages_indexed ≡ total_messages b.store % word

module _ (src : Source) (cols : MsgCols) (uids : UidMap) (contacts : Map Contact)
    (my_wxid : Text) where
  -- The three counts of a loop run together.
  add_rows-counts :
      (rows : List Row) (l : Loaded) (n : ℕ)
      → l.counted ≡ length l.records
      → l.progress.messages_indexed ≡ (n + l.counted) % word
      → ((add_rows src cols uids contacts my_wxid rows l).counted
          ≡ length (add_rows src cols uids contacts my_wxid rows l).records)
        × ((add_rows src cols uids contacts my_wxid rows l).progress.messages_indexed
            ≡ (n + (add_rows src cols uids contacts my_wxid rows l).counted) % word)
  unfolding add_rows row_indexed
  add_rows-counts [] l n c p = (c, p)
  add_rows-counts (row ∷ rows) l n c p =
      add_rows-counts rows (add_row src cols uids contacts my_wxid row l) n
        (omega (arith, length-append l.records (_ ∷ []))) (omega arith)

-- How many messages a read adds.
abbrev added : Option (List MessageRecord × Watermark) → ℕ
added none = 0
added (some (records, wm)) = length records

read_whole-counts :
    (broken : Bool) (l : Loaded) (n : ℕ)
    → l.counted ≡ length l.records
    → l.progress.messages_indexed ≡ (n + l.counted) % word
    → (read_whole broken l).0.messages_indexed ≡ (n + added (read_whole broken l).1) % word
unfolding rollback_rows
read_whole-counts true l n c p = omega arith
read_whole-counts false l n c p = omega arith

module _ (src : Source) (uids : UidMap) (contacts : Map Contact) (my_wxid : Text) where
  load_message_table-counts :
      (conn : Connection) (table : Text) (p : IndexProgress) (n : ℕ)
      → p.messages_indexed ≡ n % word
      → (load_message_table src conn table uids contacts my_wxid p).0.messages_indexed
        ≡ (n + added (load_message_table src conn table uids contacts my_wxid p).1) % word
  unfolding load_message_table
  load_message_table-counts conn table p n h = elim (Option-cases (probe conn table)) [
    | inl unusable ↦ rw (unusable, load_message_table) (omega arith)
    | inr (cols, usable) ↦ elim (Option-cases (conn.select table cols.selected (order_of cols))) [
      | inl refused ↦ rw (usable, load_message_table, refused) (omega arith)
      | inr (r, rows) ↦
          let all =
            add_rows-counts src cols uids contacts my_wxid r.rows (nothing_loaded p) n refl
              (omega arith) in
          rw (usable, load_message_table, rows)
            (read_whole-counts r.broken
              (add_rows src cols uids contacts my_wxid r.rows (nothing_loaded p)) n all.0 all.1)
    ]
  ]

sum_lengths-insert :
    (conv : Text) (now : List MessageRecord) (m : Map (List MessageRecord))
    → sum_lengths (insert conv now m) + length (unwrap_or (lookup conv m) [])
      ≡ sum_lengths m + length now
unfolding lookup insert
sum_lengths-insert conv now [] = omega arith
sum_lengths-insert conv now ((k, v) ∷ m) = elim (Bool-cases (text_eq k conv)) [
  | inl here ↦ rw here (omega arith)
  | inr there ↦ rw there (omega (arith, sum_lengths-insert conv now m))
]

total_messages-add_table :
    (conv key : Text) (records : List MessageRecord) (wm : Watermark) (s : Store)
    → total_messages (add_table conv key records wm s) ≡ total_messages s + length records
unfolding total_messages add_table
total_messages-add_table conv key records wm s =
    let old = unwrap_or (lookup conv s.convs) [] in
    omega (arith, sum_lengths-insert conv (old ++ records) s.convs, length-append old records)

enter_table-Agrees :
    (src : Source) (rel : Text) (t : Text × Text) (b : BuildState)
    (r : IndexProgress × Option (List MessageRecord × Watermark))
    → r.0.messages_indexed ≡ (total_messages b.store + added r.1) % word
    → Agrees (enter_table src rel t b r)
unfolding finish_table
enter_table-Agrees src rel t b (p, none) h = h ∙ (omega arith)
enter_table-Agrees src rel (table, suffix) b (p, some (records, wm)) h =
    h ∙ ap (λ (n : ℕ). n % word) (sym (total_messages-add_table _ _ records wm b.store))

module _ (src : Source) (contacts : Map Contact) (my_wxid : Text) where
  scan_tables-Agrees :
      (rel : Text) (uids : UidMap) (tables : List (Text × Text)) (b : BuildState)
      → Agrees b
      → Agrees (scan_tables src rel uids contacts my_wxid tables b)
  unfolding scan_tables
  scan_tables-Agrees rel uids [] b h = h
  scan_tables-Agrees rel uids (t ∷ tables) b h =
      let read = load_message_table src (src.conn rel) t.0 uids contacts my_wxid b.progress in
      scan_tables-Agrees rel uids tables (enter_table src rel t b read) (
        enter_table-Agrees src rel t b read (
          load_message_table-counts src uids contacts my_wxid (src.conn rel) t.0 b.progress
            (total_messages b.store) h))

  opened_or-Agrees :
      (use_conn : Connection → BuildState → BuildState) (conn : Connection) (b : BuildState)
      (o : LivePool × Option AcquireError)
      → ((b' : BuildState) → Agrees b' → Agrees (use_conn conn b'))
      → Agrees b
      → Agrees (opened_or use_conn conn b o)
  opened_or-Agrees use_conn conn b (pool, none) keeps h = keeps (record b { pool = pool }) h
  opened_or-Agrees use_conn conn b (pool, some why) keeps h = h

  scan_file-Agrees :
      (f : DbFile) (b : BuildState) → Agrees b → Agrees (scan_file src contacts my_wxid f b)
  unfolding scan_file
  scan_file-Agrees f b h = elim (Option-cases (src.key_for f.rel)) [
    | inl unkeyed ↦ rw (unkeyed, scan_file) h
    | inr (key, keyed) ↦
        rw (keyed, scan_file)
          (opened_or-Agrees (scan_conn src contacts my_wxid f.rel) (src.conn f.rel) b
            (get_or_open src.sqlite f.rel key b.pool)
            (λ b' k.
              scan_tables-Agrees f.rel
                (load_uid_map src.decoders (src.conn f.rel) (name2id_table (src.conn f.rel)))
                (message_tables (src.conn f.rel)) b' k)
            h)
  ]

  pub scan_files-Agrees :
      (files : List DbFile) (b : BuildState)
      → Agrees b
      → Agrees (scan_files src contacts my_wxid files b)
  unfolding scan_files
  scan_files-Agrees [] b h = h
  scan_files-Agrees (f ∷ files) b h =
      scan_files-Agrees files (scan_file src contacts my_wxid f b) (scan_file-Agrees f b h)
