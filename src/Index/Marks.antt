-- ===== src/Index/Marks.antt =====
-- src/store/index.rs: the watermark of a table that was read whole, against the rows that it keeps.
use weflow_server.Base.{
  ◌≡◌, refl, Bool, true, false, List, [], ◌∷◌, some, inl, inr, Bool-cases, Option-cases, All,
  All-append,
}
use weflow_server.Base.Text.{Text}
use weflow_server.Base.Map.{Map}
use weflow_server.Store.{Contact, MessageRecord, Watermark}
use weflow_server.Sync.Drain.{before, max_watermark, watermark_of}
use weflow_server.Sync.Drain.Order.{before_irrefl, before_trans}
use weflow_server.Sync.Drain.Complete.{behind}
use weflow_server.Index.{
  Row, Connection, UidMap, MsgCols, probe, extract, OwnedMsgRow, row_to_record,
}
use weflow_server.Index.Build.{
  IndexProgress, Source, Loaded, row_watermark, add_row, add_rows, order_of, nothing_loaded,
  read_whole, load_message_table,
}

-- No row of the list is behind the watermark.
abbrev Passed : Watermark → List MessageRecord → Type 0
Passed wm = All (λ r. before wm (watermark_of r) ≡ false)

max_watermark-passed :
    (wm new old : Watermark) → before wm old ≡ false → before (max_watermark wm new) old ≡ false
unfolding max_watermark
max_watermark-passed wm new old h = elim (Bool-cases (before wm new)) [
  | inl later ↦ rw later (elim (Bool-cases (before new old)) [
    | inl on ↦ absurd (let g = before_trans wm new old later on in cc)
    | inr off ↦ off
  ])
  | inr earlier ↦ rw earlier h
]

max_watermark-new : (wm new : Watermark) → before (max_watermark wm new) new ≡ false
unfolding max_watermark
max_watermark-new wm new = elim (Bool-cases (before wm new)) [
  | inl later ↦ rw later (before_irrefl new)
  | inr earlier ↦ rw earlier earlier
]

Passed-max :
    (wm new : Watermark) (rs : List MessageRecord) → Passed wm rs → Passed (max_watermark wm new) rs
Passed-max wm new [] h = tt
Passed-max wm new (r ∷ rs) h =
    (max_watermark-passed wm new (watermark_of r) h.0, Passed-max wm new rs h.1)

module _ (src : Source) (cols : MsgCols) (uids : UidMap) (contacts : Map Contact)
    (my_wxid : Text) where
  watermark_of-row :
      (owned : OwnedMsgRow)
      → watermark_of (row_to_record src.decoders owned my_wxid contacts) ≡ row_watermark owned
  unfolding watermark_of row_to_record
  watermark_of-row owned = refl

  add_rows-Passed :
      (rows : List Row) (l : Loaded)
      → Passed l.watermark l.records
      → Passed
          (add_rows src cols uids contacts my_wxid rows l).watermark
          (add_rows src cols uids contacts my_wxid rows l).records
  unfolding add_rows
  add_rows-Passed [] l h = h
  add_rows-Passed (row ∷ rows) l h =
      let owned = extract src.decoders cols row uids in
      let next = max_watermark l.watermark (row_watermark owned) in
      add_rows-Passed rows (add_row src cols uids contacts my_wxid row l) (
        All-append (λ r. before next (watermark_of r) ≡ false) l.records _
          (Passed-max l.watermark (row_watermark owned) l.records h)
          (rw (watermark_of-row owned) (max_watermark-new l.watermark (row_watermark owned)), tt))

behind-Passed : (wm : Watermark) (rs : List MessageRecord) → Passed wm rs → behind wm rs ≡ []
behind-Passed wm [] h = refl
behind-Passed wm (r ∷ rs) h = rw h.0 (behind-Passed wm rs h.1)

read_whole-some :
    (broken : Bool) (l : Loaded) (records : List MessageRecord) (wm : Watermark)
    → (read_whole broken l).1 ≡ some (records, wm)
    → (l.records ≡ records) × (l.watermark ≡ wm)
read_whole-some true l records wm h = absurd cc
read_whole-some false l records wm h = (cc, cc)

-- A message table that the full build reads to its end: by creation time, stored sort_seq and
-- local_id in this order, none of the messages that it keeps lies behind the watermark that it keeps
-- for the table. A message of a table without a sort_seq column is stored with 0 there.
pub load_message_table-behind :
    (src : Source) (conn : Connection) (table : Text) (uids : UidMap) (contacts : Map Contact)
    (my_wxid : Text) (p : IndexProgress) (records : List MessageRecord) (wm : Watermark)
    → (load_message_table src conn table uids contacts my_wxid p).1 ≡ some (records, wm)
    → behind wm records ≡ []
unfolding load_message_table
load_message_table-behind src conn table uids contacts my_wxid p records wm h =
    elim (Option-cases (probe conn table)) [
      | inl unusable ↦ absurd (let g = rw (unusable, load_message_table) at h in cc)
      | inr (cols, usable) ↦ elim (Option-cases (conn.select table cols.selected (order_of cols))) [
        | inl refused ↦ absurd (let g = rw (usable, load_message_table, refused) at h in cc)
        | inr (r, rows) ↦
            let l = add_rows src cols uids contacts my_wxid r.rows (nothing_loaded p) in
            let e =
              read_whole-some r.broken l records wm (rw (usable, load_message_table, rows) at h) in
            rw (← e.0, ← e.1)
              (behind-Passed l.watermark l.records
                (add_rows-Passed src cols uids contacts my_wxid r.rows (nothing_loaded p) tt))
      ]
    ]
