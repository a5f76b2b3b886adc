-- ===== src/Sync/Poll/Cursor.antt =====
-- What the rows of one table become in a round: new rows, recalls, and the place to read on from.
use mathlib.Core.List.{append-nil, append_assoc}
use weflow_server.Base.{
  ◌≡◌, refl, sym, ap, ◌∙◌, inl, inr, Bool, false, not, List, [], ◌∷◌, ◌++◌, map, unwrap_or, retain,
  Bool-cases,
}
use weflow_server.Base.Text.{Text, text_eq, text_eq_refl}
use weflow_server.Base.Map.{Map, lookup, insert, lookup-insert}
use weflow_server.Store.{MessageRecord, Watermark, no_watermark}
use weflow_server.Sync.Drain.{advance, watermark_of}
use weflow_server.Sync.Apply.{Read, is_recall_row, set_watermarks}
use weflow_server.Sync.Poll.{collect}

abbrev pub owned : Text → MessageRecord → Text × MessageRecord
owned owner row = (owner, row)

abbrev pub is_message_row : MessageRecord → Bool
is_message_row row = not (is_recall_row row)

abbrev marks : Text → List MessageRecord → List (Text × Watermark)
marks key rows = map (λ row. (key, watermark_of row)) rows

-- The watermark stored under a key, as the poll reads it.
abbrev pub stored : Text → Map Watermark → Watermark
stored key m = unwrap_or (lookup key m) no_watermark

snoc-append : {A : Type 0} (xs : List A) (x : A) (ys : List A) → xs ++ x ∷ [] ++ ys ≡ xs ++ x ∷ ys
snoc-append xs x ys = append_assoc xs (x ∷ []) ys

collect-marks :
    (owner key : Text) (rows : List MessageRecord) (r : Read)
    → (collect owner key rows r).new_watermarks ≡ r.new_watermarks ++ marks key rows
unfolding collect
collect-marks owner key [] r = sym (append-nil r.new_watermarks)
collect-marks owner key (row ∷ rows) r =
    collect-marks owner key rows _
    ∙ snoc-append r.new_watermarks (key, watermark_of row) (marks key rows)

collect-new_rows :
    (owner key : Text) (rows : List MessageRecord) (r : Read)
    → (collect owner key rows r).new_rows
      ≡ r.new_rows ++ map (owned owner) (retain is_message_row rows)
unfolding collect
collect-new_rows owner key [] r = sym (append-nil r.new_rows)
collect-new_rows owner key (row ∷ rows) r =
    collect-new_rows owner key rows _ ∙ elim (Bool-cases (is_recall_row row)) [
      | inl recall ↦ rw recall refl
      | inr plain ↦ rw plain (snoc-append r.new_rows (owner, row) _)
    ]

collect-revoke_rows :
    (owner key : Text) (rows : List MessageRecord) (r : Read)
    → (collect owner key rows r).revoke_rows
      ≡ r.revoke_rows ++ map (owned owner) (retain is_recall_row rows)
unfolding collect
collect-revoke_rows owner key [] r = sym (append-nil r.revoke_rows)
collect-revoke_rows owner key (row ∷ rows) r =
    collect-revoke_rows owner key rows _ ∙ elim (Bool-cases (is_recall_row row)) [
      | inl recall ↦ rw recall (snoc-append r.revoke_rows (owner, row) _)
      | inr plain ↦ rw plain refl
    ]

stored-insert :
    (key : Text) (wm : Watermark) (m : Map Watermark) → stored key (insert key wm m) ≡ wm
stored-insert key wm m = rw (lookup-insert key key wm m, text_eq_refl key) refl

set_watermarks-marks :
    (key : Text) (rows : List MessageRecord) (m : Map Watermark)
    → stored key (set_watermarks (marks key rows) m) ≡ advance (stored key m) rows
unfolding set_watermarks advance
set_watermarks-marks key [] m = refl
set_watermarks-marks key (row ∷ rows) m =
    set_watermarks-marks key rows (insert key (watermark_of row) m)
    ∙ ap (λ w. advance w rows) (stored-insert key (watermark_of row) m)

set_watermarks-other :
    (key other : Text) (rows : List MessageRecord) (m : Map Watermark)
    → text_eq key other ≡ false
    → lookup other (set_watermarks (marks key rows) m) ≡ lookup other m
unfolding set_watermarks
set_watermarks-other key other [] m h = refl
set_watermarks-other key other (row ∷ rows) m h =
    set_watermarks-other key other rows (insert key (watermark_of row) m) h
    ∙ rw (lookup-insert key other (watermark_of row) m, h) refl

abbrev pub nothing : Read
nothing = record { new_rows = []; new_watermarks = []; revoke_rows = [] }

-- The rows of a table are shared out in order between the new messages and the recalls, none is
-- lost, and once their watermarks are stored, the table is read on from where the loop over its
-- pages stood at the end, while no other table's place moves.
pub collect-stored :
    (owner key other : Text) (rows : List MessageRecord) (m : Map Watermark)
    → text_eq key other ≡ false
    → ((collect owner key rows nothing).new_rows ≡ map (owned owner) (retain is_message_row rows))
      × ((collect owner key rows nothing).revoke_rows
          ≡ map (owned owner) (retain is_recall_row rows))
      × (stored key (set_watermarks (collect owner key rows nothing).new_watermarks m)
          ≡ advance (stored key m) rows)
      × (lookup other (set_watermarks (collect owner key rows nothing).new_watermarks m)
          ≡ lookup other m)
collect-stored owner key other rows m h = (
  collect-new_rows owner key rows nothing,
  collect-revoke_rows owner key rows nothing,
  rw (collect-marks owner key rows nothing) (set_watermarks-marks key rows m),
  rw (collect-marks owner key rows nothing) (set_watermarks-other key other rows m h),
)
