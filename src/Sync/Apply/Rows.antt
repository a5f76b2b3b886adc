-- ===== src/Sync/Apply/Rows.antt =====
-- What one round of the poll adds to the conversations, and the events that it publishes.
use mathlib.Core.List.{append-nil, append_assoc}
use weflow_server.Base.{
  ◌≡◌, refl, sym, List, [], ◌∷◌, ◌++◌, some, if◌then◌else◌, option_map, Bool-cases, inl, inr,
}
use weflow_server.Base.Text.{Text, text_eq, text_eq_iff}
use weflow_server.Base.Decimal.{print_ℤ}
use weflow_server.Base.Map.{lookup, lookup-insert}
use weflow_server.Store.{Store, MessageRecord}
use weflow_server.Sync.{Event, new_message, NewMessageEvent, push_media}
use weflow_server.Sync.Apply.{
  stored_row, own_row, resolved_name, push_row, conv_of, session_type_of, group_name_of, apply_row,
  apply_rows,
}

-- The event of a stored row, written from the row itself.
abbrev pub row_event : Store → Text → MessageRecord → NewMessageEvent
row_event s session r = record {
  session_id = session;
  session_type = session_type_of s session;
  rawid = print_ℤ r.server_id;
  source_name = r.sender_name;
  group_name = group_name_of s session;
  content = r.parsed.display;
  timestamp = r.create_time;
  media = option_map push_media r.parsed.media;
}

-- One event for each row of another sender, in the order of the rows.
abbrev pub events_of : Store → List (Text × MessageRecord) → List Event
events_of s [] = []
events_of s ((session, row) ∷ rows) =
    (if own_row s.my_wxid row
      then []
      else new_message (row_event s session (stored_row s row)) ∷ [])
    ++ events_of s rows

-- The rows of one conversation, as they are stored.
abbrev pub rows_of : Store → Text → List (Text × MessageRecord) → List MessageRecord
rows_of s session [] = []
rows_of s session ((owner, row) ∷ rows) =
    if text_eq owner session
    then stored_row s row ∷ rows_of s session rows
    else rows_of s session rows

push_row-conv :
    (session j : Text) (r : MessageRecord) (s : Store)
    → lookup j (push_row session r s).convs
      ≡ (if text_eq session j then some (conv_of session s ++ r ∷ []) else lookup j s.convs)
unfolding push_row
push_row-conv session j r s = lookup-insert session j _ s.convs

stored_row-push_row :
    (session : Text) (r row : MessageRecord) (s : Store)
    → stored_row (push_row session r s) row ≡ stored_row s row
unfolding stored_row resolved_name push_row
stored_row-push_row session r row s = refl

rows_of-push_row :
    (session j : Text) (r : MessageRecord) (s : Store) (rows : List (Text × MessageRecord))
    → rows_of (push_row session r s) j rows ≡ rows_of s j rows
rows_of-push_row session j r s [] = refl
rows_of-push_row session j r s ((owner, row) ∷ rows) =
    rw (stored_row-push_row session r row s, rows_of-push_row session j r s rows) refl

apply_row-store :
    (s : Store) (session : Text) (row : MessageRecord)
    → (apply_row s session row).0 ≡ push_row session (stored_row s row) s
unfolding apply_row
apply_row-store s session row = refl

conv_of-push_row :
    (session j : Text) (r : MessageRecord) (s : Store)
    → conv_of j (push_row session r s)
      ≡ (if text_eq session j then conv_of j s ++ r ∷ [] else conv_of j s)
conv_of-push_row session j r s =
    rw (push_row-conv session j r s) (elim (Bool-cases (text_eq session j)) [
      | inl same ↦ rw (same, (text_eq_iff session j).0 same) refl
      | inr other ↦ rw other refl
    ])

-- Every row of a round stands at the end of its own conversation, in the order of the round, with
-- its sender's name and side filled in, behind the rows that were there; no other conversation
-- changes.
pub apply_rows-conv :
    (s : Store) (rows : List (Text × MessageRecord)) (session : Text)
    → conv_of session (apply_rows s rows).0 ≡ conv_of session s ++ rows_of s session rows
unfolding apply_rows
apply_rows-conv s [] session = sym (append-nil (conv_of session s))
apply_rows-conv s ((owner, row) ∷ rows) session =
    rw
      (
        apply_row-store s owner row,
        apply_rows-conv (push_row owner (stored_row s row) s) rows session,
        conv_of-push_row owner session (stored_row s row) s,
        rows_of-push_row owner session (stored_row s row) s rows,
      )
      (elim (Bool-cases (text_eq owner session)) [
        | inl same ↦ rw same (append_assoc (conv_of session s) (stored_row s row ∷ []) _)
        | inr other ↦ rw other refl
      ])
