-- ===== src/Tests/Syncing.antt =====
-- src/sync on concrete inputs: the loop over pages, the replay, and the rows of a round.
use weflow_server.Base.{
  ℕ, ◌+◌, ◌*◌, ◌≡◌, refl, false, List, [], ◌∷◌, ◌++◌, map, Option, some, arith, length, take,
  retain,
}
use weflow_server.Base.Text.{Text, codes, text_eq, text_ops}
use weflow_server.Base.Decimal.{decimal_ops}
use weflow_server.Base.Map.{map_ops, lookup}
use weflow_server.Store.{MessageRecord, Watermark, no_watermark}
use weflow_server.Sync.{Event, baseline}
use weflow_server.Sync.Drain.{drain, before, watermark_of, advance}
use weflow_server.Sync.Drain.Complete.{Sorted, behind, drained_of, drain_complete}
use weflow_server.Sync.History.{HistoryBuf, empty_history, append, clear}
use weflow_server.Sync.History.Order.{Rising, IsValid, empty_history-IsValid, append-IsValid}
use weflow_server.Sync.History.Bus.{Broadcast, EventBus, publish_all, subscribe_with_replay}
use weflow_server.Sync.History.Bus.Once.{expected, subscribe_with_replay-expected}
use weflow_server.Sync.Apply.{
  apply_rows, conv_of, find_original, set_watermarks, apply_ops, is_recall_row,
}
use weflow_server.Sync.Apply.Rows.{apply_rows-conv, rows_of, events_of}
use weflow_server.Sync.Apply.Recall.{Original, find_original-Original}
use weflow_server.Sync.Poll.{collect}
use weflow_server.Sync.Poll.Cursor.{collect-stored, stored, nothing, owned, is_message_row}
use weflow_server.Tests.Samples.{from_ann, small_store, recall_row, recall_info}

abbrev three : List MessageRecord
three = from_ann 1 1000 ∷ from_ann 2 1000 ∷ from_ann 3 1001 ∷ []

three-Sorted : Sorted three
unfolding before watermark_of
three-Sorted = ((refl, (refl, tt)), ((refl, tt), (tt, tt)))

-- A table of these rows, read two at a time.
abbrev read_two : Watermark → Option (List MessageRecord)
read_two wm = some (take 2 (behind wm three))

drain_complete_example :
    drain read_two 2 2 no_watermark
    ≡ some (drained_of (2 * 2) no_watermark (behind no_watermark three))
drain_complete_example =
    drain_complete three 2 1 no_watermark read_two three-Sorted (omega arith) (λ w. refl)

append-IsValid_example :
    IsValid (append 5 (baseline []) empty_history).0
    × ((append 5 (baseline []) empty_history).1 ≡ 0 + 1)
    × IsValid (clear {E = Event} empty_history)
    × ((clear {E = Event} empty_history).last_id ≡ 0)
append-IsValid_example =
    append-IsValid 5 (baseline []) empty_history empty_history-IsValid (omega arith)

-- One event has been kept.
abbrev pub one_kept : HistoryBuf Event
one_kept = record { items = record { id = 1; at = 5; event = baseline [] } ∷ []; last_id = 1 }

abbrev pub one_kept-IsValid : IsValid one_kept
one_kept-IsValid = record {
  first = 0;
  consecutive = (refl, refl);
  bounded = omega arith;
  in_u64 = omega arith;
}

-- A channel with one receiver, the last that subscribed.
abbrev pub single_receiver : Broadcast (ℕ × Event)
single_receiver = record {
  Channel = List (ℕ × Event);
  Receiver = Unit {0};
  capacity = 16;
  subscribe = λ c. ([], tt);
  send = λ x c. c ++ x ∷ [];
  waiting = λ r c. c;
  waiting-subscribe = λ c. refl;
  waiting-send = λ x r c fits. refl;
}

abbrev pub bus : EventBus single_receiver
bus = record { history = one_kept; tx = [] }

abbrev pub later : List (ℕ × Event)
later = (7, baseline []) ∷ (8, baseline []) ∷ []

subscribe_with_replay-expected_example :
    ((subscribe_with_replay single_receiver 6 0 bus).2
        ++ single_receiver.waiting
            (subscribe_with_replay single_receiver 6 0 bus).1
            (publish_all single_receiver later (subscribe_with_replay single_receiver 6 0 bus).0).tx
      ≡ expected 6 0 one_kept later)
    × Rising 0 (expected 6 0 one_kept later) 3
subscribe_with_replay-expected_example =
    subscribe_with_replay-expected single_receiver 6 0 bus later one_kept-IsValid (omega arith)
      (omega arith)

abbrev new_rows : List (Text × MessageRecord)
new_rows = (codes "ann", from_ann 3 1002) ∷ (codes "bob", from_ann 4 1003) ∷ []

apply_rows-conv_example :
    conv_of (codes "ann") (apply_rows small_store new_rows).0
    ≡ conv_of (codes "ann") small_store ++ rows_of small_store (codes "ann") new_rows
apply_rows-conv_example = apply_rows-conv small_store new_rows (codes "ann")

two_events : length (events_of small_store new_rows) ≡ 2
unfolding text_ops apply_ops
two_events = refl

found_original : find_original small_store (codes "ann") recall_row ≡ some (from_ann 1 1000)
unfolding text_ops apply_ops map_ops decimal_ops
found_original = refl

find_original-Original_example :
    Original (conv_of (codes "ann") small_store) recall_info recall_row (from_ann 1 1000)
find_original-Original_example =
    find_original-Original small_store (codes "ann") recall_row (from_ann 1 1000) recall_info refl
      found_original

other_key : text_eq (codes "a:t") (codes "b:t") ≡ false
unfolding text_ops
other_key = refl

collect-stored_example :
    ((collect (codes "ann") (codes "a:t") three nothing).new_rows
      ≡ map (owned (codes "ann")) (retain is_message_row three))
    × ((collect (codes "ann") (codes "a:t") three nothing).revoke_rows
        ≡ map (owned (codes "ann")) (retain is_recall_row three))
    × (stored
          (codes "a:t")
          (set_watermarks (collect (codes "ann") (codes "a:t") three nothing).new_watermarks [])
        ≡ advance (stored (codes "a:t") []) three)
    × (lookup
          (codes "b:t")
          (set_watermarks (collect (codes "ann") (codes "a:t") three nothing).new_watermarks [])
        ≡ lookup (codes "b:t") [])
collect-stored_example = collect-stored (codes "ann") (codes "a:t") (codes "b:t") three [] other_key
