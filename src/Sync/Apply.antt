-- ===== src/Sync/Apply.antt =====
-- The second phase of `AccountSync::poll_once` and `find_original`, src/sync/mod.rs: new rows enter
-- their conversations, and a push event is made for each row of another sender and each recall.
-- The events are returned in the order in which they are published.
pub mod Rows
pub mod Recall
use weflow_server.Base.{
  ℕ, suc, ◌+◌, Bool, true, false, not, ◌&&◌, ◌||◌, List, [], ◌∷◌, ◌++◌, Option, none, some,
  if◌then◌else◌, or_else, unwrap_or, option_map, keep_if, is_some, ◌>>=◌, find, any, last?, reverse,
  ltb, ◌==◌,
}
use weflow_server.Base.Int.{ℤ, pos, ltb_ℤ, leb_ℤ, eqb_ℤ, pos_part, neg_part}
use weflow_server.Base.Text.{Text, codes, text_eq, is_empty}
use weflow_server.Base.Decimal.{print_ℤ}
use weflow_server.Base.Map.{Map, lookup, insert}
use weflow_server.Parser.{ParsedMsg, RevokeInfo}
use weflow_server.Parser.LocalType.{split_local_type}
use weflow_server.Store.{
  Store, MessageRecord, Session, SessionKind, group, kind_str, Contact, contact_name, Watermark,
  is_name_for, session_display_opt,
}
use weflow_server.Sync.{
  Event, new_message, revoked, NewMessageEvent, RevokeEvent, push_media, PushMedia,
}

-- `matches!(base_type, 10000 | 10002) || row.parsed.revoke.is_some()`
unfoldable pub is_recall_row : MessageRecord → Bool
is_recall_row row =
    let base : ℤ = (split_local_type row.local_type).0 in
    eqb_ℤ base (pos 10000) || (eqb_ℤ base (pos 10002) || is_some row.parsed.revoke)

unfoldable pub own_row : Text → MessageRecord → Bool
own_row my_wxid row = not (is_empty row.sender_username) && text_eq row.sender_username my_wxid

unfoldable pub resolved_name : Store → Text → Text
resolved_name s sender =
    unwrap_or (keep_if (is_name_for sender) (option_map contact_name (lookup sender s.contacts)))
      sender

-- The row as it is stored.
unfoldable pub stored_row : Store → MessageRecord → MessageRecord
stored_row s row = record row {
  sender_name = resolved_name s row.sender_username;
  is_send = own_row s.my_wxid row;
}

abbrev pub conv_of : Text → Store → List MessageRecord
conv_of session s = unwrap_or (lookup session s.convs) []

-- `guard.convs.entry(session).or_default().push(row)`
unfoldable pub push_row : Text → MessageRecord → Store → Store
push_row session row s = record s { convs = insert session (conv_of session s ++ row ∷ []) s.convs }

abbrev pub session_type_of : Store → Text → Text
session_type_of s session =
    unwrap_or (option_map (λ (e : Session). kind_str e.kind) (lookup session s.sessions))
      (codes "other")

abbrev pub group_name_for : Store → Text → Session → Text
group_name_for s session e =
    if text_eq (kind_str e.kind) (codes "group")
    then unwrap_or (session_display_opt s session) []
    else []

abbrev pub group_name_of : Store → Text → Option Text
group_name_of s session = option_map (group_name_for s session) (lookup session s.sessions)

-- The event reads the row back as the last one of its conversation.
unfoldable pub new_event : Store → Text → Text → NewMessageEvent
new_event s session sender_name =
    let newest : Option MessageRecord = lookup session s.convs >>= last? in
    record {
      session_id = session;
      session_type = session_type_of s session;
      rawid = unwrap_or (option_map (λ (r : MessageRecord). print_ℤ r.server_id) newest) [];
      source_name = sender_name;
      group_name = group_name_of s session;
      content = unwrap_or (option_map (λ (r : MessageRecord). r.parsed.display) newest) [];
      timestamp = unwrap_or (option_map (λ (r : MessageRecord). r.create_time) newest) (pos 0);
      media = option_map push_media (newest >>= (λ r. r.parsed.media));
    }

unfoldable pub apply_row : Store → Text → MessageRecord → Store × List Event
apply_row s session row =
    let stored : MessageRecord = stored_row s row in
    let after : Store = push_row session stored s in
    (
      after,
      if stored.is_send then [] else new_message (new_event after session stored.sender_name) ∷ [],
    )

unfoldable pub apply_rows : Store → List (Text × MessageRecord) → Store × List Event
apply_rows s [] = (s, [])
apply_rows s ((session, row) ∷ rows) =
    let one : Store × List Event = apply_row s session row in
    let rest : Store × List Event = apply_rows one.0 rows in (rest.0, one.1 ++ rest.1)

-- `later - earlier > seconds`, where the difference of the two times fits an `i64`.
abbrev pub later_by : ℕ → ℤ → ℤ → Bool
later_by seconds later earlier =
    ltb (pos_part earlier + neg_part later + seconds) (pos_part later + neg_part earlier)

abbrev pub placeholder : Text
placeholder = codes "[消息]"

abbrev listed : Option Text → List Text
listed none = []
listed (some t) = t ∷ []

-- The ids that a recall names.
unfoldable pub named_ids : RevokeInfo → List Text
named_ids r = listed r.msg_id ++ listed r.new_msg_id

-- The first loop: the newest other row with one of the ids.
unfoldable pub is_named : List Text → MessageRecord → MessageRecord → Bool
is_named ids recall m =
    not (eqb_ℤ m.local_id recall.local_id) && any (text_eq (print_ℤ m.server_id)) ids

-- The second loop: the newest row before the recall that fits, until the rows are too old.
unfoldable pub nearest : MessageRecord → List MessageRecord → Option MessageRecord
nearest recall [] = none
nearest recall (m ∷ ms) =
    let rest = nearest recall ms in
    if leb_ℤ recall.local_id m.local_id
    then rest
    else if later_by 300 recall.create_time m.create_time
    then none
    else if not m.is_send && not (text_eq m.parsed.display placeholder)
    then some m
    else rest

unfoldable pub find_original : Store → Text → MessageRecord → Option MessageRecord
find_original s session recall = do
  info ← recall.parsed.revoke
  conv ← lookup session s.convs
  or_else (find (is_named (named_ids info) recall) (reverse conv)) (nearest recall (reverse conv))

abbrev server_id_text : MessageRecord → Text
server_id_text m = print_ℤ m.server_id

abbrev display_of : MessageRecord → Text
display_of m = m.parsed.display

unfoldable pub recall_event : Store → Text → MessageRecord → RevokeInfo → RevokeEvent
recall_event s session row info =
    let original : Option MessageRecord = find_original s session row in
    let rawid : Text = unwrap_or (or_else (option_map server_id_text original) info.msg_id) [] in
    let shown : Text = unwrap_or (option_map display_of original) [] in
    record {
      session_id = session;
      session_type = session_type_of s session;
      rawid = rawid;
      source_name = row.sender_name;
      group_name = group_name_of s session;
      content =
          if is_empty shown
          then unwrap_or info.replace_msg (codes "对方撤回了一条消息")
          else codes "对方撤回了一条消息（rawid：" ++ (rawid ++ (codes "） 内容为\"" ++ (shown ++ codes "\"")));
      timestamp = row.create_time;
    }

unfoldable pub recall_events : Store → List (Text × MessageRecord) → List Event
recall_events s [] = []
recall_events s ((session, row) ∷ rows) =
    let rest = recall_events s rows in
    if eqb_ℤ row.create_time (pos 0)
    then rest
    else unwrap_or
        (option_map (λ i. revoked (recall_event s session row i) ∷ rest) row.parsed.revoke) rest

unfoldable pub set_watermarks : List (Text × Watermark) → Map Watermark → Map Watermark
set_watermarks [] m = m
set_watermarks ((key, wm) ∷ wms) m = set_watermarks wms (insert key wm m)

-- What one round has read.
pub record Read : Type 0 where
  pub new_rows : List (Text × MessageRecord)
  pub new_watermarks : List (Text × Watermark)
  pub revoke_rows : List (Text × MessageRecord)

-- The write: watermarks, then rows, then recalls. A deregistration during the reads discards them.
unfoldable pub apply_read : Bool → Read → Store → Store × List Event
apply_read true r s = (s, [])
apply_read false r s =
    let marked : Store = record s { watermarks = set_watermarks r.new_watermarks s.watermarks } in
    let added : Store × List Event = apply_rows marked r.new_rows in
    (added.0, added.1 ++ recall_events added.0 r.revoke_rows)

-- The line that a test names to see through all of these.
unfoldable pub apply_ops : Unit {0}
unfolding is_recall_row own_row resolved_name stored_row push_row new_event apply_row apply_rows
    named_ids is_named nearest find_original recall_event recall_events set_watermarks apply_read
apply_ops = tt
