-- ===== src/Index/Rooms.antt =====
-- src/store/group_meta.rs: the owners, rosters and cards of rooms; and the names behind the numbers
-- of a database, `uid_map` of src/store/index.rs. Each database has numbers of its own.
use weflow_server.Base.{
  ℕ, Bool, true, false, ◌&&◌, ◌||◌, List, [], ◌∷◌, ◌++◌, Option, none, some, if◌then◌else◌,
  unwrap_or, option_map, keep_if, ◌>>=◌, ltb, ◌==◌, any, find, reverse, get_elem?, map,
}
use weflow_server.Base.Int.{ℤ}
use weflow_server.Base.Text.{Text, codes, text_eq, starts_with, to_ascii_lower}
use weflow_server.Base.Map.{Map, lookup, insert}
use weflow_server.Base.Sort.{sort_by}
use weflow_server.Parser.Content.{Decoders}
use weflow_server.Store.{Store}
use weflow_server.Index.{null, integer, text, Row, Rows, Connection, UidMap, lookup_uid, filled}

-- The order of strings; `names.sort()`.
unfoldable pub text_le : Text → Text → Bool
text_le [] t = true
text_le (c ∷ s) [] = false
text_le (c ∷ s) (d ∷ t) = ltb c d || (c == d && text_le s t)

unfoldable pub name2id_table : Connection → Option Text
name2id_table conn =
    find (λ t. starts_with (codes "name2id") (map to_ascii_lower t))
      (reverse (sort_by text_le (conn.table_names 500)))

-- The getters that refuse another type: a number, a text, and a text or nothing.
unfoldable pub int_cell : Row → ℕ → Option ℤ
int_cell row i = elim (get_elem? row i) [ some (integer z) ↦ some z | _ ↦ none ]

unfoldable pub str_cell : Decoders → Row → ℕ → Option Text
str_cell d row i = elim (get_elem? row i) [ some (text b) ↦ d.from_utf8 b | _ ↦ none ]

unfoldable pub opt_str_cell : Decoders → Row → ℕ → Option (Option Text)
opt_str_cell d row i = elim (get_elem? row i) [
  | some null ↦ some none
  | some (text b) ↦ option_map (λ s. some s) (d.from_utf8 b)
  | _ ↦ none
]

unfoldable pub insert_uid : ℤ → Text → UidMap → UidMap
insert_uid k v m = (k, v) ∷ m

-- A row of other types is skipped.
unfoldable pub add_uids : Decoders → List Row → UidMap → UidMap
add_uids d [] m = m
add_uids d (row ∷ rows) m =
    add_uids d rows
      (unwrap_or (do id ← int_cell row 0; name ← str_cell d row 1; some (insert_uid id name m)) m)

abbrev uid_column : List Text → Option Text
uid_column cols =
    find (λ c. any (λ x. text_eq x c) cols) (codes "user_name" ∷ codes "username" ∷ [])

unfoldable pub load_uid_map : Decoders → Connection → Option Text → UidMap
load_uid_map d conn name2id =
    unwrap_or
      (do
        t ← name2id
        col ← uid_column (conn.table_columns t)
        r ← conn.select t (codes "rowid" ∷ col ∷ []) []
        some (add_uids d r.rows []))
      []

unfoldable pub uid_map : Decoders → Connection → UidMap
uid_map d conn = load_uid_map d conn (name2id_table conn)

abbrev pub no_uids : UidMap → Bool
no_uids [] = true
no_uids (e ∷ m) = false

-- The rows of a query; none if it is refused.
abbrev pub row_list : Option Rows → List Row
row_list r = unwrap_or (option_map (λ (q : Rows). q.rows) r) []

-- The room and its owner, both named and neither empty.
abbrev pub owner_in : Decoders → Row → Option (Text × Text)
owner_in d row = do
  room_cell ← opt_str_cell d row 0
  owner_cell ← opt_str_cell d row 1
  room ← room_cell
  owner ← owner_cell
  if filled room && filled owner then some (room, owner) else none

unfoldable pub add_owners : Decoders → List Row → Map Text → Map Text
add_owners d [] m = m
add_owners d (row ∷ rows) m =
    add_owners d rows
      (unwrap_or (option_map (λ (p : Text × Text). insert p.0 p.1 m) (owner_in d row)) m)

-- The room and a member, by the numbers of this database.
abbrev pub member_in : UidMap → Row → Option (Text × Text)
member_in name2id row = do
  room_id ← int_cell row 0
  member_id ← int_cell row 1
  room ← lookup_uid room_id name2id
  member ← lookup_uid member_id name2id
  some (room, member)

-- A member is entered once.
unfoldable pub add_member : Text → Text → Map (List Text) → Map (List Text)
add_member room member m =
    let roster = unwrap_or (lookup room m) [] in
    insert room (if any (text_eq member) roster then roster else roster ++ member ∷ []) m

unfoldable pub add_members : UidMap → List Row → Map (List Text) → Map (List Text)
add_members name2id [] m = m
add_members name2id (row ∷ rows) m =
    add_members name2id rows
      (unwrap_or (option_map (λ (p : Text × Text). add_member p.0 p.1 m) (member_in name2id row)) m)

unfoldable pub load_chatroom_meta : Decoders → Connection → Store → Store
load_chatroom_meta d conn s =
    let name2id = uid_map d conn in
    let owners =
      row_list (conn.select (codes "chat_room") (codes "username" ∷ codes "owner" ∷ []) []) in
    let members =
      row_list
        (conn.select (codes "chatroom_member") (codes "room_id" ∷ codes "member_id" ∷ []) []) in
    if no_uids name2id then s else record s {
      chatroom_owner = add_owners d owners s.chatroom_owner;
      chatroom_roster = add_members name2id members s.chatroom_roster;
    }

-- The room, the member and the card, which is not empty.
abbrev pub card_in : Decoders → UidMap → Row → Option (Text × Text × Text)
card_in d name2id row = do
  room_id ← int_cell row 0
  member_id ← int_cell row 1
  card_cell ← opt_str_cell d row 2
  card ← keep_if filled card_cell
  room ← lookup_uid room_id name2id
  member ← lookup_uid member_id name2id
  some (room, member, card)

unfoldable pub add_card : Text → Text → Text → Map (Map Text) → Map (Map Text)
add_card room member card m = insert room (insert member card (unwrap_or (lookup room m) [])) m

unfoldable pub add_cards : Decoders → UidMap → List Row → Map (Map Text) → Map (Map Text)
add_cards d name2id [] m = m
add_cards d name2id (row ∷ rows) m = add_cards d name2id rows (
    unwrap_or
      (option_map (λ (p : Text × Text × Text). add_card p.0 p.1 p.2 m) (card_in d name2id row)) m)

abbrev pub no_cards : Map (Map Text) → Bool
no_cards [] = true
no_cards (e ∷ m) = false

-- The cards replace the old ones, unless there are none.
unfoldable pub load_group_cards : Decoders → Connection → Store → Store
load_group_cards d conn s =
    let name2id = uid_map d conn in
    let cards = add_cards d name2id (row_list conn.card_rows) [] in
    if no_uids name2id then s else if no_cards cards then s else record s { group_cards = cards }
