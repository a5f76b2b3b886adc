-- ===== src/Index/Sections.antt =====
-- src/store/index.rs: the sections of the store that are read whole, sessions and contacts.
use weflow_server.Base.{
  ℕ, suc, Bool, true, false, not, List, [], ◌∷◌, Option, none, some, if◌then◌else◌, or_else,
  unwrap_or, option_map, is_some, keep_if, find, length, take,
}
use weflow_server.Base.Int.{ℤ, pos, eqb_ℤ}
use weflow_server.Base.Text.{Text, codes, is_empty}
use weflow_server.Base.Map.{Map, insert}
use weflow_server.Parser.Content.{Decoders}
use weflow_server.Store.{Store, Session, Contact, SessionKind, private, group, official, classify}
use weflow_server.Index.{
  Rows, Row, Connection, eq_ignore_ascii_case, pick, get_opt_str, get_i64, filled,
}
use weflow_server.Base.{get_elem?}

-- The columns that are there, in their order.
abbrev pub present : List (Option Text) → List Text
present [] = []
present (none ∷ columns) = present columns
present (some c ∷ columns) = c ∷ present columns

-- The place of the n-th optional column behind the first: those before it that are there count.
unfoldable pub place : List (Option Text) → ℕ → ℕ
place columns n = suc (length (present (take n columns)))

abbrev pub str_at : Decoders → Row → List (Option Text) → ℕ → Option Text
str_at d row columns n = elim (get_elem? columns n) [
  | some (some c) ↦ get_opt_str d row (place columns n)
  | _ ↦ none
]

abbrev pub int_at : Row → List (Option Text) → ℕ → ℤ
int_at row columns n = elim (get_elem? columns n) [
  | some (some c) ↦ get_i64 row (place columns n)
  | _ ↦ pos 0
]

abbrev pub has_at : List (Option Text) → ℕ → Bool
has_at columns n = unwrap_or (option_map is_some (get_elem? columns n)) false

-- `SESSION_COLUMNS` behind the user name, the sort time left out.
abbrev pub session_columns : List Text → List (Option Text)
session_columns cols =
    pick cols (
      codes "display_name"
      ∷ codes "displayName"
      ∷ codes "nick_name"
      ∷ codes "nickname"
      ∷ codes "name"
      ∷ [])
    ∷ pick cols (
        codes "last_timestamp"
        ∷ codes "lastTimestamp"
        ∷ codes "last_msg_time"
        ∷ codes "lastTime"
        ∷ [])
    ∷ pick cols (
        codes "summary"
        ∷ codes "digest"
        ∷ codes "last_msg"
        ∷ codes "lastMsg"
        ∷ codes "last_message"
        ∷ [])
    ∷ pick cols
        (codes "last_msg_type" ∷ codes "lastMsgType" ∷ codes "last_type" ∷ codes "lastType" ∷ [])
    ∷ pick cols
        (codes "unread_count" ∷ codes "unreadCount" ∷ codes "unread" ∷ codes "total_count" ∷ [])
    ∷ pick cols (codes "type" ∷ codes "session_type" ∷ codes "sessionType" ∷ [])
    ∷ []

abbrev pub session_username : List Text → Option Text
session_username cols = pick cols (
    codes "user_name"
    ∷ codes "username"
    ∷ codes "userName"
    ∷ codes "talker"
    ∷ codes "talker_id"
    ∷ codes "session_id"
    ∷ [])

unfoldable pub session_kind : ℤ → Text → SessionKind
session_kind type_raw username =
    if eqb_ℤ type_raw (pos 2)
    then group
    else if eqb_ℤ type_raw (pos 3)
    then official
    else classify username

abbrev pub session_of : Decoders → List (Option Text) → Row → Text → Session
session_of d columns row username = record {
  username = username;
  display_name = unwrap_or (str_at d row columns 0) [];
  kind = session_kind (int_at row columns 5) username;
  last_timestamp = int_at row columns 1;
  last_msg_type = if has_at columns 3 then some (int_at row columns 3) else none;
  summary = str_at d row columns 2;
  unread_count = int_at row columns 4;
  message_count = 0;
}

-- A row without a user name is skipped.
unfoldable pub add_sessions : Decoders → List (Option Text) → List Row → Map Session → Map Session
add_sessions d columns [] m = m
add_sessions d columns (row ∷ rows) m =
    let username = unwrap_or (get_opt_str d row 0) [] in
    add_sessions d columns rows
      (if is_empty username then m else insert username (session_of d columns row username) m)

-- The store behind a query, and whether reading went through. What was read before an error stays.
abbrev pub with_rows : Option Rows → Store → (List Row → Store) → Store × Bool
with_rows none s add = (s, false)
with_rows (some r) s add = (add r.rows, not r.broken)

-- A table without a column for the user name is left out.
abbrev pub loaded_by :
    Option Text → (Text → Option Rows) → Store → (List Row → Store) → Store × Bool
loaded_by none query s add = (s, true)
loaded_by (some c_username) query s add = with_rows (query c_username) s add

unfoldable pub load_sessions_from : Decoders → Connection → Text → Store → Store × Bool
load_sessions_from d conn table s =
    let cols = conn.table_columns table in
    let columns = session_columns cols in
    loaded_by (session_username cols) (λ c. conn.select table (c ∷ present columns) []) s
      (λ rows. record s { sessions = add_sessions d columns rows s.sessions })

abbrev no_columns : List Text → Bool
no_columns [] = true
no_columns (c ∷ cols) = false

abbrev given_name : List Text → Text → Option Text
given_name names name = find (λ t. eq_ignore_ascii_case t name) names

-- The table's name in the database: the usual one, or another spelling among the first tables.
unfoldable pub session_table : Connection → Option Text
session_table conn =
    let names = conn.table_names 50 in
    let other =
      or_else (given_name names (codes "SessionTable"))
        (or_else (given_name names (codes "Session")) (given_name names (codes "session_table"))) in
    if no_columns (conn.table_columns (codes "SessionTable"))
    then other
    else some (codes "SessionTable")

unfoldable pub load_sessions : Decoders → Connection → Store → Store × Bool
load_sessions d conn s = elim (session_table conn) as (λ _. Store × Bool) [
  | none ↦ (s, true)
  | some t ↦ load_sessions_from d conn t s
]

abbrev pub contact_username : List Text → Option Text
contact_username cols = pick cols (codes "user_name" ∷ codes "username" ∷ codes "userName" ∷ [])

-- `CONTACT_COLUMNS` behind the user name.
abbrev pub contact_columns : List Text → List (Option Text)
contact_columns cols =
    pick cols (codes "remark" ∷ codes "remark_name" ∷ codes "remarkName" ∷ [])
    ∷ pick cols (codes "nick_name" ∷ codes "nickname" ∷ codes "nickName" ∷ [])
    ∷ pick cols (codes "alias" ∷ codes "wx_id" ∷ codes "wxid" ∷ codes "alias_name" ∷ [])
    ∷ pick cols
        (codes "avatar_url" ∷ codes "avatar" ∷ codes "head_img_url" ∷ codes "headImageUrl" ∷ [])
    ∷ pick cols (
        codes "local_type"
        ∷ codes "localType"
        ∷ codes "type"
        ∷ codes "user_type"
        ∷ codes "userType"
        ∷ [])
    ∷ []

unfoldable pub contact_kind : ℤ → Text → SessionKind
contact_kind type_raw username =
    if eqb_ℤ type_raw (pos 1) then private else session_kind type_raw username

abbrev pub contact_of : Decoders → List (Option Text) → Row → Text → Contact
contact_of d columns row username = record {
  username = username;
  remark = keep_if filled (str_at d row columns 0);
  nickname = keep_if filled (str_at d row columns 1);
  alias = keep_if filled (str_at d row columns 2);
  avatar_url = keep_if filled (str_at d row columns 3);
  kind = contact_kind (int_at row columns 4) username;
}

unfoldable pub add_contacts : Decoders → List (Option Text) → List Row → Map Contact → Map Contact
add_contacts d columns [] m = m
add_contacts d columns (row ∷ rows) m =
    let username = unwrap_or (get_opt_str d row 0) [] in
    add_contacts d columns rows
      (if is_empty username then m else insert username (contact_of d columns row username) m)

unfoldable pub load_contacts : Decoders → Connection → Store → Store × Bool
load_contacts d conn s =
    let cols = conn.table_columns (codes "contact") in
    let columns = contact_columns cols in
    loaded_by (contact_username cols) (λ c. conn.select (codes "contact") (c ∷ present columns) [])
      s (λ rows. record s { contacts = add_contacts d columns rows s.contacts })
