-- ===== src/Server/Sessions.antt =====
-- src/server/handlers/sessions.rs and chatlab_sessions.rs: the list of sessions, in the native shape,
-- which pages by offset, and in the shape of ChatLab, which pages by cursor. Behind the guard and
-- with the store of a ready account.
pub mod Walk
use weflow_server.Base.{
  ℕ, ◌+◌, Bool, true, false, not, ◌&&◌, ◌||◌, List, [], ◌∷◌, Option, none, some, if◌then◌else◌,
  unwrap_or, option_map, map, ltb, length, take, drop, retain, keep_if, ◌>>=◌,
}
use weflow_server.Base.Int.{ℤ, pos, leb_ℤ, ltb_ℤ}
use weflow_server.Base.Text.{Text, codes, contains, text_leb}
use weflow_server.Base.Decimal.{parse_u64, print_ℕ}
use weflow_server.Base.Map.{Map, lookup, values}
use weflow_server.Base.Sort.{sort_by}
use weflow_server.Store.{
  Store, Session, SessionKind, private, group, official, other, kind_str, filled, session_display,
  conv_count,
}
use weflow_server.Server.Params.{Params, parse_limit, parse_offset}

-- Unicode lower case.
abbrev pub Lower : Type 0
Lower = Text → Text

abbrev pub keyword_of : Lower → Params → Option Text
keyword_of lower params = option_map lower (keep_if filled (lookup (codes "keyword") params))

abbrev pub names_keyword : Lower → Store → Option Text → Session → Bool
names_keyword lower s none e = true
names_keyword lower s (some kw) e =
    contains kw (lower e.username) || contains kw (lower (session_display s e.username))

-- The latest first, and then by name.
abbrev pub session_before : Session → Session → Bool
session_before a b =
    ltb_ℤ b.last_timestamp a.last_timestamp
    || (leb_ℤ b.last_timestamp a.last_timestamp
        && leb_ℤ a.last_timestamp b.last_timestamp
        && text_leb a.username b.username)

-- The sessions that a request is about, in the order of the pages.
unfoldable pub listed : Lower → Store → Params → List Session
listed lower s params =
    sort_by session_before
      (retain (names_keyword lower s (keyword_of lower params)) (values s.sessions))

-- In the shape of ChatLab a cursor that can be read wins over the offset.
unfoldable pub session_offset : Bool → Params → ℕ
session_offset force_chatlab params =
    let offset = parse_offset params (codes "offset") in
    if force_chatlab
    then unwrap_or (lookup (codes "cursor") params >>= parse_u64) offset
    else offset

abbrev pub session_limit : Params → ℕ
session_limit params = parse_limit params (codes "limit") 100 10000

abbrev pub session_slice : Lower → Store → Bool → Params → List Session
session_slice lower s force_chatlab params =
    take (session_limit params) (drop (session_offset force_chatlab params) (listed lower s params))

pub record SessionChatlab : Type 0 where
  pub id : Text
  pub last_message_at : ℤ
  pub message_count : ℕ
  pub name : Text
  pub member_count : Option ℕ
  pub platform : Text
  pub kind : Text

abbrev is_group : SessionKind → Bool
is_group group = true
is_group _ = false

unfoldable pub session_chatlab : Store → Session → SessionChatlab
session_chatlab s e = record {
  id = e.username;
  last_message_at = e.last_timestamp;
  message_count = conv_count s e.username;
  name = session_display s e.username;
  member_count = option_map (λ (r : List Text). length r) (lookup e.username s.chatroom_roster);
  platform = codes "wechat";
  kind = if is_group e.kind then codes "group" else codes "private";
}

pub record SessionNative : Type 0 where
  pub display_name : Text
  pub last_timestamp : ℤ
  pub message_count : ℕ
  pub session_type : Text
  pub summary : Option Text
  pub kind : ℤ
  pub unread_count : ℤ
  pub username : Text

-- `kind as i64`
abbrev kind_number : SessionKind → ℤ
kind_number private = pos 0
kind_number group = pos 1
kind_number official = pos 2
kind_number other = pos 3

unfoldable pub session_native : Store → Session → SessionNative
session_native s e = record {
  display_name = session_display s e.username;
  last_timestamp = e.last_timestamp;
  message_count = conv_count s e.username;
  session_type = kind_str e.kind;
  summary = e.summary;
  kind = kind_number e.kind;
  unread_count = e.unread_count;
  username = e.username;
}

-- `Page` of src/server/dto.rs
pub record Page : Type 0 where
  pub has_more : Bool
  pub next_cursor : Option Text

pub record SessionsChatlab : Type 0 where
  pub count : ℕ
  pub page : Page
  pub sessions : List SessionChatlab

unfoldable pub respond_chatlab : Lower → Store → Params → SessionsChatlab
respond_chatlab lower s params =
    let sessions = session_slice lower s true params in
    let next_offset = session_offset true params + length sessions in
    let has_more = ltb next_offset (length (listed lower s params)) in
    record {
      count = length sessions;
      page = record {
        has_more = has_more;
        next_cursor = if has_more then some (print_ℕ next_offset) else none;
      };
      sessions = map (session_chatlab s) sessions;
    }

unfoldable pub respond_native : Lower → Store → Params → List SessionNative
respond_native lower s params = map (session_native s) (session_slice lower s false params)
