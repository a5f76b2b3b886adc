-- ===== src/Store.antt =====
-- src/store/mod.rs: the in-memory index that the HTTP layer reads. The moments timeline
-- (`sns_feeds`) is left out: no operation here reads it.
pub mod Names
use weflow_server.Base.{
  ℕ, zero, ◌+◌, Bool, true, false, not, ◌&&◌, ◌||◌, List, [], ◌∷◌, Option, none, some,
  if◌then◌else◌, or_else, unwrap_or, option_map, keep_if, is_some, length, ◌>>=◌,
}
use weflow_server.Base.Int.{ℤ}
use weflow_server.Base.Text.{Text, codes, text_eq, is_empty, starts_with, ends_with}
use weflow_server.Base.Map.{Map, lookup, contains_key}
use weflow_server.Parser.{ParsedMsg}

pub data SessionKind : Type 0 where
  private group official other : SessionKind

unfoldable pub kind_str : SessionKind → Text
kind_str private = codes "private"
kind_str group = codes "group"
kind_str official = codes "official"
kind_str other = codes "other"

unfoldable pub classify : Text → SessionKind
classify username =
    if ends_with (codes "@chatroom") username
    then group
    else if starts_with (codes "gh_") username
    then official
    else private

pub record Session : Type 0 where
  pub username : Text
  pub display_name : Text
  pub kind : SessionKind
  pub last_timestamp : ℤ
  pub last_msg_type : Option ℤ
  pub summary : Option Text
  pub unread_count : ℤ
  pub message_count : ℕ

pub record Contact : Type 0 where
  pub username : Text
  pub remark : Option Text
  pub nickname : Option Text
  pub alias : Option Text
  pub avatar_url : Option Text
  pub kind : SessionKind

abbrev pub filled : Text → Bool
filled s = not (is_empty s)

-- `Contact::display_name`
unfoldable pub contact_name : Contact → Text
contact_name c =
    unwrap_or (or_else (keep_if filled c.remark) (keep_if filled c.nickname)) c.username

pub record MessageRecord : Type 0 where
  pub local_id : ℤ
  pub server_id : ℤ
  pub local_type : ℤ
  pub create_time : ℤ
  pub sort_seq : ℤ
  pub is_send : Bool
  pub sender_username : Text
  pub sender_name : Text
  pub parsed : ParsedMsg

pub record Watermark : Type 0 where
  pub create_time : ℤ
  pub sort_seq : ℤ
  pub local_id : ℤ

-- `Watermark::default()`
abbrev pub no_watermark : Watermark
no_watermark = record { create_time = ℤ.pos 0; sort_seq = ℤ.pos 0; local_id = ℤ.pos 0 }

pub record Store : Type 0 where
  pub my_wxid : Text
  pub sessions : Map Session
  pub convs : Map (List MessageRecord)
  pub contacts : Map Contact
  pub group_cards : Map (Map Text)
  pub chatroom_owner : Map Text
  pub chatroom_roster : Map (List Text)
  pub index_built_at_ms : ℤ
  pub watermarks : Map Watermark

-- `Store::default()`
abbrev pub empty_store : Store
empty_store = record {
  my_wxid = [];
  sessions = [];
  convs = [];
  contacts = [];
  group_cards = [];
  chatroom_owner = [];
  chatroom_roster = [];
  index_built_at_ms = ℤ.pos 0;
  watermarks = [];
}

abbrev no_entries {ℓ} : {V : Type ℓ} → Map V → Bool
no_entries [] = true
no_entries (e ∷ m) = false

unfoldable pub store_is_empty : Store → Bool
store_is_empty s = no_entries s.convs && no_entries s.sessions

unfoldable pub conversation_known : Store → Text → Bool
conversation_known s id =
    contains_key id s.sessions || contains_key id s.convs || contains_key id s.chatroom_roster

-- The clock is read by the caller.
unfoldable pub mark_index_built : ℤ → Store → Store
mark_index_built now s = record s { index_built_at_ms = now }

abbrev pub is_name_for : Text → Text → Bool
is_name_for username s = filled s && not (text_eq s username)

abbrev contact_display : Store → Text → Option Text
contact_display s username =
    keep_if (is_name_for username) (option_map contact_name (lookup username s.contacts))

unfoldable pub session_display_opt : Store → Text → Option Text
session_display_opt s username =
    or_else
      (keep_if filled (option_map (λ (e : Session). e.display_name) (lookup username s.sessions)))
      (contact_display s username)

unfoldable pub session_display : Store → Text → Text
session_display s username = unwrap_or (session_display_opt s username) username

-- The card of a sender in a room, if there is one that is not empty.
abbrev card_of : Store → Option Text → Text → Option Text
card_of s chatroom sender = do
  room ← chatroom
  cards ← lookup room s.group_cards
  keep_if filled (lookup sender cards)

abbrev other_than : Text → Text → Bool
other_than sender d = not (text_eq d sender)

unfoldable pub sender_display : Store → Option Text → Text → Text → Text
sender_display s chatroom sender fallback =
    unwrap_or
      (or_else (card_of s chatroom sender)
        (keep_if (other_than sender) (option_map contact_name (lookup sender s.contacts))))
      fallback

unfoldable pub group_card : Store → Option Text → Text → Text
group_card s chatroom sender = unwrap_or (card_of s chatroom sender) []

unfoldable pub conv_count : Store → Text → ℕ
conv_count s username = unwrap_or (option_map length (lookup username s.convs)) 0

abbrev pub sum_lengths : Map (List MessageRecord) → ℕ
sum_lengths [] = 0
sum_lengths ((k, v) ∷ m) = length v + sum_lengths m

unfoldable pub total_messages : Store → ℕ
total_messages s = sum_lengths s.convs
