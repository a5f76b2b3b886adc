-- ===== src/Server/Members.antt =====
-- src/server/handlers/group_members.rs: the members of a group, who are its roster and its speakers,
-- with the number of their messages.
pub mod Roll
use weflow_server.Base.{
  ℕ, suc, ◌+◌, Bool, true, false, not, ◌&&◌, ◌||◌, List, [], ◌∷◌, ◌++◌, Option, none, some,
  if◌then◌else◌, unwrap_or, option_map, map, ltb, ◌==◌, keep_if, or_else, ◌>>=◌,
}
use weflow_server.Base.Int.{ℤ}
use weflow_server.Base.Text.{Text, codes, text_eq, text_leb}
use weflow_server.Base.Map.{Map, lookup, insert, contains_key}
use weflow_server.Base.Sort.{sort_by}
use weflow_server.Store.{
  Store, Contact, SessionKind, private, MessageRecord, conversation_known, filled, sender_display,
  group_card,
}
use weflow_server.Server.Params.{Params, flex_bool}

pub record GroupMember : Type 0 where
  pub alias : Text
  pub avatar_url : Text
  pub display_name : Text
  pub group_nickname : Text
  pub is_friend : Bool
  pub is_owner : Bool
  pub message_count : ℕ
  pub nickname : Text
  pub remark : Text
  pub wxid : Text

-- `*counts.entry(sender).or_insert(0) += 1` for a message with a sender.
abbrev pub count_message : MessageRecord → Map ℕ → Map ℕ
count_message m counts =
    if filled m.sender_username
    then insert m.sender_username (suc (unwrap_or (lookup m.sender_username counts) 0)) counts
    else counts

unfoldable pub count_speakers : List MessageRecord → Map ℕ → Map ℕ
count_speakers [] counts = counts
count_speakers (m ∷ ms) counts = count_speakers ms (count_message m counts)

abbrev pub keys : Map ℕ → List Text
keys [] = []
keys ((k, n) ∷ m) = k ∷ keys m

-- Those of the roster who have not spoken.
unfoldable pub silent : Map ℕ → List Text → List Text
silent counts [] = []
silent counts (id ∷ roster) =
    let rest = silent counts roster in
    if filled id && not (contains_key id counts) then id ∷ rest else rest

abbrev is_private : SessionKind → Bool
is_private private = true
is_private _ = false

unfoldable pub member_of : Store → Text → Bool → Map ℕ → Text → GroupMember
member_of s chatroom with_counts counts wxid =
    let c = lookup wxid s.contacts in
    record {
      alias = unwrap_or (c >>= λ (c : Contact). c.alias) [];
      avatar_url = unwrap_or (c >>= λ (c : Contact). c.avatar_url) [];
      display_name = sender_display s (some chatroom) wxid wxid;
      group_nickname = group_card s (some chatroom) wxid;
      is_friend = unwrap_or (option_map (λ (c : Contact). is_private c.kind) c) false;
      is_owner =
          unwrap_or (option_map (λ o. text_eq o wxid) (lookup chatroom s.chatroom_owner)) false;
      message_count = if with_counts then unwrap_or (lookup wxid counts) 0 else 0;
      nickname = unwrap_or (c >>= λ (c : Contact). c.nickname) [];
      remark = unwrap_or (c >>= λ (c : Contact). c.remark) [];
      wxid = wxid;
    }

-- More messages first, and then by name.
abbrev pub member_before : GroupMember → GroupMember → Bool
member_before a b =
    ltb b.message_count a.message_count
    || (b.message_count == a.message_count && text_leb a.wxid b.wxid)

unfoldable pub members_of : Store → Text → Bool → List GroupMember
members_of s chatroom with_counts =
    let counts = count_speakers (unwrap_or (lookup chatroom s.convs) []) [] in
    let roster = unwrap_or (lookup chatroom s.chatroom_roster) [] in
    sort_by member_before
      (map (member_of s chatroom with_counts counts) (keys counts ++ silent counts roster))

-- The answer: the room, its members, and the time of the index.
pub data GroupMembers : Type 0 where
  members : Text → List GroupMember → ℤ → GroupMembers
  bad_request not_found : GroupMembers

abbrev members_answer : Store → Params → Option Text → GroupMembers
members_answer s params none = bad_request
members_answer s params (some chatroom) =
    if not (conversation_known s chatroom)
    then not_found
    else members chatroom (members_of s chatroom (flex_bool params (codes "includeMessageCounts")))
        s.index_built_at_ms

-- The handler, behind the guard and with the store of a ready account.
unfoldable pub group_members : Store → Params → GroupMembers
group_members s params =
    members_answer s params (
      keep_if filled
        (or_else (lookup (codes "chatroomId") params) (lookup (codes "talker") params)))
