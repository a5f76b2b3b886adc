-- ===== src/Tests/Listing.antt =====
-- src/server/handlers/sessions.rs and group_members.rs on concrete inputs.
use mathlib.Core.List.{Perm}
use weflow_server.Base.{
  ℕ, suc, some, ◌<◌, ◌^◌, true, ◌≡◌, refl, ◌&&◌, ◌||◌, [], ◌∷◌, none, arith, map, any, All, ltb,
  length, retain,
}
use weflow_server.Base.Int.{pos}
use weflow_server.Base.Text.{Text, codes, text_ops}
use weflow_server.Base.Map.{values, map_ops}
use weflow_server.Base.Sort.{sort_by, insert_by}
use weflow_server.Store.{Store, Session, private, filled}
use weflow_server.Server.Params.{Params, parse_offset}
use weflow_server.Server.Members.{GroupMember, members_of}
use weflow_server.Server.Members.Roll.{said, is_id, Counted, members_of-Counted}
use weflow_server.Server.Sessions.{
  listed, session_offset, session_chatlab, names_keyword, keyword_of,
}
use weflow_server.Server.Sessions.Walk.{follow, follow-listed}
use weflow_server.Tests.Samples.{from_ann, small_store}

-- A group where Ann has written twice, and Bob never.
abbrev room : Text
room = codes "1@chatroom"

abbrev with_room : Store
with_room = record small_store {
  convs = (room, from_ann 1 1000 ∷ from_ann 2 1001 ∷ []) ∷ [];
  chatroom_roster = (room, codes "bob" ∷ codes "ann" ∷ []) ∷ [];
}

members_of-Counted_example :
    (any (λ (m : GroupMember). is_id (codes "bob") m.wxid) (members_of with_room room true) ≡ (
      filled (codes "bob")
      && (ltb 0 (said (codes "bob") (from_ann 1 1000 ∷ from_ann 2 1001 ∷ []))
          || any (is_id (codes "bob")) (codes "bob" ∷ codes "ann" ∷ []))))
    × All (Counted true (from_ann 1 1000 ∷ from_ann 2 1001 ∷ [])) (members_of with_room room true)
unfolding text_ops map_ops
members_of-Counted_example = members_of-Counted with_room room true (codes "bob")

abbrev session_at : Text → ℕ → Session
session_at username time = record {
  username = username;
  display_name = username;
  kind = private;
  last_timestamp = pos time;
  last_msg_type = none;
  summary = none;
  unread_count = pos 0;
  message_count = 0;
}

abbrev two_sessions : Store
two_sessions = record small_store {
  sessions =
      (codes "ann", session_at (codes "ann") 5) ∷ (codes "bob", session_at (codes "bob") 7) ∷ [];
}

-- One session at a time.
abbrev one_each : Params
one_each = (codes "limit", codes "1") ∷ []

small_list : length (listed (λ t. t) two_sessions one_each) < 2 ^ 64
unfolding text_ops map_ops listed sort_by insert_by
small_list = omega arith

from_start : session_offset true one_each ≡ 0
unfolding text_ops map_ops session_offset parse_offset
from_start = refl

follow-listed_example :
    (follow (λ t. t) two_sessions (suc (length (listed (λ t. t) two_sessions one_each))) one_each
      ≡ some (map (session_chatlab two_sessions) (listed (λ t. t) two_sessions one_each)))
    × Perm (listed (λ t. t) two_sessions one_each) (
        retain
          (names_keyword (λ t. t) two_sessions (keyword_of (λ t. t) one_each))
          (values two_sessions.sessions))
follow-listed_example = follow-listed (λ t. t) two_sessions one_each small_list from_start
