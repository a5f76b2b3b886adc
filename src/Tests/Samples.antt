-- ===== src/Tests/Samples.antt =====
-- The rows and stores that the tests share.
use weflow_server.Base.{ℕ, ◌*◌, false, [], ◌∷◌, none, some}
use weflow_server.Base.Int.{pos}
use weflow_server.Base.Text.{Text, codes}
use weflow_server.Parser.{ParsedMsg, RevokeInfo}
use weflow_server.Store.{Store, MessageRecord}

abbrev pub plain : Text → ParsedMsg
plain t = record {
  display = t;
  raw_content = t;
  parsed_text = t;
  media = none;
  reply_to = none;
  quote = none;
  revoke = none;
}

-- A message of Ann, by its number and second.
abbrev pub from_ann : ℕ → ℕ → MessageRecord
from_ann n time = record {
  local_id = pos n;
  server_id = pos (n * 100);
  local_type = pos 1;
  create_time = pos time;
  sort_seq = pos n;
  is_send = false;
  sender_username = codes "ann";
  sender_name = codes "ann";
  parsed = plain (codes "hello");
}

abbrev pub recall_info : RevokeInfo
recall_info = record {
  msg_id = some (codes "100");
  new_msg_id = none;
  replace_msg = some (codes "gone");
}

-- The recall of Ann's first message.
abbrev pub recall_row : MessageRecord
recall_row = record {
  local_id = pos 9;
  server_id = pos 900;
  local_type = pos 10002;
  create_time = pos 1010;
  sort_seq = pos 9;
  is_send = false;
  sender_username = codes "ann";
  sender_name = codes "ann";
  parsed = record (plain (codes "gone")) { revoke = some recall_info };
}

-- A store with one conversation of two messages in two seconds.
abbrev pub small_store : Store
small_store = record {
  my_wxid = codes "me";
  sessions = [];
  convs = (codes "ann", from_ann 1 1000 ∷ from_ann 2 1001 ∷ []) ∷ [];
  contacts = [];
  group_cards = [];
  chatroom_owner = [];
  chatroom_roster = [];
  index_built_at_ms = pos 0;
  watermarks = [];
}
