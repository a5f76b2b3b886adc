-- ===== src/Server/Messages.antt =====
-- The message query of src/server/handlers/messages.rs: one page of a conversation, newest first,
-- and the media of the page that are to be exported.
pub mod Pages
pub mod Export
use weflow_server.Base.{
  ℕ, zero, suc, ◌+◌, Bool, true, false, not, ◌&&◌, ◌||◌, List, [], ◌∷◌, Option, none, some,
  if◌then◌else◌, unwrap_or, option_map, ltb, length, take, drop, retain, map, any, ◌++◌, is_some,
  get_elem?, keep_if, ◌>>=◌, or_else,
}
use weflow_server.Base.Int.{ℤ, leb_ℤ}
use weflow_server.Base.Text.{Text, codes, contains, is_empty}
use weflow_server.Base.Decimal.{parse_u64}
use weflow_server.Base.Map.{Map, lookup}
use weflow_server.Base.Sort.{sort_by}
use weflow_server.Parser.{MediaKind, image, voice, video, emoji, file, MediaHint}
use weflow_server.Store.{Store, MessageRecord, conversation_known, filled}
use weflow_server.Sync.Drain.{before, watermark_of}
use weflow_server.Server.Params.{Params, flex_bool, parse_limit, parse_offset}

pub record MessageQuery : Type 0 where
  pub talker : Text
  pub limit : ℕ
  pub offset : ℕ
  pub keyword : Option Text
  pub start : Option ℤ
  pub end : Option ℤ

-- What the standard library and `chrono` do to a parameter: Unicode lower case, and the reading of a
-- time bound, as the first or as the last second of a day.
pub record TextOps : Type 0 where
  pub to_lowercase : Text → Text
  pub parse_time_bound : Text → Option ℤ
  pub parse_time_bound_end : Text → Option ℤ

abbrev query_of : TextOps → Params → Text → MessageQuery
query_of ops params talker = record {
  talker = talker;
  limit = parse_limit params (codes "limit") 100 10000;
  offset = parse_offset params (codes "offset");
  keyword = option_map ops.to_lowercase (keep_if filled (lookup (codes "keyword") params));
  start = lookup (codes "start") params >>= ops.parse_time_bound;
  end = lookup (codes "end") params >>= ops.parse_time_bound_end;
}

-- `MessageQuery::from_params`; `none` is the error that the talker is required.
unfoldable pub from_params : TextOps → Params → Option MessageQuery
from_params ops params =
    option_map (query_of ops params) (keep_if filled (lookup (codes "talker") params))

-- A cursor that can be read wins over the offset.
unfoldable pub from_params_with_cursor : TextOps → Params → Option MessageQuery
from_params_with_cursor ops params = do
  q ← from_params ops params
  some (record q { offset = unwrap_or (lookup (codes "cursor") params >>= parse_u64) q.offset })

pub record MessagePage : Type 0 where
  pub indices : List ℕ
  pub has_more : Bool
  pub next_offset : ℕ

-- A message with its index in the conversation.
abbrev pub Row : Type 0
Row = ℕ × MessageRecord

abbrev pub enumerate_from : ℕ → List MessageRecord → List Row
enumerate_from i [] = []
enumerate_from i (m ∷ ms) = (i, m) ∷ enumerate_from (suc i) ms

abbrev pub in_window : MessageQuery → Row → Bool
in_window q (i, m) =
    unwrap_or (option_map (λ s. leb_ℤ s m.create_time) q.start) true
    && unwrap_or (option_map (λ e. leb_ℤ m.create_time e) q.end) true

abbrev pub has_keyword : TextOps → MessageQuery → Row → Bool
has_keyword ops q (i, m) =
    unwrap_or
      (option_map
        (λ kw.
          contains kw (ops.to_lowercase m.parsed.parsed_text)
          || contains kw (ops.to_lowercase m.parsed.raw_content))
        q.keyword)
      true

-- `sort_key(b).cmp(sort_key(a))` is not greater: the later message stands first.
abbrev pub newest_first : Row → Row → Bool
newest_first (i, a) (j, b) = not (before (watermark_of a) (watermark_of b))

abbrev pub conversation : Store → Text → List MessageRecord
conversation s talker = unwrap_or (lookup talker s.convs) []

-- The rows that the query selects, in the order of the pages.
unfoldable pub selected : TextOps → Store → MessageQuery → List Row
selected ops s q =
    sort_by newest_first (
      retain (has_keyword ops q)
        (retain (in_window q) (enumerate_from 0 (conversation s q.talker))))

abbrev pub index_of : Row → ℕ
index_of r = r.0

-- `none` is the answer that the conversation is not found.
unfoldable pub page_slice : TextOps → Store → MessageQuery → Option MessagePage
page_slice ops s q =
    let rows : List Row = selected ops s q in
    let indices : List ℕ = map index_of (take q.limit (drop q.offset rows)) in
    let next : ℕ = q.offset + length indices in
    if not (conversation_known s q.talker)
    then none
    else some record { indices = indices; has_more = ltb next (length rows); next_offset = next }

-- The parameter of each kind; a file is never exported.
abbrev kind_param : MediaKind → Option Text
kind_param image = some (codes "image")
kind_param voice = some (codes "voice")
kind_param video = some (codes "video")
kind_param emoji = some (codes "emoji")
kind_param file = none

unfoldable pub wants_kind : Params → MediaKind → Bool
wants_kind params kind =
    let any_sub : Bool =
      any (flex_bool params) (codes "image" ∷ codes "voice" ∷ codes "video" ∷ codes "emoji" ∷ []) in
    if not (is_some (kind_param kind))
    then false
    else if not any_sub
    then true
    else unwrap_or (option_map (flex_bool params) (kind_param kind)) false

pub record ExportJob : Type 0 where
  pub local_id : ℤ
  pub kind : MediaKind
  pub md5 : Option Text
  pub server_id : ℤ
  pub talker : Text

abbrev pub is_voice : MediaKind → Bool
is_voice voice = true
is_voice image = false
is_voice video = false
is_voice emoji = false
is_voice file = false

-- Without a digest only a voice message can be found again.
unfoldable pub job_of : Params → Text → MessageRecord → List ExportJob
job_of params talker m = elim m.parsed.media [
  | none ↦ []
  | some hint ↦
      if not (wants_kind params hint.kind)
      then []
      else if not (is_some hint.md5) && not (is_voice hint.kind)
      then []
      else record {
        local_id = m.local_id;
        kind = hint.kind;
        md5 = hint.md5;
        server_id = m.server_id;
        talker = talker;
      }
        ∷ []
]

-- The indices of a page lie in its conversation, so that none is passed over here.
unfoldable pub jobs_of : Params → Text → List MessageRecord → List ℕ → List ExportJob
jobs_of params talker conv [] = []
jobs_of params talker conv (i ∷ is) =
    unwrap_or (option_map (job_of params talker) (get_elem? conv i)) []
    ++ jobs_of params talker conv is

abbrev pub max_jobs : ℕ
max_jobs = 200

unfoldable pub collect_export_jobs : Store → MessagePage → Text → Params → List ExportJob
collect_export_jobs s page talker params =
    take max_jobs (jobs_of params talker (conversation s talker) page.indices)
