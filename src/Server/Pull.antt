-- ===== src/Server/Pull.antt =====
-- The pull of src/server/handlers/chatlab_pull.rs: one page of a conversation, oldest first, that
-- never splits a second, and the cursors for the next request.
pub mod Split
pub mod Seconds
use weflow_server.Base.{
  ℕ, zero, suc, ◌+◌, ◌-◌, ◌^◌, Bool, true, false, not, ◌&&◌, List, [], ◌∷◌, Option, none, some,
  if◌then◌else◌, unwrap_or, option_map, leb, ltb, length, take, drop, retain, last?, or_else,
}
use weflow_server.Base.Int.{ℤ, pos, negsuc, ltb_ℤ, leb_ℤ, eqb_ℤ}
use weflow_server.Base.Sort.{sort_by}
use weflow_server.Store.{MessageRecord}
use weflow_server.Sync.Drain.{before, watermark_of}

abbrev pub in_range : Option ℤ → Option ℤ → MessageRecord → Bool
in_range since end m =
    unwrap_or (option_map (λ s. ltb_ℤ s m.create_time) since) true
    && unwrap_or (option_map (λ e. leb_ℤ m.create_time e) end) true

abbrev pub oldest_first : MessageRecord → MessageRecord → Bool
oldest_first a b = not (before (watermark_of b) (watermark_of a))

-- The messages after `since`, which is exclusive, up to `end`, in order.
unfoldable pub ascending : Option ℤ → Option ℤ → List MessageRecord → List MessageRecord
ascending since end conv = sort_by oldest_first (retain (in_range since end) conv)

abbrev pub another_second : ℤ → Option ℤ → Bool
another_second ts none = false
another_second ts (some p) = not (eqb_ℤ p ts)

-- The page from its start on, with the number of messages taken and the time of the last one, and
-- what is left behind it.
unfoldable pub take_seconds :
    ℕ → ℕ → Option ℤ → List MessageRecord → List MessageRecord × List MessageRecord
take_seconds limit taken prev [] = ([], [])
take_seconds limit taken prev (m ∷ ms) =
    let rest : List MessageRecord × List MessageRecord =
      take_seconds limit (suc taken) (some m.create_time) ms in
    if another_second m.create_time prev && leb limit taken
    then ([], m ∷ ms)
    else (m ∷ rest.0, rest.1)

pub record PullSync : Type 0 where
  pub has_more : Bool
  pub next_since : ℤ
  pub next_offset : ℕ
  pub watermark : ℤ

pub record PullPage : Type 0 where
  pub messages : List MessageRecord
  pub sync : PullSync

abbrev pub is_nonempty : List MessageRecord → Bool
is_nonempty [] = false
is_nonempty (m ∷ ms) = true

-- `next_since <= since.unwrap_or(i64::MIN)`
abbrev pub stuck : ℤ → Option ℤ → Bool
stuck next since = leb_ℤ next (unwrap_or since (negsuc (2 ^ 63 - 1)))

-- `watermark` is the upper bound of the request, or the time of it.
unfoldable pub pull_page : Option ℤ → Option ℤ → ℤ → ℕ → ℕ → List MessageRecord → PullPage
pull_page since end now limit offset conv =
    let rows : List MessageRecord = ascending since end conv in
    let split : List MessageRecord × List MessageRecord =
      take_seconds limit 0 none (drop offset rows) in
    let has_more : Bool = is_nonempty split.1 in
    let watermark : ℤ = unwrap_or end now in
    let next_since : ℤ =
      unwrap_or (option_map (λ (m : MessageRecord). m.create_time) (last? split.0))
        (unwrap_or since (pos 0)) in
    record {
      messages = split.0;
      sync = record {
        has_more = has_more;
        next_since = if has_more then next_since else watermark;
        next_offset =
            if has_more && stuck next_since since
            then (if ltb (length rows) offset then length rows else offset) + length split.0
            else 0;
        watermark = watermark;
      };
    }
