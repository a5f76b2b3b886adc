-- ===== src/Sync/Drain.antt =====
-- The loop of `AccountSync::poll_once` that empties one message table page by page, and the tests
-- of `store::index::read_new` that it stands on.
pub mod Order
pub mod Complete
pub mod Total
use weflow_server.Base.{
  ℕ, zero, suc, Bool, true, false, not, ◌||◌, ◌&&◌, List, [], ◌∷◌, ◌++◌, Option, none, some, leb,
  if◌then◌else◌, length, ◌>>=◌, option_map,
}
use weflow_server.Base.Int.{ℤ, ltb_ℤ, eqb_ℤ}
use weflow_server.Store.{MessageRecord, Watermark}

abbrev pub read_page : ℕ
read_page = 5000

abbrev pub read_max_pages : ℕ
read_max_pages = 64

-- The order of the triples that `read_new` and `max_watermark` compare.
unfoldable pub before : Watermark → Watermark → Bool
before a b =
    ltb_ℤ a.create_time b.create_time
    || (eqb_ℤ a.create_time b.create_time
        && (ltb_ℤ a.sort_seq b.sort_seq
            || (eqb_ℤ a.sort_seq b.sort_seq && ltb_ℤ a.local_id b.local_id)))

unfoldable pub max_watermark : Watermark → Watermark → Watermark
max_watermark a b = if before a b then b else a

unfoldable pub watermark_of : MessageRecord → Watermark
watermark_of r = record {
  create_time = r.create_time;
  sort_seq = r.sort_seq;
  local_id = r.local_id;
}

-- The cursor moves on with every row.
unfoldable pub advance : Watermark → List MessageRecord → Watermark
advance wm [] = wm
advance wm (r ∷ rs) = advance (watermark_of r) rs

pub record Drained : Type 0 where
  pub rows : List MessageRecord
  pub cursor : Watermark
  pub drained_all : Bool

abbrev pub after_page : List MessageRecord → Drained → Drained
after_page rows d = record d { rows = rows ++ d.rows }

-- `read` is `read_new` on the table, `none` its error, and the first number the pages that may
-- still be read.
unfoldable pub drain :
    (Watermark → Option (List MessageRecord)) → ℕ → ℕ → Watermark → Option Drained
drain read page zero wm = none
drain read page (suc zero) wm = do
  rows ← read wm
  some record { rows = rows; cursor = advance wm rows; drained_all = not (leb page (length rows)) }
drain read page (suc (suc pages)) wm = do
  rows ← read wm
  let next = advance wm rows
  let rest = drain read page (suc pages) next
  if leb page (length rows)
      then option_map (after_page rows) rest
      else some record { rows = rows; cursor = next; drained_all = true }
