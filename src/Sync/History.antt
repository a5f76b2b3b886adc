-- ===== src/Sync/History.antt =====
-- src/sync/history.rs: the replay buffer. Times are nanoseconds of a monotonic clock, read by the
-- caller.
pub mod Order
pub mod Bus
use weflow_server.Base.{
  ℕ, ◌+◌, ◌-◌, ◌*◌, ◌^◌, ◌%◌, suc, Bool, ◌&&◌, List, [], ◌∷◌, ◌++◌, map, ltb, if◌then◌else◌, length,
  retain,
}

pub record HistoryItem {ℓ} (E : Type ℓ) : Type ℓ where
  pub id : ℕ
  pub at : ℕ
  pub event : E

pub record HistoryBuf {ℓ} (E : Type ℓ) : Type ℓ where
  pub items : List (HistoryItem E)
  pub last_id : ℕ

abbrev pub max_items : ℕ
max_items = 1000

-- 600 seconds
abbrev pub ttl : ℕ
ttl = 600 * 1_000_000_000

-- The counter is a `u64`.
abbrev pub next_id : ℕ → ℕ
next_id n = (n + 1) % 2 ^ 64

module _ {ℓ} {E : Type ℓ} where
  abbrev pub empty_history : HistoryBuf E
  empty_history = record { items = []; last_id = 0 }

  -- `while len > MAX { pop_front }`
  unfoldable pub trim_front : ℕ → List (HistoryItem E) → List (HistoryItem E)
  trim_front most [] = []
  trim_front most (x ∷ xs) =
      let rest = trim_front most xs in if ltb most (length (x ∷ xs)) then rest else x ∷ xs

  unfoldable pub append : ℕ → E → HistoryBuf E → HistoryBuf E × ℕ
  append now event h =
      let id = next_id h.last_id in
      (
        record {
          items =
              trim_front max_items (h.items ++ record { id = id; at = now; event = event } ∷ []);
          last_id = id;
        },
        id,
      )

  unfoldable pub clear : HistoryBuf E → HistoryBuf E
  clear h = record h { items = [] }

  abbrev pub is_wanted : ℕ → ℕ → HistoryItem E → Bool
  is_wanted now since i = ltb since i.id && ltb (now - i.at) ttl

  abbrev pub id_and_event : HistoryItem E → ℕ × E
  id_and_event i = (i.id, i.event)

  unfoldable pub replay_since : ℕ → ℕ → HistoryBuf E → List (ℕ × E)
  replay_since now since h = map id_and_event (retain (is_wanted now since) h.items)
