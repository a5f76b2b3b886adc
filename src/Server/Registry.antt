-- ===== src/Server/Registry.antt =====
-- The registration of accounts: src/server/mod.rs, and `ready_account` of
-- src/server/handlers/mod.rs. A handle is a value here; what its own tasks do with it while it is
-- retired is in `Race`.
pub mod Single
pub mod Race
use weflow_server.Base.{
  ℕ, suc, ◌+◌, Bool, true, false, not, ◌&&◌, ◌||◌, List, [], ◌∷◌, ◌++◌, Option, none, some,
  if◌then◌else◌, unwrap_or, option_map, ◌>>=◌, map,
}
use weflow_server.Base.Text.{Text, codes, text_eq}
use weflow_server.Base.Map.{Map, lookup, insert, remove, values}
use weflow_server.Store.{Store, Watermark, empty_store, store_is_empty}
use weflow_server.Sync.{Event, baseline}
use weflow_server.Sync.History.{HistoryBuf, append, clear}
use weflow_server.Server.Params.{Params}

pub data AccountStatus : Type 0 where
  awaiting_key indexing ready error : AccountStatus

unfoldable pub is_ready : AccountStatus → Bool
is_ready awaiting_key = false
is_ready indexing = false
is_ready ready = true
is_ready error = false

-- `AccountPhase`
pub data Phase : Type 0 where
  unregistered building serving failed : Phase

unfoldable pub phase_of : AccountStatus → Phase
phase_of awaiting_key = unregistered
phase_of indexing = building
phase_of ready = serving
phase_of error = failed

pub record Handle : Type 0 where
  pub wxid : Text
  pub status : AccountStatus
  pub store : Store
  pub watcher : Bool
  pub stopped : Bool

-- The registry, the replay buffer of the process-wide bus, and the generation of its baselines.
pub record App : Type 0 where
  pub accounts : Map Handle
  pub history : HistoryBuf Event
  pub generation : ℕ

-- `accounts.values().next()`
unfoldable pub bound_account : Map Handle → Option Handle
bound_account [] = none
bound_account ((k, h) ∷ rest) = some h

unfoldable pub account_phase : App → Phase × Bool
account_phase app =
    unwrap_or
      (option_map (λ (h : Handle). (phase_of h.status, is_ready h.status))
        (bound_account app.accounts))
      (unregistered, false)

pub data Answer : Type 0 where
  account : Handle → Answer
  none_registered not_ready : Answer

abbrev answer_for : Option Handle → Answer
answer_for none = none_registered
answer_for (some h) = if is_ready h.status then account h else not_ready

unfoldable pub ready_account : App → Params → Answer
ready_account app params = elim (lookup (codes "wxid") params) [
  | none ↦ answer_for (bound_account app.accounts)
  | some w ↦ answer_for (lookup w app.accounts)
]

pub data BindOutcome : Type 0 where
  bound : Handle → BindOutcome
  existing : Handle → BindOutcome
  occupied : Text → AccountStatus → BindOutcome

abbrev pub new_handle : Text → Handle
new_handle wxid = record {
  wxid = wxid;
  status = indexing;
  store = empty_store;
  watcher = false;
  stopped = false;
}

-- `Ready | Indexing`
unfoldable pub is_live : AccountStatus → Bool
is_live awaiting_key = false
is_live indexing = true
is_live ready = true
is_live error = false

-- The handle whose place the new one takes, retired: its flag is set and its watcher stopped.
abbrev pub retire : Handle → Handle
retire h = record h { stopped = true; watcher = false }

abbrev pub bind : Text → App → App × BindOutcome × Option Handle
bind wxid app = (
  record app { accounts = insert wxid (new_handle wxid) app.accounts },
  bound (new_handle wxid),
  option_map retire (lookup wxid app.accounts),
)

-- The registry afterwards, the outcome, and the handle that was retired.
unfoldable pub register_account : Text → App → App × BindOutcome × Option Handle
register_account wxid app = elim (bound_account app.accounts) [
  | none ↦ bind wxid app
  | some incumbent ↦
      if not (text_eq incumbent.wxid wxid)
      then (app, occupied incumbent.wxid incumbent.status, none)
      else if is_live incumbent.status
      then (app, existing incumbent, none)
      else bind wxid app
]

unfoldable pub watermarks_of : List Handle → List (Text × Watermark)
watermarks_of [] = []
watermarks_of (h ∷ hs) =
    let rest = watermarks_of hs in if is_ready h.status then h.store.watermarks ++ rest else rest

unfoldable pub current_watermarks : App → List (Text × Watermark)
current_watermarks app = watermarks_of (values app.accounts)

pub data DeregisterOutcome : Type 0 where
  deregistered : AccountStatus → Bool → DeregisterOutcome
  not_registered : DeregisterOutcome
  wxid_mismatch : Text → AccountStatus → DeregisterOutcome

-- The last steps: the replay is emptied, the generation moves on, and what is left is announced.
unfoldable pub reset_stream : ℕ → App → App
reset_stream now app = record app {
  history = (append now (baseline (current_watermarks app)) (clear app.history)).0;
  generation = suc app.generation;
}

-- The account leaves the registry first. The third component is the handle afterwards, with its
-- index dropped; the export directories are left out here.
unfoldable pub deregister_account : ℕ → Text → App → App × DeregisterOutcome × Option Handle
deregister_account now wxid app = elim (bound_account app.accounts) [
  | none ↦ (app, not_registered, none)
  | some b ↦ if not (text_eq b.wxid wxid) then (app, wxid_mismatch b.wxid b.status, none) else (
    reset_stream now (record app { accounts = remove wxid app.accounts }),
    deregistered b.status (not (store_is_empty b.store)),
    some (record (retire b) { store = empty_store }),
  )
]

-- The line that a test names to see through all of these.
unfoldable pub registry_ops : Unit {0}
unfolding is_ready phase_of bound_account account_phase ready_account is_live register_account
    watermarks_of current_watermarks reset_stream deregister_account
registry_ops = tt
