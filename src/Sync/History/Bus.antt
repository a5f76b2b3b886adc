-- ===== src/Sync/History/Bus.antt =====
-- `EventBus` of src/sync/history.rs: an event enters the replay buffer and the broadcast channel
-- under one lock, and a subscription takes its receiver and its replay under the same lock. The
-- channel is that of tokio; a lock makes each operation here one step.
pub mod Once
use weflow_server.Base.{ℕ, ◌<◌, suc, ◌≡◌, List, [], ◌∷◌, ◌++◌, length}
use weflow_server.Sync.History.{HistoryBuf, append, replay_since, empty_history}

-- `tokio::sync::broadcast`: what a receiver has not taken yet, oldest first. A new receiver has
-- nothing to take, and a message joins what a receiver of the channel has left as long as that is
-- less than the capacity.
pub record Broadcast (T : Type 0) : Type 1 where
  pub Channel : Type 0
  pub Receiver : Type 0
  pub capacity : ℕ
  pub subscribe : Channel → Channel × Receiver
  pub send : T → Channel → Channel
  pub waiting : Receiver → Channel → List T
  pub waiting-subscribe : (c : Channel) → waiting (subscribe c).1 (subscribe c).0 ≡ []
  pub waiting-send :
      (x : T) (r : Receiver) (c : Channel)
      → length (waiting r c) < capacity
      → waiting r (send x c) ≡ waiting r c ++ x ∷ []

module _ {E : Type 0} (net : Broadcast (ℕ × E)) where
  pub record EventBus : Type 0 where
    pub history : HistoryBuf E
    pub tx : net.Channel

  -- A stamped event is the pair of its id and the event.
  unfoldable pub publish : ℕ → E → EventBus → EventBus × ℕ
  publish now event bus =
      let appended : HistoryBuf E × ℕ = append now event bus.history in
      (record { history = appended.0; tx = net.send (appended.1, event) bus.tx }, appended.1)

  unfoldable pub subscribe_with_replay : ℕ → ℕ → EventBus → EventBus × net.Receiver × List (ℕ × E)
  subscribe_with_replay now since bus =
      let joined : net.Channel × net.Receiver = net.subscribe bus.tx in
      (record bus { tx = joined.0 }, joined.1, replay_since now since bus.history)

  -- The times and events of later publications, in order.
  unfoldable pub publish_all : List (ℕ × E) → EventBus → EventBus
  publish_all [] bus = bus
  publish_all ((now, event) ∷ rest) bus = publish_all rest (publish now event bus).0
