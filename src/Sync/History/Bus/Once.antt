-- ===== src/Sync/History/Bus/Once.antt =====
-- A subscriber gets the kept events behind the id that it names, and all later ones, once each from
-- the replay or from its receiver.
use mathlib.Core.List.{append-nil, append_assoc}
use weflow_server.Base.{
  ℕ, suc, ◌+◌, ◌^◌, ◌≤◌, ◌<◌, ◌≡◌, refl, sym, ap, ◌∙◌, ◌&&◌, ltb, ◌-◌, ◌*◌, retain, List, [], ◌∷◌,
  ◌++◌, arith, length, length-append,
}
use weflow_server.Sync.History.{HistoryBuf, append, replay_since}
use weflow_server.Sync.History.Order.{Rising, Rising-append, retained-Rising, pairs, IsValid}
use weflow_server.Sync.History.Bus.{
  Broadcast, EventBus, publish, subscribe_with_replay, publish_all,
}

-- The events of later publications, with the ids behind the last one.
abbrev pub numbered_from {ℓ} : {E : Type ℓ} → ℕ → List (ℕ × E) → List (ℕ × E)
numbered_from n [] = []
numbered_from n ((now, event) ∷ later) = (suc n, event) ∷ numbered_from (suc n) later

numbered_from-Rising {ℓ} :
    {E : Type ℓ} (n : ℕ) (later : List (ℕ × E))
    → Rising n (numbered_from n later) (n + length later)
numbered_from-Rising n [] = omega arith
numbered_from-Rising n ((now, event) ∷ later) =
    let e : suc n + length later ≡ n + suc (length later) = omega arith in
    (omega arith, rw (← e) (numbered_from-Rising (suc n) later))

-- What a client that names the id `since` is to get: the kept events behind that id that are
-- younger than 600 seconds, and all that are published later, numbered on.
abbrev pub expected {ℓ} : {E : Type ℓ} → ℕ → ℕ → HistoryBuf E → List (ℕ × E) → List (ℕ × E)
expected now since h later =
    pairs (retain (λ i. ltb since i.id && ltb (now - i.at) (600 * 1_000_000_000)) h.items)
    ++ numbered_from h.last_id later

module _ {E : Type 0} (net : Broadcast (ℕ × E)) where
  append-last_id :
      (now : ℕ) (event : E) (h : HistoryBuf E)
      → h.last_id + 1 < 2 ^ 64
      → ((append now event h).0.last_id ≡ suc h.last_id) × ((append now event h).1 ≡ suc h.last_id)
  unfolding append
  append-last_id now event h room = (omega arith, omega arith)

  -- A publication gives the next id, and hands it with the event to a receiver that has room.
  publish-sent :
      (now : ℕ) (event : E) (bus : EventBus net) (r : net.Receiver)
      → bus.history.last_id + 1 < 2 ^ 64
      → length (net.waiting r bus.tx) < net.capacity
      → ((publish net now event bus).0.history.last_id ≡ suc bus.history.last_id)
        × (net.waiting r (publish net now event bus).0.tx
            ≡ net.waiting r bus.tx ++ (suc bus.history.last_id, event) ∷ [])
  unfolding publish
  publish-sent now event bus r room fits =
      let ids = append-last_id now event bus.history room in
      (ids.0, rw (net.waiting-send _ r bus.tx fits, ids.1) refl)

  -- What waits grows by the events of the publications, numbered on from the last id.
  publish_all-waiting :
      (later : List (ℕ × E)) (bus : EventBus net) (r : net.Receiver)
      → bus.history.last_id + length later < 2 ^ 64
      → length (net.waiting r bus.tx) + length later ≤ net.capacity
      → net.waiting r (publish_all net later bus).tx
        ≡ net.waiting r bus.tx ++ numbered_from bus.history.last_id later
  unfolding publish_all
  publish_all-waiting [] bus r room fits = sym (append-nil (net.waiting r bus.tx))
  publish_all-waiting ((now, event) ∷ later) bus r room fits =
      let sent = publish-sent now event bus r (omega arith) (omega arith) in
      let more = length-append (net.waiting r bus.tx) ((suc bus.history.last_id, event) ∷ []) in
      publish_all-waiting later (publish net now event bus).0 r (rw sent.0 (omega arith))
        (rw sent.1 (omega arith))
      ∙ rw
          (
            sent.0,
            sent.1,
            append_assoc (net.waiting r bus.tx) ((suc bus.history.last_id, event) ∷ [])
                (numbered_from (suc bus.history.last_id) later),
          )
          refl

  -- A client that subscribes and names the id `since` finds in its replay and, after that, in its
  -- receiver exactly the events that are kept behind that id and younger than 600 seconds, and then
  -- every event that is published later, in order and with rising ids, so that none comes twice. The
  -- receiver is not overrun and the counter has room.
  pub subscribe_with_replay-expected :
      (now since : ℕ) (bus : EventBus net) (later : List (ℕ × E))
      → (v : IsValid bus.history) → bus.history.last_id + length later < 2 ^ 64
      → length later ≤ net.capacity
      → ((subscribe_with_replay net now since bus).2
            ++ net.waiting
                (subscribe_with_replay net now since bus).1
                (publish_all net later (subscribe_with_replay net now since bus).0).tx
          ≡ expected now since bus.history later)
        × Rising v.first (expected now since bus.history later) (bus.history.last_id + length later)
  unfolding subscribe_with_replay replay_since
  subscribe_with_replay-expected now since bus later v room fits =
      let none_yet = net.waiting-subscribe bus.tx in
      let got =
        publish_all-waiting later (subscribe_with_replay net now since bus).0
          (subscribe_with_replay net now since bus).1 room (rw none_yet (omega arith)) in
      (
        ap (◌++◌ (replay_since now since bus.history)) (rw none_yet at got),
        Rising-append v.first bus.history.last_id _ _ _
            (retained-Rising _ v.first bus.history.last_id bus.history.items v.consecutive)
            (numbered_from-Rising bus.history.last_id later),
      )
