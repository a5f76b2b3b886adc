-- ===== src/Server/Stream/Numbers.antt =====
-- src/server/handlers/push_events.rs: the numbered frames of a stream are the events of the bus.
use weflow_server.Base.{
  ℕ, ◌+◌, ◌^◌, ◌≤◌, ◌<◌, ◌≡◌, refl, ap, ◌∙◌, List, [], ◌∷◌, ◌++◌, none, some, map, length,
}
use weflow_server.Base.Text.{Text}
use weflow_server.Pathsafe.{FilePath}
use weflow_server.Store.{Watermark}
use weflow_server.Sync.{Event}
use weflow_server.Sync.History.Order.{IsValid}
use weflow_server.Sync.History.Bus.{Broadcast, EventBus, subscribe_with_replay, publish_all}
use weflow_server.Sync.History.Bus.Once.{expected, subscribe_with_replay-expected}
use weflow_server.Media.Disk.{Disk}
use weflow_server.Server.Stream.{
  Serializer, Frame, Signal, shutdown, closed, stamped, lagged, event_frame, sync_frame,
  live_frames, sse_frames,
}

-- The frames with an id, each with its id.
abbrev pub numbered : List Frame → List (ℕ × Frame)
numbered [] = []
numbered (f ∷ fs) = let rest = numbered fs in elim f.id [ none ↦ rest | some i ↦ (i, f) ∷ rest ]

-- The events that come in before the stream ends.
abbrev pub received : List Signal → List (ℕ × Event)
received [] = []
received (shutdown ∷ signals) = []
received (closed ∷ signals) = []
received (stamped p ∷ signals) = p ∷ received signals
received (lagged wms ∷ signals) = received signals

module _ (serialize : Serializer) (export_dir : FilePath) (disks : ℕ → Disk) where
  -- The frame that is to come for an event: its id, and the name and payload that it serialises to.
  abbrev pub stamp : ℕ × Event → ℕ × Frame
  stamp (id, ev) =
      let content = serialize export_dir (disks id) ev in
      (id, record { id = some id; event = content.0; payload = some content.1 })

  numbered-replay :
      (ps : List (ℕ × Event)) (fs : List Frame)
      → numbered (map (event_frame serialize export_dir disks) ps ++ fs)
        ≡ map stamp ps ++ numbered fs
  numbered-replay [] fs = refl
  numbered-replay (p ∷ ps) fs = ap (◌∷◌ (stamp p)) (numbered-replay ps fs)

  numbered-live_frames :
      (signals : List Signal)
      → numbered (live_frames serialize export_dir disks signals) ≡ map stamp (received signals)
  unfolding live_frames
  numbered-live_frames [] = refl
  numbered-live_frames (shutdown ∷ signals) = refl
  numbered-live_frames (closed ∷ signals) = refl
  numbered-live_frames (stamped p ∷ signals) = ap (◌∷◌ (stamp p)) (numbered-live_frames signals)
  numbered-live_frames (lagged wms ∷ signals) = numbered-live_frames signals

  map-stamp : (ps qs : List (ℕ × Event)) → map stamp ps ++ map stamp qs ≡ map stamp (ps ++ qs)
  map-stamp [] qs = refl
  map-stamp (p ∷ ps) qs = ap (◌∷◌ (stamp p)) (map-stamp ps qs)

  numbered-sse_frames :
      (replay : List (ℕ × Event)) (wms : List (Text × Watermark)) (signals : List Signal)
      → numbered (sse_frames serialize export_dir disks replay wms signals)
        ≡ map stamp (replay ++ received signals)
  unfolding sse_frames
  numbered-sse_frames replay wms signals =
      numbered-replay replay
        (sync_frame serialize export_dir disks wms ∷ live_frames serialize export_dir disks signals)
      ∙ ap (◌++◌ (map stamp replay)) (numbered-live_frames signals)
      ∙ map-stamp replay (received signals)

-- A client of the stream names the id `since` and takes all that its receiver gets while the given
-- events are published. Its frames with an id are exactly these, in order: one for each event that is
-- kept behind `since` and younger than 600 seconds, and then one for each event that is published
-- later, each with the id, the name and the payload of its event. The greeting and the watermarks
-- take no id. The receiver is not overrun and the counter has room.
pub sse_frames-expected :
    (serialize : Serializer) (export_dir : FilePath) (disks : ℕ → Disk)
    (net : Broadcast (ℕ × Event)) (now since : ℕ) (bus : EventBus net) (later : List (ℕ × Event))
    (wms : List (Text × Watermark)) (signals : List Signal)
    → IsValid bus.history
    → bus.history.last_id + length later < 2 ^ 64
    → length later ≤ net.capacity
    → received signals
      ≡ net.waiting
          (subscribe_with_replay net now since bus).1
          (publish_all net later (subscribe_with_replay net now since bus).0).tx
    → numbered (
        sse_frames serialize export_dir disks
          (subscribe_with_replay net now since bus).2
          wms
          signals)
      ≡ map (stamp serialize export_dir disks) (expected now since bus.history later)
sse_frames-expected serialize export_dir disks net now since bus later wms signals v room fits
      taken =
    numbered-sse_frames serialize export_dir disks (subscribe_with_replay net now since bus).2 wms
      signals
    ∙ ap (map (stamp serialize export_dir disks)) (
        ap (◌++◌ (subscribe_with_replay net now since bus).2) taken
        ∙ (subscribe_with_replay-expected net now since bus later v room fits).0)
