-- ===== src/Tests/Streaming.antt =====
-- src/server/handlers/push_events.rs on concrete inputs.
use weflow_server.Base.{ℕ, ◌≡◌, refl, map, List, [], ◌∷◌, arith}
use weflow_server.Base.Text.{codes}
use weflow_server.Sync.{baseline}
use weflow_server.Sync.History.{append, trim_front}
use weflow_server.Sync.History.Bus.{publish, subscribe_with_replay, publish_all}
use weflow_server.Media.Disk.{Disk}
use weflow_server.Server.Stream.{Signal, stamped, lagged, shutdown, serialize_event, sse_frames}
use weflow_server.Server.Stream.Numbers.{numbered, received, stamp, sse_frames-expected}
use weflow_server.Sync.History.Bus.Once.{expected}
use weflow_server.Tests.Syncing.{one_kept-IsValid, single_receiver, bus, later}

-- Two events, with a loss between them that took nothing, and the end of the server.
abbrev signals : List Signal
signals = stamped (2, baseline []) ∷ lagged [] ∷ stamped (3, baseline []) ∷ shutdown ∷ []

abbrev no_files : ℕ → Disk
no_files n = []

took_all :
    received signals
    ≡ single_receiver.waiting
        (subscribe_with_replay single_receiver 6 0 bus).1
        (publish_all single_receiver later (subscribe_with_replay single_receiver 6 0 bus).0).tx
unfolding publish subscribe_with_replay publish_all append trim_front
took_all = refl

sse_frames-expected_example :
    numbered (
      sse_frames
        (serialize_event 1)
        (codes "out" ∷ [])
        no_files
        (subscribe_with_replay single_receiver 6 0 bus).2
        []
        signals)
    ≡ map (stamp (serialize_event 1) (codes "out" ∷ []) no_files) (expected 6 0 bus.history later)
sse_frames-expected_example =
    sse_frames-expected (serialize_event 1) (codes "out" ∷ []) no_files single_receiver 6 0 bus
      later [] signals one_kept-IsValid (omega arith) (omega arith) took_all
