-- ===== src/Server/Registry/Race/Ghost.antt =====
-- However a build and a deregistration interleave, no baseline of the account that is gone stands
-- behind the reset.
use weflow_server.Base.{◌≡◌, refl, ℕ, Bool, true, false, List, [], ◌∷◌, map}
use weflow_server.Sync.{Event, baseline}
use weflow_server.Sync.History.{HistoryBuf, append, clear, trim_front, id_and_event}
use weflow_server.Server.Registry.Race.{
  Build, syncing, installing, installed, broken, guarded, publishing, finished, discarded, Teardown,
  idle, removed, retired, cleared, wiped, bumped, reset, Shared, publish_watermark_baseline,
  ready_watermarks, clear_replay, bump_generation, publish_current, Step, Reach, start, built,
  abandoned, install, break_off, discard, discard_broken, go_error, go_ready, lock_running,
  lock_stopped, announce, remove_handle, set_stopped, drop_index, clear_bus, bump, publish_reset,
  none_taken, then_step,
}

abbrev pub replayed : HistoryBuf Event → List (ℕ × Event)
replayed h = map id_and_event h.items

-- Only the baseline of a reset: one event, without watermarks, under the last id.
abbrev pub IsReset : HistoryBuf Event → Type 0
IsReset h = replayed h ≡ (h.last_id, baseline []) ∷ []

-- The lock of the store is held by a build that publishes.
abbrev Holds : Build → Bool → Type 0
Holds publishing locked = locked ≡ true
Holds syncing locked = Unit
Holds (installing index) locked = Unit
Holds installed locked = Unit
Holds broken locked = Unit
Holds guarded locked = Unit
Holds finished locked = Unit
Holds discarded locked = Unit

abbrev IsApart : Build → Type 0
IsApart publishing = ⊥
IsApart syncing = Unit
IsApart (installing index) = Unit
IsApart installed = Unit
IsApart broken = Unit
IsApart guarded = Unit
IsApart finished = Unit
IsApart discarded = Unit

-- From its steps on, a deregistration has the handle out of the registry, the flag set, no build that
-- still publishes, the replay empty, and at its end its own baseline in the replay.
abbrev Safe : Teardown → Bool → Bool → Build → HistoryBuf Event → Type 0
Safe idle registered stopped b h = Unit
Safe removed registered stopped b h = registered ≡ false
Safe retired registered stopped b h = (registered ≡ false) × (stopped ≡ true)
Safe cleared registered stopped b h = (registered ≡ false) × (stopped ≡ true) × IsApart b
Safe wiped registered stopped b h =
    (registered ≡ false) × (stopped ≡ true) × IsApart b × (h.items ≡ [])
Safe bumped registered stopped b h =
    (registered ≡ false) × (stopped ≡ true) × IsApart b × (h.items ≡ [])
Safe reset registered stopped b h = (registered ≡ false) × (stopped ≡ true) × IsApart b × IsReset h

abbrev IsSafe : Shared → Type 0
IsSafe s = Holds s.build s.locked × Safe s.teardown s.registered s.stopped s.build s.history

module _ (registered stopped : Bool) (h : HistoryBuf Event) where
  -- A build may go on to where it does not publish.
  Safe-apart :
      (t : Teardown) (b c : Build)
      → IsApart c
      → Safe t registered stopped b h
      → Safe t registered stopped c h
  Safe-apart idle b c apart k = k
  Safe-apart removed b c apart k = k
  Safe-apart retired b c apart k = k
  Safe-apart cleared b c apart k = (k.0, k.1, apart)
  Safe-apart wiped b c apart k = (k.0, k.1, apart, k.3)
  Safe-apart bumped b c apart k = (k.0, k.1, apart, k.3)
  Safe-apart reset b c apart k = (k.0, k.1, apart, k.3)

  -- While a build publishes, the index is not dropped yet, so that the replay is free.
  Safe-published :
      (t : Teardown) (later : HistoryBuf Event)
      → Safe t registered stopped publishing h
      → Safe t registered stopped finished later
  Safe-published idle later k = tt
  Safe-published removed later k = k
  Safe-published retired later k = k
  Safe-published cleared later k = absurd k.2
  Safe-published wiped later k = absurd k.2
  Safe-published bumped later k = absurd k.2
  Safe-published reset later k = absurd k.2

-- A flag that is still off lets a build publish.
Safe-running :
    (t : Teardown) (registered : Bool) (b : Build) (h : HistoryBuf Event)
    → Safe t registered false b h
    → Safe t registered false publishing h
Safe-running idle registered b h k = tt
Safe-running removed registered b h k = k
Safe-running retired registered b h k = k
Safe-running cleared registered b h k = absurd (let e = k.1 in cc)
Safe-running wiped registered b h k = absurd (let e = k.1 in cc)
Safe-running bumped registered b h k = absurd (let e = k.1 in cc)
Safe-running reset registered b h k = absurd (let e = k.1 in cc)

-- With the lock free, no build publishes.
free-IsApart : (b : Build) → Holds b false → IsApart b
free-IsApart syncing h = tt
free-IsApart (installing index) h = tt
free-IsApart installed h = tt
free-IsApart broken h = tt
free-IsApart guarded h = tt
free-IsApart publishing h = absurd cc
free-IsApart finished h = tt
free-IsApart discarded h = tt

moved :
    (s : Shared) (c : Build)
    → IsApart c
    → IsSafe s
    → Safe s.teardown s.registered s.stopped c s.history
moved s c apart h = Safe-apart s.registered s.stopped s.history s.teardown s.build c apart h.1

announce-IsSafe :
    (now : ℕ) (s : Shared)
    → s.build ≡ publishing
    → IsSafe s
    → IsSafe (publish_watermark_baseline now s)
unfolding publish_watermark_baseline
announce-IsSafe now s e h =
    (tt, Safe-published s.registered s.stopped s.history s.teardown _ (rw e at h.1))

-- One event in a replay that was empty.
appended-IsReset :
    (now : ℕ) (h : HistoryBuf Event) → h.items ≡ [] → IsReset (append now (baseline []) h).0
unfolding append trim_front
appended-IsReset now h e = rw e refl

publish_reset-IsSafe :
    (now : ℕ) (s : Shared) → s.teardown ≡ bumped → IsSafe s → IsSafe (publish_current now s)
unfolding publish_current ready_watermarks
publish_reset-IsSafe now s e h =
    let k = rw e at h.1 in (h.0, (k.0, k.1, k.2, rw k.0 (appended-IsReset now s.history k.3)))

Step-IsSafe : {s t : Shared} → Step s t → IsSafe s → IsSafe t
unfolding clear_replay bump_generation clear
Step-IsSafe (built s index e f) h = (tt, moved s (installing index) tt h)
Step-IsSafe (abandoned s e f) h = (tt, moved s installed tt h)
Step-IsSafe (install s index now e f) h = (tt, moved s installed tt h)
Step-IsSafe (break_off s e) h = (tt, moved s broken tt h)
Step-IsSafe (discard s e f) h = (tt, moved s discarded tt h)
Step-IsSafe (discard_broken s e f) h = (tt, moved s discarded tt h)
Step-IsSafe (go_error s e f) h = (tt, moved s finished tt h)
Step-IsSafe (go_ready s e f) h = (tt, moved s guarded tt h)
Step-IsSafe (lock_running s e l f) h =
    (refl, rw f (Safe-running s.teardown s.registered s.build s.history (rw f at h.1)))
Step-IsSafe (lock_stopped s e l f) h = (tt, moved s finished tt h)
Step-IsSafe (announce s now e) h = announce-IsSafe now s e h
Step-IsSafe (remove_handle s e) h = (h.0, refl)
Step-IsSafe (set_stopped s e) h = (h.0, ((rw e at h.1), refl))
Step-IsSafe (drop_index s e l) h =
    let k = rw e at h.1 in (h.0, (k.0, k.1, free-IsApart s.build (rw l at h.0)))
Step-IsSafe (clear_bus s e) h = let k = rw e at h.1 in (h.0, (k.0, k.1, k.2, refl))
Step-IsSafe (bump s e) h = (h.0, (rw e at h.1))
Step-IsSafe (publish_reset s now e) h = publish_reset-IsSafe now s e h

Reach-IsSafe : {s t : Shared} → Reach s t → IsSafe s → IsSafe t
Reach-IsSafe (none_taken s) h = h
Reach-IsSafe (then_step r x) h = Step-IsSafe x (Reach-IsSafe r h)

-- From a registration on, in whatever order its build and its deregistration take their steps, and
-- while no other account is registered: once the deregistration is through, the replay holds the
-- baseline that it published last, which has no watermarks, and nothing of the account that is gone.
pub Reach-IsReset :
    (history : HistoryBuf Event) (generation : ℕ) (t : Shared)
    → Reach (start history generation) t
    → t.teardown ≡ reset
    → IsReset t.history
Reach-IsReset history generation t r through = (rw through at (Reach-IsSafe r (tt, tt)).1).3
