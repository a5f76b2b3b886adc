-- ===== src/Sync/Poll/Round.antt =====
-- The ways a round, `AccountSync::poll_once` of src/sync/mod.rs, can go.
use weflow_server.Base.{
  ◌≡◌, refl, ◌⊎◌, inl, inr, true, false, [], Option, none, some, All, Bool-cases,
}
use weflow_server.Db.Live.{LivePool}
use weflow_server.Sync.Poll.{
  World, AccountSync, Phase1, read_work, Stops, nothing_read, finish_round, round, poll_once,
  classify_changed, is_empty_list,
}
use weflow_server.Sync.Poll.Emptied.{Emptied, read_work-Emptied}

round-cases :
    (w : World) (stops : Stops) (a : AccountSync) (r : LivePool × Option Phase1)
    → ((q : Phase1) → r.1 ≡ some q → All (Emptied w a.store) q.read_done)
    → (round w stops (classify_changed w a) a r ≡ (a, some []))
      ⊎ ((pool : LivePool) × (round w stops (classify_changed w a) a r
            ≡ (record a { pool = pool }, none)))
      ⊎ ((p : Phase1) × (All (Emptied w a.store) p.read_done)
          × (round w stops (classify_changed w a) a r ≡ (
            (finish_round w stops (classify_changed w a) p a).0,
            some (finish_round w stops (classify_changed w a) p a).1,
          )))
round-cases w stops a (pool, none) h = inr (inl (pool, refl))
round-cases w stops a (pool, some p) h = inr (inr (p, h p refl, refl))

poll_once-busy :
    (w : World) (stops : Stops) (a : AccountSync)
    → stops.entry ≡ false
    → is_empty_list (classify_changed w a) ≡ false
    → poll_once w stops a
      ≡ round w stops
          (classify_changed w a)
          a
          (read_work w a.store (classify_changed w a) (nothing_read a.pool))
unfolding poll_once
poll_once-busy w stops a go busy = simp (go, busy)

poll_once-quiet :
    (w : World) (stops : Stops) (a : AccountSync)
    → stops.entry ≡ false
    → is_empty_list (classify_changed w a) ≡ true
    → poll_once w stops a ≡ (a, some [])
unfolding poll_once
poll_once-quiet w stops a go quiet = simp (go, quiet)

pub poll_once-entry :
    (w : World) (stops : Stops) (a : AccountSync)
    → stops.entry ≡ true
    → poll_once w stops a ≡ (a, some [])
unfolding poll_once
poll_once-entry w stops a stop = rw stop refl

-- A round: nothing was done, a read failed, or the reads went through and the rest was done.
pub poll_once-cases :
    (w : World) (stops : Stops) (a : AccountSync)
    → (poll_once w stops a ≡ (a, some []))
      ⊎ ((pool : LivePool) × (poll_once w stops a ≡ (record a { pool = pool }, none)))
      ⊎ ((p : Phase1) × (All (Emptied w a.store) p.read_done)
          × (poll_once w stops a ≡ (
            (finish_round w stops (classify_changed w a) p a).0,
            some (finish_round w stops (classify_changed w a) p a).1,
          )))
poll_once-cases w stops a = elim (Bool-cases stops.entry) [
  | inl stop ↦ inl (poll_once-entry w stops a stop)
  | inr go ↦ elim (Bool-cases (is_empty_list (classify_changed w a))) [
    | inl quiet ↦ inl (poll_once-quiet w stops a go quiet)
    | inr busy ↦ rw (poll_once-busy w stops a go busy) (
        round-cases w stops a (read_work w a.store (classify_changed w a) (nothing_read a.pool))
          (λ q e. read_work-Emptied w a.store (classify_changed w a) (nothing_read a.pool) q tt e))
  ]
]
