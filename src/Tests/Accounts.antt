-- ===== src/Tests/Accounts.antt =====
-- The registration of src/server/mod.rs on concrete inputs.
use weflow_server.Base.{◌≡◌, refl, true, false, [], ◌∷◌, arith}
use weflow_server.Base.Int.{pos}
use weflow_server.Base.Text.{codes}
use weflow_server.Store.{empty_store, mark_index_built}
use weflow_server.Server.Registry.{App, new_handle, register_account, deregister_account, ready}
use weflow_server.Server.Registry.Single.{
  IsValid, Deregistered, deregister_account-Deregistered, register_account-IsValid,
}
use weflow_server.Server.Registry.Race.{
  Shared, publish_watermark_baseline, clear_replay, bump_generation, publish_current, start, Reach,
  none_taken, then_step, built, install, go_ready, lock_running, announce, remove_handle,
  set_stopped, drop_index, clear_bus, bump, publish_reset, removed, retired, cleared, reset,
  installing, installed, guarded, publishing,
}
use weflow_server.Server.Registry.Race.Ghost.{IsReset, Reach-IsReset}

abbrev app : App
app = record {
  accounts = (codes "ann", new_handle (codes "ann")) ∷ [];
  history = record { items = []; last_id = 4 };
  generation = 1;
}

deregister_account-Deregistered_example :
    Deregistered
      (codes "ann")
      (new_handle (codes "ann"))
      app
      (deregister_account 9 (codes "ann") app)
deregister_account-Deregistered_example =
    deregister_account-Deregistered 9 (codes "ann") (codes "ann") (new_handle (codes "ann")) app
      refl refl (omega arith)

register_account-IsValid_example :
    IsValid (register_account (codes "bob") app).0
    × IsValid (deregister_account 9 (codes "bob") app).0
register_account-IsValid_example = register_account-IsValid 9 (codes "bob") app (refl, refl)

abbrev first : Shared
first = start (record { items = []; last_id = 4 }) 1

abbrev holding : Shared
holding = record first { build = installing empty_store }

abbrev filled : Shared
filled = record holding {
  build = installed;
  store = record empty_store { index_built_at_ms = pos 7 };
}

abbrev serving : Shared
serving = record filled { build = guarded; status = ready }

abbrev announcing : Shared
announcing = record serving {
  registered = false;
  stopped = true;
  teardown = retired;
  build = publishing;
  locked = true;
}

abbrev dropped : Shared
dropped = record (publish_watermark_baseline 7 announcing) {
  teardown = cleared;
  store = empty_store;
}

abbrev at_end : Shared
at_end = publish_current 8 (bump_generation (clear_replay dropped))

-- The build takes the lock while the flag is off; then the flag is set, the baseline goes out, and
-- the deregistration goes on to its end.
trace : Reach first at_end
unfolding mark_index_built publish_watermark_baseline clear_replay bump_generation
trace =
    then_step
      (then_step
        (then_step
          (then_step
            (then_step
              (then_step
                (then_step
                  (then_step
                    (then_step
                      (then_step (then_step (none_taken first) (built first empty_store refl refl))
                        (install holding empty_store (pos 7) refl refl))
                      (go_ready filled refl refl))
                    (remove_handle serving refl))
                  (lock_running (record serving { teardown = removed; registered = false }) refl
                    refl refl))
                (set_stopped
                  (record serving {
                    teardown = removed;
                    registered = false;
                    build = publishing;
                    locked = true;
                  })
                  refl))
              (announce announcing 7 refl))
            (drop_index (publish_watermark_baseline 7 announcing) refl refl))
          (clear_bus dropped refl))
        (bump (clear_replay dropped) refl))
      (publish_reset (bump_generation (clear_replay dropped)) 8 refl)

through : at_end.teardown ≡ reset
unfolding publish_current
through = refl

Reach-IsReset_example : IsReset at_end.history
Reach-IsReset_example = Reach-IsReset (record { items = []; last_id = 4 }) 1 at_end trace through
