-- ===== src/Tests/Lifecycle.antt =====
-- The theorems about the lifecycle of a service and about its worker.
use pe_hackathon.Base.{◌≡◌, refl, true, some, [], ◌∷◌}
use pe_hackathon.Base.Store.{get}
use pe_hackathon.Lifecycle.{
  create_heartbeat_exit_lifecycle_state, verdict, effective_railway_online_status_after_probe,
}
use pe_hackathon.Lifecycle.Streaks.{
  view, run, streak, settled, probe, status_after, run_of_deployment, probe-view_ne,
}
use pe_hackathon.Visibility.Status.{online}
use pe_hackathon.Worker.{here, next, timer, request, initial, begin_tick, handle_request}
use pe_hackathon.Worker.Exclusion.{IsExclusive, Reach-IsExclusive}
use pe_hackathon.Tests.Fixtures.{env, missed_beat}

run_of_deployment_example :
    (view (run env true "ui" "dep-2" create_heartbeat_exit_lifecycle_state (missed_beat ∷ [])) "ui"
      ≡ settled env true "ui" "dep-2" (streak 0 (missed_beat ∷ [])))
    × ((probe env true "ui" "dep-2"
          (run env true "ui" "dep-2" create_heartbeat_exit_lifecycle_state (missed_beat ∷ []))
          missed_beat).1
        ≡ status_after env true "ui" "dep-2"
            (streak 0 (missed_beat ∷ []))
            (verdict (some missed_beat)))
unfolding create_heartbeat_exit_lifecycle_state get
run_of_deployment_example =
    run_of_deployment env true "ui" "dep-2" create_heartbeat_exit_lifecycle_state missed_beat
      missed_beat [] (λ e. cc)

probe-view_ne_example :
    view
      (effective_railway_online_status_after_probe env create_heartbeat_exit_lifecycle_state "ui"
        "dep-2" online
        (some missed_beat)
        true).0
      "lb"
    ≡ view create_heartbeat_exit_lifecycle_state "lb"
probe-view_ne_example =
    probe-view_ne env true create_heartbeat_exit_lifecycle_state "ui" "dep-2" "lb" online
      (some missed_beat) refl

Reach-IsExclusive_example :
    IsExclusive (begin_tick (handle_request env "GET" "/v1/stream" 1 (begin_tick initial)).0)
Reach-IsExclusive_example =
    Reach-IsExclusive {env = env}
      (next (next (next here timer) (request "GET" "/v1/stream" 1)) timer)
