-- ===== src/Tick/Probe.antt =====
-- railway-watchdog-tick.ts: the heartbeat probe of a row.
use pe_hackathon.Base.{
  ◌+◌, Bool, true, false, not, ◌&&◌, none, some, String, [], ◌∷◌, if◌then◌else◌, or_else, is_some,
}
use pe_hackathon.Base.Store.{get, put, delete}
use pe_hackathon.Text.{is_empty, truthy, trim, template}
use pe_hackathon.Env.{Env}
use pe_hackathon.Heartbeat.{
  HeartbeatPingResult, Ping, build_heartbeat_probe_url, ping_heartbeat_url,
  should_use_private_railway_heartbeat,
}
use pe_hackathon.Lifecycle.{
  effective_railway_online_status_after_probe, railway_heartbeat_exit_redeploy_enabled,
}
use pe_hackathon.Visibility.Rows.{RailwayVisibilityRow}
use pe_hackathon.Tick.State.{
  HeartbeatRecoverState, ActivityStatus, status_code, status_text, http, Loop, Answers, probe_stamp,
  skip_stamp, note_activity,
}
use pe_hackathon.Tick.Settings.{
  railway_heartbeat_enabled, railway_heartbeat_recover_enabled, auto_recover,
}
use pe_hackathon.Tick.Status.{
  is_healthy, is_deploying, display_name, deployment_id_of, current_status,
}
use pe_hackathon.Tick.Misses.{Beat, current_state, touch, consider_recover}

unfoldable pub recover_watched : Env → RailwayVisibilityRow → Bool
recover_watched env row =
    not (railway_heartbeat_exit_redeploy_enabled env)
    && railway_heartbeat_recover_enabled env
    && auto_recover env
    && is_healthy (current_status row)
    && not (is_deploying (current_status row))

unfoldable pub missed :
    Env → String → RailwayVisibilityRow → Answers → HeartbeatRecoverState → Loop → Beat
missed env now row a st l =
    let failed = record l { hb_fail = l.hb_fail + 1 } in
    if recover_watched env row
    then consider_recover env now row a
        (record st { consecutive_misses = st.consecutive_misses + 1 }) failed
    else if is_healthy (current_status row)
    then (st, failed)
    else (record st { consecutive_misses = 0 }, failed)

unfoldable pub beat :
    Env → String → RailwayVisibilityRow → Answers → Bool → HeartbeatRecoverState → Loop → Beat
beat env now row a true st l = (
  record st { consecutive_misses = 0; logged_cooldown_wait = false },
  record l { hb_ok = l.hb_ok + 1 },
)
beat env now row a false st l = missed env now row a st l

-- `pr.statusCode ?? (pr.ok ? 200 : "fail")`
probe_status : Ping → ActivityStatus
probe_status pr = elim pr.status_code [
  | some code ↦ status_code code
  | none ↦ if pr.ok then status_code 200 else status_text "fail"
]

-- `hbSynth`
abbrev synthetic : RailwayVisibilityRow → String → Ping → HeartbeatPingResult
synthetic row url pr = record {
  railway_service_id = row.railway_service_id;
  service = display_name row;
  probe_url = some url;
  skipped = false;
  ok = some pr.ok;
  status_code = pr.status_code;
  latency_ms = some pr.latency_ms;
  error = truthy pr.error;
}

-- The lifecycle is told of the result, and the beat's state is stored.
unfoldable pub conclude : Env → RailwayVisibilityRow → String → Ping → Beat → Loop
conclude env row url pr (st, l) =
    let sid = row.railway_service_id in
    record l {
      state = record (l.state) {
        heartbeat_exit_lifecycle =
            (effective_railway_online_status_after_probe env (l.state).heartbeat_exit_lifecycle sid
              (deployment_id_of row) row.railway_online_status (some (synthetic row url pr))
              true).0;
        heartbeat_recover_state = put (l.state).heartbeat_recover_state sid st;
      };
    }

unfoldable pub probe_row :
    Env → String → RailwayVisibilityRow → Answers → String → HeartbeatRecoverState → Loop → Loop
unfolding probe_status
probe_row env now row a url st l =
    let pr = ping_heartbeat_url a.fetched in
    let noted =
      note_activity (record l { hb_probes = l.hb_probes + 1 })
        (record {
          at = a.stamp probe_stamp;
          kind = http;
          target = url;
          method = some "GET";
          duration_ms = some a.probe_ms;
          status = some (probe_status pr);
          detail = truthy pr.error;
        }) in
    conclude env row url pr (beat env now row a pr.ok st noted)

skip_note : RailwayVisibilityRow → Answers → String → Loop → Loop
skip_note row a detail l = note_activity l (record {
  at = a.stamp skip_stamp;
  kind = http;
  target = template ("heartbeat skipped (" ∷ display_name row ∷ ")" ∷ []);
  method = none;
  duration_ms = none;
  status = none;
  detail = some detail;
})

-- The branch for a row with no probe URL.
unfoldable pub skip_row : Env → RailwayVisibilityRow → Answers → Loop → Loop
unfolding skip_note
skip_row env row a l =
    let skipped = record l {
      hb_skipped = l.hb_skipped + 1;
      state = record (l.state) {
        heartbeat_recover_state = delete (l.state).heartbeat_recover_state row.railway_service_id;
      };
    } in
    if is_some (truthy row.railway_public_url)
    then skip_note row a "no probe path for service" skipped
    else if is_empty (trim (or_else row.railway_public_url ""))
        && not (should_use_private_railway_heartbeat env)
    then skip_note row a "no public URL" skipped
    else skipped

-- The second part of a round.
unfoldable pub heartbeat_row : Env → String → RailwayVisibilityRow → Answers → Loop → Loop
heartbeat_row env now row a l =
    let sid = row.railway_service_id in
    let dep = deployment_id_of row in
    let cur = current_status row in
    let st = current_state (get (l.state).heartbeat_recover_state sid) dep cur in
    let touched = record l {
      state = record (l.state) {
        heartbeat_recover_state = touch (l.state).heartbeat_recover_state sid dep cur;
      };
    } in
    if not (railway_heartbeat_enabled env)
    then touched
    else elim (build_heartbeat_probe_url env row.railway_public_url row.service) [
      | none ↦ skip_row env row a touched
      | some url ↦ probe_row env now row a url st touched
    ]
