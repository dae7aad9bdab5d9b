-- ===== src/Views/Agreement.antt =====
-- docker/route.ts and chaos/status/route.ts: what the two views show of a service agrees.
use pe_hackathon.Base.{
  ℕ, ◌+◌, ◌≡◌, refl, sym, ap, ap₂, ◌∙◌, true, false, Option, none, some, String, List, [], ◌∷◌,
  arith, eq_refl, eq_iff, has, find, or_else, ◌==◌,
}
use pe_hackathon.Base.Store.{Store, get, put, get-put, get-put_self, get-delete_self}
use pe_hackathon.Text.{truthy, is_empty, trim}
use pe_hackathon.Env.{Env}
use pe_hackathon.Visibility.Status.{RailwayOnlineStatus}
use pe_hackathon.Visibility.Rows.{
  RailwayVisibilityRow, fetch_railway_visibility_rows, railway_visibility_configured,
}
use pe_hackathon.Heartbeat.{HeartbeatPingResult, Fetched, ping_row, ping_railway_service_heartbeats}
use pe_hackathon.Lifecycle.{
  HeartbeatExitLifecycleState, effective_railway_online_status_after_probe, probe_failed,
  sync_heartbeat_exit_deployment_id,
}
use pe_hackathon.Lifecycle.Streaks.{ServiceView, view, probe-view_ne}
use pe_hackathon.Tick.Run.{service_ids}
use pe_hackathon.Views.Table.{
  BeatRow, TableWorld, railway_table, beats_by_id, show_row, show_rows, railway_rows,
  get_visibility,
}
use pe_hackathon.Views.State.{
  StateWorld, found_railway, railway_state, state_heartbeat, found_row, is_named, state_of_rows,
  get_state,
}

-- What a view shows of a row that is probed alone.
unfoldable pub shown_alone :
    Env → HeartbeatExitLifecycleState → Fetched → RailwayVisibilityRow → BeatRow
shown_alone env s fetched row = (show_row env (some (ping_row env fetched row)) row s).1

unfoldable pub shown_apart :
    Env → HeartbeatExitLifecycleState → (ℕ → Fetched) → ℕ → List RailwayVisibilityRow → List BeatRow
shown_apart env s fetched i [] = []
shown_apart env s fetched i (row ∷ rows) =
    shown_alone env s (fetched i) row ∷ shown_apart env s fetched (i + 1) rows

-- No two rows are of one service.
unfoldable pub AllDistinct : List RailwayVisibilityRow → Type 0
AllDistinct [] = Unit
AllDistinct (row ∷ rows) =
    (has (service_ids rows) row.railway_service_id ≡ false) × AllDistinct rows

-- The states hold the same of every service of the rows.
Agrees :
    HeartbeatExitLifecycleState → HeartbeatExitLifecycleState → List RailwayVisibilityRow → Type 0
Agrees s s' rows = (j : String) → has (service_ids rows) j ≡ true → view s j ≡ view s' j

ping_row-id :
    (env : Env) (fetched : Fetched) (row : RailwayVisibilityRow)
    → (ping_row env fetched row).railway_service_id ≡ row.railway_service_id
unfolding ping_row
ping_row-id env fetched row = ground arith

beats_other :
    (env : Env) (fetched : ℕ → Fetched) (rows : List RailwayVisibilityRow) (i : ℕ)
    (m : Store HeartbeatPingResult) (j : String)
    → has (service_ids rows) j ≡ false
    → get (beats_by_id m (ping_railway_service_heartbeats env fetched i rows)) j ≡ get m j
unfolding beats_by_id ping_railway_service_heartbeats service_ids has
beats_other env fetched [] i m j h = refl
beats_other env fetched (row ∷ rows) i m j h = ground (
  arith,
  beats_other env fetched rows (i + 1)
      (put m (ping_row env (fetched i) row).railway_service_id (ping_row env (fetched i) row)) j,
  get-put m (ping_row env (fetched i) row).railway_service_id j (ping_row env (fetched i) row),
  ping_row-id env (fetched i) row,
)

beats_self :
    (env : Env) (fetched : ℕ → Fetched) (row : RailwayVisibilityRow)
    (rows : List RailwayVisibilityRow) (i : ℕ) (m : Store HeartbeatPingResult)
    → has (service_ids rows) row.railway_service_id ≡ false
    → get
        (beats_by_id m (ping_railway_service_heartbeats env fetched i (row ∷ rows)))
        row.railway_service_id
      ≡ some (ping_row env (fetched i) row)
unfolding beats_by_id ping_railway_service_heartbeats
beats_self env fetched row rows i m fresh =
    let hb = ping_row env (fetched i) row in
    beats_other env fetched rows (i + 1) (put m hb.railway_service_id hb) row.railway_service_id
      fresh
    ∙ ap (get (put m hb.railway_service_id hb)) (sym (ping_row-id env (fetched i) row))
    ∙ get-put_self m hb.railway_service_id hb

has_ne : (xs : List String) (a j : String) → has xs a ≡ false → has xs j ≡ true → (a == j) ≡ false
has_ne xs a j fresh known = ground (arith, eq_iff a j)

-- The status depends on what the state holds of the service alone.
status-view :
    (env : Env) (hb : Option HeartbeatPingResult) (base : RailwayOnlineStatus) (sid dep : String)
    (s s' : HeartbeatExitLifecycleState)
    → get s.last_deployment_id sid ≡ get s'.last_deployment_id sid
    → or_else (get s.consecutive_fails sid) 0 ≡ or_else (get s'.consecutive_fails sid) 0
    → (effective_railway_online_status_after_probe env s sid dep base hb false).1
      ≡ (effective_railway_online_status_after_probe env s' sid dep base hb false).1
unfolding effective_railway_online_status_after_probe probe_failed sync_heartbeat_exit_deployment_id
status-view env hb base sid dep s s' same_dep same_fails =
    ground
      (arith, get-delete_self s.consecutive_fails sid, get-delete_self s'.consecutive_fails sid)

show_row-view :
    (env : Env) (hb : Option HeartbeatPingResult) (row : RailwayVisibilityRow)
    (s s' : HeartbeatExitLifecycleState)
    → view s row.railway_service_id ≡ view s' row.railway_service_id
    → (show_row env hb row s).1 ≡ (show_row env hb row s').1
unfolding show_row view
show_row-view env hb row s s' same =
    ap
      (λ (status : RailwayOnlineStatus). record {
        row = record row { railway_online_status = status };
        heartbeat = hb;
      })
      (status-view env hb _ _ _ s s' (ap (λ (v : ServiceView). v.deployment) same)
        (ap (λ (v : ServiceView). v.fails) same))

-- Showing a row leaves the other services as they were.
show_row-Agrees :
    (env : Env) (hb : Option HeartbeatPingResult) (row : RailwayVisibilityRow)
    (rows : List RailwayVisibilityRow) (s s' : HeartbeatExitLifecycleState)
    → has (service_ids rows) row.railway_service_id ≡ false
    → Agrees s s' rows
    → Agrees (show_row env hb row s).0 s' rows
unfolding show_row Agrees
show_row-Agrees env hb row rows s s' fresh same j known =
    probe-view_ne env false s _ _ j _ hb (has_ne (service_ids rows) _ j fresh known) ∙ same j known

show_rows-apart :
    (env : Env) (fetched : ℕ → Fetched) (rows : List RailwayVisibilityRow) (i : ℕ)
    (m : Store HeartbeatPingResult) (s s' : HeartbeatExitLifecycleState)
    → AllDistinct rows
    → Agrees s s' rows
    → (show_rows env (beats_by_id m (ping_railway_service_heartbeats env fetched i rows)) rows s).1
      ≡ shown_apart env s' fetched i rows
unfolding show_rows shown_apart shown_alone AllDistinct Agrees beats_by_id
    ping_railway_service_heartbeats service_ids has
show_rows-apart env fetched [] i m s s' distinct same = refl
show_rows-apart env fetched (row ∷ rows) i m s s' (fresh, distinct) same =
    ap₂ ◌∷◌
      (ap (λ hb. (show_row env hb row s).1) (beats_self env fetched row rows i m fresh)
        ∙ show_row-view env _ row s s'
            (same row.railway_service_id (ground (arith, eq_refl row.railway_service_id))))
      (show_rows-apart env fetched rows (i + 1) _ _ s' distinct
        (show_row-Agrees env _ row rows s s' fresh (λ j known. same j (ground arith))))

-- When Railway is configured and its table has no error and one row for each service, a request with
-- heartbeats shows of each row what it would show of that row alone.
pub table-apart :
    (env : Env) (w : TableWorld) (s : HeartbeatExitLifecycleState)
    → railway_visibility_configured env ≡ true
    → truthy (fetch_railway_visibility_rows env w.project_reply w.batch_reply).error ≡ none
    → AllDistinct (fetch_railway_visibility_rows env w.project_reply w.batch_reply).containers
    → let r = fetch_railway_visibility_rows env w.project_reply w.batch_reply in
      (get_visibility env true w s).1
      ≡ railway_table r.project r.project_id (shown_apart env s w.fetched 0 r.containers) r.error
unfolding get_visibility railway_rows railway_visibility_configured Agrees
table-apart env w s configured fine distinct =
    let rows = (fetch_railway_visibility_rows env w.project_reply w.batch_reply).containers in
    ground (arith, show_rows-apart env w.fetched rows 0 [] s s distinct (λ j known. refl))

state_heartbeat-ping_row :
    (env : Env) (row : RailwayVisibilityRow) (fetched : Fetched)
    → state_heartbeat env row fetched ≡ ping_row env fetched row
unfolding state_heartbeat ping_row
state_heartbeat-ping_row env row fetched = ground arith

-- When Railway is configured and its table has no error, a request for the status of a service that
-- the table names answers with the heartbeat and the status that the table shows of that row alone,
-- from the same state and the same answer to the probe.
pub state_as_in_table :
    (env : Env) (w : StateWorld) (s : HeartbeatExitLifecycleState) (service : String)
    (id : Option String) (row : RailwayVisibilityRow)
    → railway_visibility_configured env ≡ true
    → is_empty (trim service) ≡ false
    → truthy (fetch_railway_visibility_rows env w.project_reply w.batch_reply).error ≡ none
    → find
        (is_named (trim service))
        (fetch_railway_visibility_rows env w.project_reply w.batch_reply).containers
      ≡ some row
    → let shown = shown_alone env s w.fetched row in
      let heartbeat = state_heartbeat env row w.fetched in
      ((get_state env (some service) id w s).1
        ≡ found_railway (railway_state row (shown.row).railway_online_status heartbeat))
      × (shown.heartbeat ≡ some heartbeat)
unfolding get_state state_of_rows found_row shown_alone show_row railway_visibility_configured
state_as_in_table env w s service id row configured named fine found = (
  ground (arith, state_heartbeat-ping_row env row w.fetched),
  ap some (sym (state_heartbeat-ping_row env row w.fetched)),
)
