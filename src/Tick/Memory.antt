-- ===== src/Tick/Memory.antt =====
-- railway-watchdog-tick.ts: what the tick remembers of the rows, and that it forgets the rest.
use pe_hackathon.Base.{
  ℕ, ◌+◌, ◌≡◌, refl, Bool, true, false, Option, none, some, String, List, [], ◌∷◌, ◌==◌, arith,
  if◌then◌else◌, is_some, has,
}
use pe_hackathon.Base.Store.{get, get-put, get-retain}
use pe_hackathon.Text.{template}
use pe_hackathon.Env.{Env}
use pe_hackathon.Visibility.Rows.{RailwayVisibilityRow}
use pe_hackathon.Tick.State.{
  Loop, Answers, WatchdogEvent, WatchdogPersistentState, push_log_line, WatchdogPrevEntry,
  HeartbeatRecoverState, push_event, log_in, note_activity,
}
use pe_hackathon.Tick.Status.{current_status, deployment_id_of}
use pe_hackathon.Tick.Redeem.{redeem, request_deploy}
use pe_hackathon.Tick.Misses.{consider_recover}
use pe_hackathon.Tick.Probe.{heartbeat_row, probe_row, skip_row, conclude, beat, missed}
use pe_hackathon.Tick.AutoRecover.{forget_cooldown, auto_recover_row}
use pe_hackathon.Tick.Transitions.{transitions, report_stopped}
use pe_hackathon.Tick.Run.{
  TickInputs, visit, visit_all, remember, service_ids, log_events, log_tick, forget_gone, finish,
  tick_rows,
}

-- What the tick remembers of a row.
abbrev pub entry_of : RailwayVisibilityRow → WatchdogPrevEntry
entry_of row = record {
  deployment_status = current_status row;
  deployment_id = deployment_id_of row;
  online_status = row.railway_online_status;
}

module _ (env : Env) (now : String) (row : RailwayVisibilityRow) (a : Answers) where
  redeem-prev : (l : Loop) → ((redeem env now row a l).state).prev ≡ (l.state).prev
  unfolding redeem request_deploy note_activity push_event log_in
  redeem-prev l = ground arith

  consider_recover-prev :
      (st : HeartbeatRecoverState) (l : Loop)
      → (((consider_recover env now row a st l).1).state).prev ≡ (l.state).prev
  unfolding consider_recover request_deploy note_activity push_event log_in
  consider_recover-prev st l = ground arith

  missed-prev :
      (st : HeartbeatRecoverState) (l : Loop)
      → (((missed env now row a st l).1).state).prev ≡ (l.state).prev
  unfolding missed
  missed-prev st l = ground (
    arith,
    consider_recover-prev (record st { consecutive_misses = st.consecutive_misses + 1 })
        (record l { hb_fail = l.hb_fail + 1 }),
  )

  beat-prev :
      (ok : Bool) (st : HeartbeatRecoverState) (l : Loop)
      → (((beat env now row a ok st l).1).state).prev ≡ (l.state).prev
  unfolding beat
  beat-prev true st l = refl
  beat-prev false st l = missed-prev st l

  probe_row-prev :
      (url : String) (st : HeartbeatRecoverState) (l : Loop)
      → ((probe_row env now row a url st l).state).prev ≡ (l.state).prev
  unfolding probe_row conclude note_activity
  probe_row-prev url st l = beat-prev _ st _

  heartbeat_row-prev : (l : Loop) → ((heartbeat_row env now row a l).state).prev ≡ (l.state).prev
  unfolding heartbeat_row skip_row note_activity
  heartbeat_row-prev l = grind (arith, probe_row-prev)

  auto_recover_row-prev :
      (l : Loop) → ((auto_recover_row env now row a l).state).prev ≡ (l.state).prev
  unfolding auto_recover_row request_deploy note_activity push_event log_in
  auto_recover_row-prev l = ground arith

  forget_cooldown-prev : (l : Loop) → ((forget_cooldown row l).state).prev ≡ (l.state).prev
  unfolding forget_cooldown
  forget_cooldown-prev l = ground arith

  transitions-prev :
      (before : Option WatchdogPrevEntry) (l : Loop)
      → ((transitions now row a before l).state).prev ≡ (l.state).prev
  unfolding transitions report_stopped push_event log_in
  transitions-prev none l = refl
  transitions-prev (some before) l = ground arith

  -- A round writes the entry of its own row, and no other.
  pub get-visit :
      (l : Loop) (j : String)
      → get ((visit env now row a l).state).prev j
        ≡ (if row.railway_service_id == j then some (entry_of row) else get (l.state).prev j)
  unfolding visit remember
  get-visit l j = simp (
    get-put, transitions-prev, auto_recover_row-prev, forget_cooldown-prev, heartbeat_row-prev,
    redeem-prev,
  )

-- The entry of the last row that has the id `j`.
pub last_entry : List RailwayVisibilityRow → String → Option WatchdogPrevEntry
last_entry [] j = none
last_entry (row ∷ rows) j = elim (last_entry rows j) [
  | some e ↦ some e
  | none ↦ if row.railway_service_id == j then some (entry_of row) else none
]

abbrev first_some {ℓ} : {A : Type ℓ} → Option A → Option A → Option A
first_some (some a) o = some a
first_some none o = o

get-visit_all :
    (env : Env) (now : String) (answers : ℕ → Answers) (i : ℕ) (rows : List RailwayVisibilityRow)
    (l : Loop) (j : String)
    → get ((visit_all env now answers i rows l).state).prev j
      ≡ first_some (last_entry rows j) (get (l.state).prev j)
unfolding visit_all last_entry
get-visit_all env now answers i [] l j = refl
get-visit_all env now answers i (row ∷ rows) l j = ground (
  arith,
  get-visit_all env now answers (i + 1) rows (visit env now row (answers i) l) j,
  get-visit env now row (answers i) l j,
)

has-service_ids :
    (rows : List RailwayVisibilityRow) (j : String)
    → has (service_ids rows) j ≡ is_some (last_entry rows j)
unfolding has service_ids last_entry
has-service_ids [] j = refl
has-service_ids (row ∷ rows) j = ground (arith, has-service_ids rows j)

log_events-prev :
    (evs : List WatchdogEvent) (s : WatchdogPersistentState) → (log_events evs s).prev ≡ s.prev
unfolding log_events push_log_line
log_events-prev [] s = refl
log_events-prev (ev ∷ evs) s =
    log_events-prev evs (push_log_line s (template ("  " ∷ ev.message ∷ [])))

log_tick-prev :
    (now : String) (rows : List RailwayVisibilityRow) (evs : List WatchdogEvent)
    (s : WatchdogPersistentState)
    → (log_tick now rows evs s).prev ≡ s.prev
unfolding log_tick push_log_line
log_tick-prev now rows evs s = grind (arith, log_events-prev)

-- After a tick over `rows` the watchdog remembers, under each id, the status, the deployment and the
-- online status of the last row with that id, and nothing under an id that no row has.
pub get-tick_rows :
    (env : Env) (w : TickInputs) (rows : List RailwayVisibilityRow) (s : WatchdogPersistentState)
    (j : String)
    → get ((tick_rows env w rows none s).state).prev j ≡ last_entry rows j
unfolding tick_rows finish forget_gone
get-tick_rows env w rows s j =
    rw (log_tick-prev _ _ _ _, get-retain _ _ _, has-service_ids rows j)
      (grind (arith, get-visit_all))
