-- ===== src/Tick/Accounting.antt =====
-- railway-watchdog-tick.ts: the heartbeat counts of the payload, and the tick whose query failed.
use pe_hackathon.Base.{
  ℕ, ◌+◌, ◌≡◌, refl, Bool, true, false, Option, none, some, String, List, [], ◌∷◌, arith, length,
  Bool-cases, Option-cases, inl, inr, if◌then◌else◌,
}
use pe_hackathon.Base.Store.{get}
use pe_hackathon.Env.{Env}
use pe_hackathon.Heartbeat.{build_heartbeat_probe_url}
use pe_hackathon.Visibility.Rows.{RailwayVisibilityRow}
use pe_hackathon.Tick.State.{
  Loop, Answers, HeartbeatRecoverState, HeartbeatSummary, WatchdogPrevEntry,
  WatchdogPersistentState, push_event, log_in, note_activity,
}
use pe_hackathon.Tick.Settings.{railway_heartbeat_enabled}
use pe_hackathon.Tick.Redeem.{redeem, request_deploy}
use pe_hackathon.Tick.Misses.{consider_recover}
use pe_hackathon.Tick.Probe.{heartbeat_row, probe_row, skip_row, conclude, beat, missed}
use pe_hackathon.Tick.AutoRecover.{forget_cooldown, auto_recover_row}
use pe_hackathon.Tick.Transitions.{transitions, report_stopped}
use pe_hackathon.Tick.Run.{
  TickInputs, visit, visit_all, remember, note_query, finish, tick_rows, start,
}

-- The four counters of the loop.
abbrev counts : Loop → ℕ × ℕ × ℕ × ℕ
counts l = (l.hb_probes, l.hb_ok, l.hb_fail, l.hb_skipped)

module _ (env : Env) (now : String) (row : RailwayVisibilityRow) (a : Answers) where
  redeem-counts : (l : Loop) → counts (redeem env now row a l) ≡ counts l
  unfolding redeem request_deploy note_activity push_event log_in
  redeem-counts l = ground arith

  consider_recover-counts :
      (st : HeartbeatRecoverState) (l : Loop)
      → counts (consider_recover env now row a st l).1 ≡ counts l
  unfolding consider_recover request_deploy note_activity push_event log_in
  consider_recover-counts st l = ground arith

  auto_recover_row-counts : (l : Loop) → counts (auto_recover_row env now row a l) ≡ counts l
  unfolding auto_recover_row request_deploy note_activity push_event log_in
  auto_recover_row-counts l = ground arith

  forget_cooldown-counts : (l : Loop) → counts (forget_cooldown row l) ≡ counts l
  unfolding forget_cooldown
  forget_cooldown-counts l = ground arith

  transitions-counts :
      (before : Option WatchdogPrevEntry) (l : Loop)
      → counts (transitions now row a before l) ≡ counts l
  unfolding transitions report_stopped push_event log_in
  transitions-counts none l = refl
  transitions-counts (some before) l = ground arith

  -- Every probe succeeds or fails, and every row is probed or skipped.
  record Adds (l l' : Loop) : Type 0 where
    settled : l'.hb_probes + (l.hb_ok + l.hb_fail) ≡ l.hb_probes + (l'.hb_ok + l'.hb_fail)
    handled : l'.hb_probes + l'.hb_skipped ≡ l.hb_probes + l.hb_skipped + 1

  beat-counts :
      (ok : Bool) (st : HeartbeatRecoverState) (l : Loop)
      → ((beat env now row a ok st l).1.hb_ok + (beat env now row a ok st l).1.hb_fail
          ≡ l.hb_ok + l.hb_fail + 1)
        × ((beat env now row a ok st l).1.hb_probes ≡ l.hb_probes)
        × ((beat env now row a ok st l).1.hb_skipped ≡ l.hb_skipped)
  unfolding beat missed
  beat-counts true st l = ground arith
  beat-counts false st l = ground (
    arith,
    consider_recover-counts (record st { consecutive_misses = st.consecutive_misses + 1 })
        (record l { hb_fail = l.hb_fail + 1 }),
  )

  probe_row-Adds :
      (url : String) (st : HeartbeatRecoverState) (l : Loop)
      → Adds l (probe_row env now row a url st l)
  unfolding probe_row conclude note_activity
  probe_row-Adds url st l = grind (arith, beat-counts)

  heartbeat_row-Adds :
      (l : Loop) → railway_heartbeat_enabled env ≡ true → Adds l (heartbeat_row env now row a l)
  unfolding heartbeat_row skip_row note_activity
  heartbeat_row-Adds l on =
      rw on
        (elim (Option-cases (build_heartbeat_probe_url env row.railway_public_url row.service)) [
          | inl unprobed ↦ rw (unprobed, heartbeat_row) (ground arith)
          | inr (url, probed) ↦
              rw (probed, heartbeat_row)
                (let h = probe_row-Adds url _ _ in
                  record { settled = h.settled; handled = h.handled })
        ])

  visit-Adds : (l : Loop) → railway_heartbeat_enabled env ≡ true → Adds l (visit env now row a l)
  unfolding visit remember
  visit-Adds l on =
      let l₁ = redeem env now row a l in
      let l₂ = heartbeat_row env now row a l₁ in
      let l₃ = forget_cooldown row l₂ in
      let l₄ = auto_recover_row env now row a l₃ in
      ground (
        arith,
        redeem-counts l,
        heartbeat_row-Adds l₁ on,
        forget_cooldown-counts l₂,
        auto_recover_row-counts l₃,
        transitions-counts (get (l.state).prev row.railway_service_id) l₄,
      )

visit_all-counts :
    (env : Env) (now : String) (answers : ℕ → Answers) (i : ℕ) (rows : List RailwayVisibilityRow)
    (l : Loop)
    → railway_heartbeat_enabled env ≡ true
    → l.hb_probes ≡ l.hb_ok + l.hb_fail
    → ((visit_all env now answers i rows l).hb_probes
        ≡ (visit_all env now answers i rows l).hb_ok + (visit_all env now answers i rows l).hb_fail)
      × ((visit_all env now answers i rows l).hb_probes
            + (visit_all env now answers i rows l).hb_skipped
          ≡ l.hb_probes + l.hb_skipped + length rows)
unfolding visit_all
visit_all-counts env now answers i [] l on h = (h, omega arith)
visit_all-counts env now answers i (row ∷ rows) l on h =
    let v = visit-Adds env now row (answers i) l on in
    let (e, f) =
      visit_all-counts env now answers (i + 1) rows (visit env now row (answers i) l) on
        (omega (arith, v.settled)) in
    (e, omega (arith, f, v.handled))

-- The heartbeat counts of a tick over rows: with heartbeats enabled, each probe is counted as one that
-- succeeded or one that failed, and each row as probed or skipped; otherwise all counts are 0.
pub heartbeat_summary :
    (env : Env) (w : TickInputs) (rows : List RailwayVisibilityRow) (s : WatchdogPersistentState)
    → (h : HeartbeatSummary) × ((tick_rows env w rows none s).payload.heartbeat ≡ some h)
      × (h.enabled ≡ railway_heartbeat_enabled env)
      × (h.probes ≡ h.ok + h.failed)
      × (h.probes + h.skipped ≡ (if railway_heartbeat_enabled env then length rows else 0))
unfolding tick_rows finish
heartbeat_summary env w rows s = elim (Bool-cases (railway_heartbeat_enabled env)) [
  | inl on ↦
      let (e, f) =
        visit_all-counts env w.now w.answers 0 rows (start (note_query w none s)) on refl in
      (_, refl, ground arith, ground arith, ground arith)
  | inr off ↦ (_, refl, ground arith, ground arith, ground arith)
]
