-- ===== src/Tick/Events.antt =====
-- railway-watchdog-tick.ts: which events a row's change produces.
use mathlib.Core.List.{append_assoc, append-nil}
use pe_hackathon.Base.{
  ℕ, ◌+◌, ◌≤◌, ◌≡◌, refl, sym, ap, Bool, Option, none, some, String, List, [], ◌∷◌, ◌++◌, map,
  arith, Bool-cases, inl, inr, if◌then◌else◌,
}
use pe_hackathon.Visibility.Rows.{RailwayVisibilityRow}
use pe_hackathon.Tick.State.{
  Loop, Answers, WatchdogEvent, WatchdogEventKind, recover, railway_deploy, railway_rebooting,
  railway_stopped, WatchdogPrevEntry, push_event, log_in,
}
use pe_hackathon.Tick.Transitions.{
  LifecycleChange, rebooting, rolling_out, unchanged, stopped_now, lifecycle_change, emitted,
  recovering, new_deployment, report_stopped, report_lifecycle, report_recovery, transitions,
}

abbrev pub kinds : List WatchdogEvent → List WatchdogEventKind
kinds = map (λ ev. ev.kind)

abbrev lifecycle_kinds : LifecycleChange → List WatchdogEventKind
lifecycle_kinds rebooting = railway_rebooting ∷ []
lifecycle_kinds rolling_out = railway_deploy ∷ []
lifecycle_kinds unchanged = []

-- The kinds of the events of a change, in order.
change_kinds : WatchdogPrevEntry → RailwayVisibilityRow → List WatchdogEventKind
change_kinds before row =
    (if stopped_now before row then railway_stopped ∷ [] else [])
    ++ (lifecycle_kinds (lifecycle_change before row)
        ++ (if recovering before row
            then recover ∷ []
            else if new_deployment (emitted (lifecycle_change before row)) before row
            then railway_deploy ∷ []
            else []))

kinds_snoc :
    (evs : List WatchdogEvent) (ev : WatchdogEvent)
    → kinds (evs ++ ev ∷ []) ≡ kinds evs ++ ev.kind ∷ []
kinds_snoc [] ev = refl
kinds_snoc (e ∷ evs) ev = ap (◌∷◌ e.kind) (kinds_snoc evs ev)

module _ (now : String) (row : RailwayVisibilityRow) where
  report_stopped-kinds :
      (a : Answers) (before : WatchdogPrevEntry) (l : Loop)
      → kinds (report_stopped now row a before l).events
        ≡ kinds l.events ++ (if stopped_now before row then railway_stopped ∷ [] else [])
  unfolding report_stopped push_event log_in
  report_stopped-kinds a before l = elim (Bool-cases (stopped_now before row)) [
    | inl stopped ↦ rw stopped (kinds_snoc l.events _)
    | inr running ↦ rw running (sym (append-nil _))
  ]

  report_lifecycle-kinds :
      (before : WatchdogPrevEntry) (change : LifecycleChange) (l : Loop)
      → kinds (report_lifecycle now row before change l).events
        ≡ kinds l.events ++ lifecycle_kinds change
  unfolding report_lifecycle push_event log_in
  report_lifecycle-kinds before rebooting l = kinds_snoc l.events _
  report_lifecycle-kinds before rolling_out l = kinds_snoc l.events _
  report_lifecycle-kinds before unchanged l = sym (append-nil _)

  report_recovery-kinds :
      (before : WatchdogPrevEntry) (told : Bool) (l : Loop)
      → kinds (report_recovery now row before told l).events
        ≡ kinds l.events
          ++ (if recovering before row
              then recover ∷ []
              else if new_deployment told before row
              then railway_deploy ∷ []
              else [])
  unfolding report_recovery push_event
  report_recovery-kinds before told l = elim (Bool-cases (recovering before row)) [
    | inl back ↦ rw back (kinds_snoc l.events _)
    | inr other ↦ rw other (elim (Bool-cases (new_deployment told before row)) [
      | inl fresh ↦ rw fresh (kinds_snoc l.events _)
      | inr old ↦ rw old (sym (append-nil _))
    ])
  ]

  -- The kinds of the events that the transitions add.
  transitions-kinds :
      (a : Answers) (before : WatchdogPrevEntry) (l : Loop)
      → (kinds (transitions now row a (some before) l).events
          ≡ kinds l.events ++ change_kinds before row)
        × (transitions now row a none l ≡ l)
  unfolding transitions change_kinds
  transitions-kinds a before l = (
    simp (report_recovery-kinds, report_lifecycle-kinds, report_stopped-kinds, append_assoc),
    refl,
  )

abbrev is_deploy_kind : WatchdogEventKind → ℕ
is_deploy_kind railway_deploy = 1
is_deploy_kind _ = 0

unfoldable pub deploy_count : List WatchdogEventKind → ℕ
deploy_count [] = 0
deploy_count (k ∷ ks) = is_deploy_kind k + deploy_count ks

deploy_count-change_kinds :
    (before : WatchdogPrevEntry) (row : RailwayVisibilityRow)
    → deploy_count (change_kinds before row) ≤ 1
unfolding change_kinds deploy_count new_deployment
deploy_count-change_kinds before row = ground arith

deploy_count-append :
    (js ks : List WatchdogEventKind) → deploy_count (js ++ ks) ≡ deploy_count js + deploy_count ks
unfolding deploy_count
deploy_count-append [] ks = omega arith
deploy_count-append (j ∷ js) ks = omega (arith, deploy_count-append js ks)

-- The transitions of a row add one event of a new deployment at most, although two of their parts can
-- report one.
pub deploy_count-transitions :
    (now : String) (row : RailwayVisibilityRow) (a : Answers) (before : Option WatchdogPrevEntry)
    (l : Loop)
    → deploy_count (kinds (transitions now row a before l).events)
      ≤ deploy_count (kinds l.events) + 1
unfolding transitions
deploy_count-transitions now row a none l = omega arith
deploy_count-transitions now row a (some before) l = rw (transitions-kinds now row a before l).0 (
    omega (
      arith,
      deploy_count-append (kinds l.events) (change_kinds before row),
      deploy_count-change_kinds before row,
    ))
