-- ===== src/Tick/Quiet.antt =====
-- railway-watchdog-tick.ts: a row that stays as it was is not reported.
use pe_hackathon.Base.{
  ◌≡◌, refl, Bool, true, false, ◌||◌, String, List, [], ◌∷◌, ◌==◌, arith, eq_iff, eq_refl, has,
  subst, Bool-cases, inl, inr,
}
use pe_hackathon.Base.Store.{get, get-put_self}
use pe_hackathon.Text.{to_upper, to_lower, includes}
use pe_hackathon.Env.{Env}
use pe_hackathon.Visibility.Status.{online, completed, deploying, failed, skipped, unknown, exited}
use pe_hackathon.Visibility.Rows.{RailwayVisibilityRow}
use pe_hackathon.Tick.State.{WatchdogPrevEntry, Loop, Answers}
use pe_hackathon.Tick.Status.{
  is_bad, is_healthy, is_deploying, was_actively_deployed, is_now_stopped_or_no_deployment,
  deployment_id_of, current_status,
}
use pe_hackathon.Tick.Transitions.{
  unchanged, lifecycle_change, stopped_now, recovering, new_deployment, transitions, report_stopped,
}
use pe_hackathon.Tick.Run.{visit, remember}

-- What is remembered of a row.
abbrev entry_of : RailwayVisibilityRow → WatchdogPrevEntry
entry_of row = record {
  deployment_status = current_status row;
  deployment_id = deployment_id_of row;
  online_status = row.railway_online_status;
}

-- The two tests for a status that deploys or is healthy, on the status in capitals.
abbrev is_active : String → Bool
is_active u =
    (u == "BUILDING" || u == "DEPLOYING" || u == "INITIALIZING" || u == "QUEUED" || u == "WAITING")
    || (u == "SUCCESS" || u == "SLEEPING")

AllInactive : List String → Type 0
AllInactive [] = Unit {0}
AllInactive (x ∷ xs) = (is_active x ≡ false) × AllInactive xs

has-inactive :
    (xs : List String) (u : String) → AllInactive xs → has xs u ≡ true → is_active u ≡ false
unfolding has AllInactive
has-inactive [] u inactive found = absurd (ground arith)
has-inactive (x ∷ xs) u (inactive, rest) found = elim (Bool-cases (x == u)) [
  | inl same ↦ subst (λ v. is_active v ≡ false) ((eq_iff x u).0 same) inactive
  | inr other ↦ has-inactive xs u rest (subst (λ b. (b || has xs u) ≡ true) other found)
]

bad-inactive : (s : String) → is_bad s ≡ true → is_active (to_upper s) ≡ false
unfolding is_bad
bad-inactive s bad = elim (Bool-cases (to_upper s == "CRASHED")) [
  | inl crashed ↦ rw ((eq_iff (to_upper s) "CRASHED").0 crashed) refl
  | inr other ↦
      rw
        ((eq_iff (to_upper s) "FAILED").0
          (subst (λ b. (b || to_upper s == "FAILED") ≡ true) other bad))
        refl
]

stopped-inactive :
    (s : String)
    → has ("STOPPED" ∷ "REMOVED" ∷ "CANCELED" ∷ "CANCELLED" ∷ []) (to_upper s) ≡ true
    → is_active (to_upper s) ≡ false
unfolding AllInactive
stopped-inactive s stopped = has-inactive _ (to_upper s) (refl, (refl, (refl, (refl, tt)))) stopped

module _ (row : RailwayVisibilityRow) where
  not_stopped :
      includes (to_lower row.status) "no active deployment" ≡ false
      → stopped_now (entry_of row) row ≡ false
  unfolding stopped_now was_actively_deployed is_now_stopped_or_no_deployment is_healthy
      is_deploying
  not_stopped listed =
      elim (Bool-cases (
        has ("STOPPED" ∷ "REMOVED" ∷ "CANCELED" ∷ "CANCELLED" ∷ [])
          (to_upper (current_status row)))) [
            | inl stopped ↦
                ground (arith, listed, stopped, stopped-inactive (current_status row) stopped)
            | inr running ↦ ground (arith, listed, running)
          ]

  not_recovering : recovering (entry_of row) row ≡ false
  unfolding recovering is_healthy is_deploying
  not_recovering = elim (Bool-cases (is_bad (to_upper (current_status row)))) [
    | inl bad ↦ ground (arith, bad, bad-inactive (to_upper (current_status row)) bad)
    | inr good ↦ ground (arith, good)
  ]

  not_new : (told : Bool) → new_deployment told (entry_of row) row ≡ false
  unfolding new_deployment
  not_new told = ground (arith, eq_refl (deployment_id_of row))

  no_change : lifecycle_change (entry_of row) row ≡ unchanged
  unfolding lifecycle_change
  no_change =
      elim row.railway_online_status
        as (λ o.
          lifecycle_change (record (entry_of row) { online_status = o })
            (record row { railway_online_status = o })
          ≡ unchanged) [
            | online ↦ refl
            | completed ↦ refl
            | deploying ↦ refl
            | failed ↦ refl
            | skipped ↦ refl
            | unknown ↦ refl
            | exited ↦ refl
          ]

-- A row that a later round sees as this round saw it adds no event there and no line to the log: with
-- what this round remembers of it, its transitions do nothing. This is so for every deployment status,
-- a crashed one or one that is deploying included, if the row's status text does not speak of
-- `no active deployment`.
pub transitions-visit :
    (env : Env) (now later : String) (row : RailwayVisibilityRow) (a b : Answers) (l l' : Loop)
    → includes (to_lower row.status) "no active deployment" ≡ false
    → transitions later row b (get ((visit env now row a l).state).prev row.railway_service_id) l'
      ≡ l'
unfolding visit remember transitions report_stopped
transitions-visit env now later row a b l l' listed =
    rw (get-put_self _ row.railway_service_id (entry_of row))
      (rw (no_change row, not_stopped row listed, not_recovering row, not_new row false) refl)
