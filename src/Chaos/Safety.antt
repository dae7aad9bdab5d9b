-- ===== src/Chaos/Safety.antt =====
-- chaos/kill/route.ts and chaos/restart/route.ts: an action reaches a service only past every check.
use pe_hackathon.Base.{
  ◌≡◌, ◌↔◌, ◌⊎◌, inl, inr, true, false, Option, some, String, [], ◌∷◌, map, arith, or_else,
  returned, eq_iff, Bool-cases,
}
use pe_hackathon.Text.{is_empty, trim, to_lower, truthy}
use pe_hackathon.Env.{Env}
use pe_hackathon.Policy.{chaos_kill_enabled, is_service_kill_allowed}
use pe_hackathon.Visibility.Rows.{
  RailwayVisibilityRow, VisibilityRows, fetch_railway_visibility_rows,
  get_railway_chaos_row_for_service,
}
use pe_hackathon.Visibility.Halt.{deployment_restart, railway_chaos_halt_deployment}
use pe_hackathon.Chaos.Guards.{
  Checked-cases, ChaosBody, ContainerInfo, accept, railway_mutation, container_kill,
  container_restart, checked_body, service_id_of, container_id_of, checked_credentials, checked_row,
  checked_container, compose_project,
}
use pe_hackathon.Chaos.Kill
use pe_hackathon.Chaos.Restart
use pe_hackathon.Chaos.Kill.{KillWorld, kill_docker, kill_railway, post_kill}
use pe_hackathon.Chaos.Restart.{RestartWorld, restart_docker, restart_railway, post_restart}

-- The confirmed name of a request.
abbrev pub confirmed : ChaosBody → String
confirmed b = to_lower (trim (or_else b.confirm_service ""))

-- What must hold for a container to be acted on.
abbrev pub MayActOnContainer : Env → Option String → ChaosBody → ContainerInfo → Type 0
MayActOnContainer env node_env b info =
    (chaos_kill_enabled env node_env ≡ true)
    × (is_empty (confirmed b) ≡ false)
    × (is_empty (container_id_of b) ≡ false)
    × (is_empty (or_else info.project_label "") ≡ false)
    × (or_else info.project_label "" ≡ compose_project env)
    × (to_lower (or_else info.service_label "") ≡ confirmed b)
    × (is_service_kill_allowed env (or_else info.service_label "") ≡ true)

-- A kill request that names no Railway service, for a container that Docker describes by `info`, sends
-- the kill to that container, and does nothing else, if the feature is on, the name is confirmed, the
-- container has an id, belongs to the configured project, has the confirmed name and is allowed;
-- otherwise it does nothing.
pub post_kill-container :
    (env : Env) (node_env : Option String) (w : KillWorld) (b : ChaosBody) (info : ContainerInfo)
    → is_empty (service_id_of b) ≡ true
    → w.inspect ≡ returned info
    → (((post_kill env node_env w (some b)).1 ≡ container_kill (container_id_of b) ∷ [])
        ↔ MayActOnContainer env node_env b info)
      × (((post_kill env node_env w (some b)).1 ≡ [])
          ⊎ ((post_kill env node_env w (some b)).1 ≡ container_kill (container_id_of b) ∷ []))
unfolding post_kill kill_docker checked_body checked_container
post_kill-container env node_env w b info docker known = ground (
  arith,
  eq_iff (or_else info.project_label "") (compose_project env),
  eq_iff (to_lower (or_else info.service_label "")) (confirmed b),
)

-- A restart request that names no Railway service, for a container that Docker describes by `info`,
-- restarts that container with ten seconds of grace, and does nothing else, if the feature is on, the
-- name is confirmed, the container has an id, belongs to the configured project, has the confirmed name
-- and is allowed; otherwise it does nothing.
pub post_restart-container :
    (env : Env) (node_env : Option String) (w : RestartWorld) (b : ChaosBody) (info : ContainerInfo)
    → is_empty (service_id_of b) ≡ true
    → w.inspect ≡ returned info
    → (((post_restart env node_env w (some b)).1 ≡ container_restart (container_id_of b) 10 ∷ [])
        ↔ MayActOnContainer env node_env b info)
      × (((post_restart env node_env w (some b)).1 ≡ [])
          ⊎ ((post_restart env node_env w (some b)).1
              ≡ container_restart (container_id_of b) 10 ∷ []))
unfolding post_restart restart_docker checked_body checked_container
post_restart-container env node_env w b info docker known = ground (
  arith,
  eq_iff (or_else info.project_label "") (compose_project env),
  eq_iff (to_lower (or_else info.service_label "")) (confirmed b),
)

-- A row of the table that an action on Railway may touch, with its deployment.
pub record IsTarget (env : Env) (node_env : Option String) (b : ChaosBody) (table : VisibilityRows)
    (row : RailwayVisibilityRow) (dep : String) : Type 0 where
  pub enabled : chaos_kill_enabled env node_env ≡ true
  pub listed : get_railway_chaos_row_for_service table (service_id_of b) ≡ some row
  pub named : to_lower (trim row.service) ≡ confirmed b
  pub allowed : is_service_kill_allowed env row.service ≡ true
  pub deployed : truthy row.railway_deployment_id ≡ some dep

checked_row-IsTarget :
    (env : Env) (node_env : Option String) (tail undeployed : String) (b : ChaosBody)
    (table : VisibilityRows) (row : RailwayVisibilityRow) (dep : String)
    → chaos_kill_enabled env node_env ≡ true
    → checked_row env tail undeployed table (service_id_of b) (confirmed b) ≡ accept (row, dep)
    → IsTarget env node_env b table row dep
unfolding checked_row
checked_row-IsTarget env node_env tail undeployed b table row dep on e =
    ground (arith, eq_iff (to_lower (trim row.service)) (confirmed b))

-- A kill request that names a Railway service asks Railway for nothing, or for what halting the
-- deployment of a target asks for: a row of the table with that id, whose name is confirmed and
-- allowed, with the feature on.
pub post_kill-railway :
    (env : Env) (node_env : Option String) (w : KillWorld) (b : ChaosBody)
    → is_empty (service_id_of b) ≡ false
    → let table = fetch_railway_visibility_rows env w.project_reply w.batch_reply in
      ((post_kill env node_env w (some b)).1 ≡ [])
      ⊎ ((row : RailwayVisibilityRow) × (dep : String) × IsTarget env node_env b table row dep
          × ((post_kill env node_env w (some b)).1
              ≡ map railway_mutation
                  (railway_chaos_halt_deployment env dep w.stop_reply w.remove_reply).1))
unfolding post_kill kill_railway checked_body
post_kill-railway env node_env w b named =
    let table = fetch_railway_visibility_rows env w.project_reply w.batch_reply in
    elim (Bool-cases (chaos_kill_enabled env node_env)) [
      | inr off ↦ inl (ground arith)
      | inl on ↦
          elim (Checked-cases (
            checked_row env Kill.tail_text Kill.undeployed_text table (service_id_of b)
              (confirmed b))) [
                | inl (status, error, e) ↦ inl (ground arith)
                | inr ((row, dep), e) ↦ elim (Checked-cases (checked_credentials env)) [
                  | inl (status, error, c) ↦ inl (ground arith)
                  | inr (ok, c) ↦ elim (Bool-cases (is_empty (confirmed b))) [
                    | inl unconfirmed ↦ inl (ground arith)
                    | inr given ↦ inr (
                      row,
                      dep,
                      checked_row-IsTarget env node_env _ _ b table row dep on e,
                      ground arith,
                    )
                  ]
                ]
              ]
    ]

-- A restart request that names a Railway service asks for nothing, or for the restart of a target's
-- deployment.
pub post_restart-railway :
    (env : Env) (node_env : Option String) (w : RestartWorld) (b : ChaosBody)
    → is_empty (service_id_of b) ≡ false
    → let table = fetch_railway_visibility_rows env w.project_reply w.batch_reply in
      ((post_restart env node_env w (some b)).1 ≡ [])
      ⊎ ((row : RailwayVisibilityRow) × (dep : String) × IsTarget env node_env b table row dep
          × ((post_restart env node_env w (some b)).1
              ≡ railway_mutation (deployment_restart dep) ∷ []))
unfolding post_restart restart_railway checked_body
post_restart-railway env node_env w b named =
    let table = fetch_railway_visibility_rows env w.project_reply w.batch_reply in
    elim (Bool-cases (chaos_kill_enabled env node_env)) [
      | inr off ↦ inl (ground arith)
      | inl on ↦
          elim (Checked-cases (
            checked_row env Restart.tail_text Restart.undeployed_text table (service_id_of b)
              (confirmed b))) [
                | inl (status, error, e) ↦ inl (ground arith)
                | inr ((row, dep), e) ↦ elim (Checked-cases (checked_credentials env)) [
                  | inl (status, error, c) ↦ inl (ground arith)
                  | inr (ok, c) ↦ elim (Bool-cases (is_empty (confirmed b))) [
                    | inl unconfirmed ↦ inl (ground arith)
                    | inr given ↦ inr (
                      row,
                      dep,
                      checked_row-IsTarget env node_env _ _ b table row dep on e,
                      ground arith,
                    )
                  ]
                ]
              ]
    ]
