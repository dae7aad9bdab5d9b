-- ===== src/Chaos/Restart.antt =====
-- dashboard/src/app/api/visibility/docker/chaos/restart/route.ts
use pe_hackathon.Base.{ℕ, Option, String, List, [], ◌∷◌, if◌then◌else◌, Outcome, returned, threw}
use pe_hackathon.Text.{is_empty}
use pe_hackathon.Env.{Env}
use pe_hackathon.Visibility.Graphql.{Reply}
use pe_hackathon.Visibility.Rows.{Project, DeploymentsBatch, fetch_railway_visibility_rows}
use pe_hackathon.Visibility.Halt.{Answer, deployment_restart, railway_deployment_restart}
use pe_hackathon.Chaos.Guards.{
  ChaosBody, ContainerInfo, Effect, railway_mutation, container_restart, refuse, accept,
  checked_body, service_id_of, container_id_of, checked_credentials, checked_row, checked_container,
}

pub record RestartWorld : Type 0 where
  pub project_reply : Reply (Option Project)
  pub batch_reply : Reply DeploymentsBatch
  pub restart_reply : Answer
  pub inspect : Outcome ContainerInfo
  pub restart : Outcome (Unit {0})

pub data RestartResponse : Type 0 where
  refused : (status : ℕ) → (error : String) → RestartResponse
  errored : (message : String) → RestartResponse
  restarted : (service : String) → RestartResponse

abbrev restart_stop_grace_s : ℕ
restart_stop_grace_s = 10

abbrev pub undeployed_text : String
undeployed_text = "No active deployment to restart — deploy the service in Railway first."

abbrev pub tail_text : String
tail_text = ". Blocked or not in the allow list. Override with CHAOS_ALLOWED_SERVICES if needed."

restart_response : String → Outcome (Unit {0}) → RestartResponse
restart_response service (threw msg) = errored msg
restart_response service (returned _) = restarted service

unfoldable pub restart_railway :
    Env → RestartWorld → String → String → RestartResponse × List Effect
unfolding restart_response
restart_railway env w sid confirm = elim (checked_credentials env) [
  | refuse status error ↦ (refused status error, [])
  | accept _ ↦
      elim (checked_row env tail_text undeployed_text
        (fetch_railway_visibility_rows env w.project_reply w.batch_reply) sid confirm) [
          | refuse status error ↦ (refused status error, [])
          | accept (row, dep) ↦ (
            restart_response row.service (railway_deployment_restart env dep w.restart_reply),
            railway_mutation (deployment_restart dep) ∷ [],
          )
        ]
]

unfoldable pub restart_docker : Env → RestartWorld → String → String → RestartResponse × List Effect
unfolding restart_response
restart_docker env w id confirm =
    if is_empty id
    then (refused 400 "containerId and confirmService are required for Docker chaos", [])
    else elim w.inspect [
      | threw msg ↦ (errored msg, [])
      | returned info ↦ elim (checked_container env tail_text info confirm) [
        | refuse status error ↦ (refused status error, [])
        | accept svc ↦
            (restart_response svc w.restart, container_restart id restart_stop_grace_s ∷ [])
      ]
    ]

abbrev pub disabled_text : String
disabled_text =
    "Chaos actions are disabled. Set CHAOS_KILL_ENABLED=1 (Compose sets this by default), use `next dev` locally, or remove CHAOS_KILL_ENABLED=0."

unfoldable pub post_restart :
    Env → Option String → RestartWorld → Option ChaosBody → RestartResponse × List Effect
post_restart env node_env w body = elim (checked_body env node_env disabled_text body) [
  | refuse status error ↦ (refused status error, [])
  | accept (b, confirm) ↦
      if is_empty (service_id_of b)
      then restart_docker env w (container_id_of b) confirm
      else restart_railway env w (service_id_of b) confirm
]
