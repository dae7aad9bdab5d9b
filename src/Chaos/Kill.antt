-- ===== src/Chaos/Kill.antt =====
-- dashboard/src/app/api/visibility/docker/chaos/kill/route.ts
use pe_hackathon.Base.{
  ℕ, Option, String, List, [], ◌∷◌, map, if◌then◌else◌, Outcome, returned, threw,
}
use pe_hackathon.Text.{is_empty}
use pe_hackathon.Env.{Env}
use pe_hackathon.Visibility.Graphql.{Reply}
use pe_hackathon.Visibility.Rows.{Project, DeploymentsBatch, fetch_railway_visibility_rows}
use pe_hackathon.Visibility.Halt.{Answer, HaltMethod, Mutation, railway_chaos_halt_deployment}
use pe_hackathon.Chaos.Guards.{
  ChaosBody, ContainerInfo, Effect, railway_mutation, container_kill, refuse, accept, checked_body,
  service_id_of, container_id_of, checked_credentials, checked_row, checked_container,
}

-- The answers of Railway and of Docker; `inspect` throws too where Docker cannot be reached.
pub record KillWorld : Type 0 where
  pub project_reply : Reply (Option Project)
  pub batch_reply : Reply DeploymentsBatch
  pub stop_reply : Answer
  pub remove_reply : Answer
  pub inspect : Outcome ContainerInfo
  pub kill : Outcome (Unit {0})

-- A refused check; an error that was thrown (503); or the two kinds of success.
pub data KillResponse : Type 0 where
  refused : (status : ℕ) → (error : String) → KillResponse
  errored : (message : String) → KillResponse
  halted : (service : String) → HaltMethod → KillResponse
  killed : (service : String) → KillResponse

abbrev pub undeployed_text : String
undeployed_text = "No active deployment to stop — deploy the service in Railway first."

abbrev pub tail_text : String
tail_text =
    " for chaos kill. Blocked or not in the allow list. Override with CHAOS_ALLOWED_SERVICES if needed."

halt_response : String → Outcome HaltMethod × List Mutation → KillResponse × List Effect
halt_response service (threw msg, ms) = (errored msg, map railway_mutation ms)
halt_response service (returned method, ms) = (halted service method, map railway_mutation ms)

-- The Railway branch.
unfoldable pub kill_railway : Env → KillWorld → String → String → KillResponse × List Effect
unfolding halt_response
kill_railway env w sid confirm = elim (checked_credentials env) [
  | refuse status error ↦ (refused status error, [])
  | accept _ ↦
      elim (checked_row env tail_text undeployed_text
        (fetch_railway_visibility_rows env w.project_reply w.batch_reply) sid confirm) [
          | refuse status error ↦ (refused status error, [])
          | accept (row, dep) ↦
              halt_response row.service
                (railway_chaos_halt_deployment env dep w.stop_reply w.remove_reply)
        ]
]

kill_response : String → Outcome (Unit {0}) → KillResponse
kill_response service (threw msg) = errored msg
kill_response service (returned _) = killed service

-- The Docker branch.
unfoldable pub kill_docker : Env → KillWorld → String → String → KillResponse × List Effect
unfolding kill_response
kill_docker env w id confirm =
    if is_empty id
    then (refused 400 "containerId and confirmService are required for Docker chaos", [])
    else elim w.inspect [
      | threw msg ↦ (errored msg, [])
      | returned info ↦ elim (checked_container env tail_text info confirm) [
        | refuse status error ↦ (refused status error, [])
        | accept svc ↦ (kill_response svc w.kill, container_kill id ∷ [])
      ]
    ]

abbrev pub disabled_text : String
disabled_text =
    "Chaos kill is disabled. Set CHAOS_KILL_ENABLED=1 (Compose sets this by default), use `next dev` locally, or remove CHAOS_KILL_ENABLED=0."

-- The handler: its response and its effects, in order. `body` is `none` where it is no JSON.
unfoldable pub post_kill :
    Env → Option String → KillWorld → Option ChaosBody → KillResponse × List Effect
post_kill env node_env w body = elim (checked_body env node_env disabled_text body) [
  | refuse status error ↦ (refused status error, [])
  | accept (b, confirm) ↦
      if is_empty (service_id_of b)
      then kill_docker env w (container_id_of b) confirm
      else kill_railway env w (service_id_of b) confirm
]
