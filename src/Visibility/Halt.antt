-- ===== src/Visibility/Halt.antt =====
-- railway-visibility.ts: the mutations that stop, remove, restart and deploy a service.
pub mod Laws
use pe_hackathon.Base.{
  Bool, true, false, Option, none, some, String, List, [], ◌∷◌, Outcome, returned, threw,
}
use pe_hackathon.Text.{template}
use pe_hackathon.Env.{Env}
use pe_hackathon.Visibility.Graphql.{Reply, railway_graphql}

-- The mutations that the code asks for.
pub data Mutation : Type 0 where
  deployment_stop : String → Mutation
  deployment_remove : String → Mutation
  deployment_restart : String → Mutation
  service_instance_deploy : (environment_id : String) → (service_id : String) → Mutation

-- A Boolean field of the reply; `none` is null or absent.
abbrev pub Answer : Type 0
Answer = Reply (Option Bool)

unfoldable pub railway_deployment_restart : Env → String → Answer → Outcome (Unit {0})
railway_deployment_restart env dep reply = elim (railway_graphql env reply) [
  | threw msg ↦ threw msg
  | returned (some false) ↦
      threw
        "Railway deploymentRestart returned false — check token permissions and deployment state."
  | returned _ ↦ returned tt
]

-- `method` of the result.
pub data HaltMethod : Type 0 where
  stop remove : HaltMethod

-- Why `deploymentStop` did not settle the matter: its error, or an answer other than true.
halt_failure : Option String → String → String
halt_failure none msg =
    template (
      "Railway halt failed: deploymentStop did not return true; deploymentRemove (" ∷ msg ∷ ")"
      ∷ [])
halt_failure (some stop_err) msg =
    template (
      "Railway halt failed: deploymentStop (" ∷ stop_err ∷ "); deploymentRemove (" ∷ msg ∷ ")" ∷ [])

remove_deployment : Option String → Outcome (Option Bool) → Outcome HaltMethod
remove_deployment stop_err (threw msg) = threw (halt_failure stop_err msg)
remove_deployment stop_err (returned (some false)) =
    threw (halt_failure stop_err "deploymentRemove returned false")
remove_deployment stop_err (returned _) = returned remove

-- The result, and the mutations requested in order. The console log is left out.
unfoldable pub railway_chaos_halt_deployment :
    Env → String → Answer → Answer → Outcome HaltMethod × List Mutation
unfolding remove_deployment halt_failure
railway_chaos_halt_deployment env dep stop_reply remove_reply =
    let removed = railway_graphql env remove_reply in
    let both = deployment_stop dep ∷ deployment_remove dep ∷ [] in
    elim (railway_graphql env stop_reply) [
      | returned (some true) ↦ (returned stop, deployment_stop dep ∷ [])
      | returned _ ↦ (remove_deployment none removed, both)
      | threw msg ↦ (remove_deployment (some msg) removed, both)
    ]

unfoldable pub railway_service_instance_deploy_latest : Env → Answer → Outcome (Unit {0})
railway_service_instance_deploy_latest env reply = elim (railway_graphql env reply) [
  | threw msg ↦ threw msg
  | returned _ ↦ returned tt
]
