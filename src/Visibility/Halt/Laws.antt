-- ===== src/Visibility/Halt/Laws.antt =====
-- railway-visibility.ts: halting a deployment.
use pe_hackathon.Base.{◌≡◌, ◌≢◌, ◌↔◌, ◌⊎◌, true, none, some, String, [], ◌∷◌, arith, returned}
use pe_hackathon.Env.{Env}
use pe_hackathon.Visibility.Graphql.{railway_graphql}
use pe_hackathon.Visibility.Halt.{
  Answer, stop, remove, deployment_stop, deployment_remove, railway_chaos_halt_deployment,
}

-- A stop is always asked for first. If Railway answers it with true, it is the result and nothing
-- else is asked for; in all other cases the removal is asked for, and it is the result just when it
-- neither fails nor is answered with false.
pub halt_cases :
    (env : Env) (dep : String) (stop_reply remove_reply : Answer)
    → let r = railway_chaos_halt_deployment env dep stop_reply remove_reply in
      ((railway_graphql env stop_reply ≡ returned (some true))
        × (r.0 ≡ returned stop)
        × (r.1 ≡ deployment_stop dep ∷ []))
      ⊎ ((railway_graphql env stop_reply ≢ returned (some true))
          × (r.1 ≡ deployment_stop dep ∷ deployment_remove dep ∷ [])
          × ((r.0 ≡ returned remove) ↔ (
              (railway_graphql env remove_reply ≡ returned none)
              ⊎ (railway_graphql env remove_reply ≡ returned (some true))))
          × (r.0 ≢ returned stop))
unfolding railway_chaos_halt_deployment
halt_cases env dep stop_reply remove_reply = ground arith
