-- ===== src/Worker/Exclusion.antt =====
-- server.ts: the watchdog's ticks exclude one another.
use pe_hackathon.Base.{◌≡◌, refl, arith, if◌then◌else◌}
use pe_hackathon.Env.{Env}
use pe_hackathon.Worker.{
  Worker, Step, Reach, timer, returns, throws, request, alive, closes, here, next, initial,
  begin_tick, end_tick, end_tick_threw, broadcast_tick, handle_request, send_keepalive,
  close_connection,
}

-- The flag is up exactly while one tick runs, and no two run.
pub record IsExclusive (w : Worker) : Type 0 where
  pub counted : w.ticks ≡ (if w.tick_in_flight then 1 else 0)

Step-IsExclusive : {env : Env} {w w' : Worker} → Step env w w' → IsExclusive w → IsExclusive w'
unfolding begin_tick end_tick end_tick_threw broadcast_tick handle_request send_keepalive
    close_connection
Step-IsExclusive timer h = ground arith
Step-IsExclusive (returns broken inputs p) h = ground arith
Step-IsExclusive (throws broken now msg state p) h = ground arith
Step-IsExclusive (request method path id) h = ground arith
Step-IsExclusive (alive broken id) h = ground arith
Step-IsExclusive (closes id) h = ground arith

-- In every state that the worker can reach, whatever the order of timers, requests, connections and
-- results, the flag is up exactly while a tick runs, and at most one runs.
pub Reach-IsExclusive : {env : Env} {w : Worker} → Reach env w → IsExclusive w
unfolding initial
Reach-IsExclusive here = record { counted = refl }
Reach-IsExclusive (next r s) = Step-IsExclusive s (Reach-IsExclusive r)
