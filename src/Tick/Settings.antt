-- ===== src/Tick/Settings.antt =====
-- railway-watchdog-tick.ts: the settings of a tick, read from the environment.
use pe_hackathon.Base.{
  ℕ, Bool, true, false, not, ◌&&◌, Option, none, some, String, ltb, if◌then◌else◌, or_else, max,
}
use pe_hackathon.Text.{ℤ, pos, negsuc, is_empty, trim, to_lower, parse_int, at_least}
use pe_hackathon.Env.{Env}
use pe_hackathon.Heartbeat.{is_off, is_on}

unfoldable pub heartbeat_miss_threshold : Env → ℕ
heartbeat_miss_threshold env =
    at_least 1 2 (parse_int (or_else (env "RAILWAY_HEARTBEAT_MISS_THRESHOLD") "2"))

unfoldable pub heartbeat_max_recover_per_epoch : Env → ℕ
heartbeat_max_recover_per_epoch env =
    at_least 0 1 (parse_int (or_else (env "RAILWAY_HEARTBEAT_MAX_RECOVER") "1"))

unfoldable pub heartbeat_recover_cooldown_ms : Env → ℕ
heartbeat_recover_cooldown_ms env =
    at_least 0 3600000 (parse_int (or_else (env "RAILWAY_HEARTBEAT_RECOVER_COOLDOWN_MS") "3600000"))

-- `(runtimeEnv(key) ?? "").trim().toLowerCase()`
abbrev flag : Env → String → String
flag env key = to_lower (trim (or_else (env key) ""))

unfoldable pub railway_watchdog_auto_recover_enabled : Env → Bool
railway_watchdog_auto_recover_enabled env =
    let raw = flag env "RAILWAY_WATCHDOG_AUTO_RECOVER" in
    if is_empty raw then true else not (is_off raw)

unfoldable pub railway_heartbeat_enabled : Env → Bool
railway_heartbeat_enabled env =
    let raw = flag env "RAILWAY_HEARTBEAT_ENABLED" in
    if is_empty raw then true else not (is_off raw)

unfoldable pub railway_heartbeat_recover_enabled : Env → Bool
railway_heartbeat_recover_enabled env =
    let raw = flag env "RAILWAY_HEARTBEAT_RECOVER" in if is_empty raw then false else is_on raw

-- `parseInt(…) || 15`, then `Math.max(5, …)`.
poll_seconds : Option ℤ → ℕ
poll_seconds none = 15
poll_seconds (some (negsuc n)) = 5
poll_seconds (some (pos n)) = if ltb 0 n then max 5 n else 15

unfoldable pub railway_watchdog_interval_sec : Env → ℕ
unfolding poll_seconds
railway_watchdog_interval_sec env =
    poll_seconds (parse_int (or_else (env "RAILWAY_WATCHDOG_POLL_SEC") "15"))

unfoldable pub environment_id_of : Env → String
environment_id_of env = or_else (env "RAILWAY_ENVIRONMENT_ID") ""

-- `autoRecover` of the tick.
unfoldable pub auto_recover : Env → Bool
auto_recover env =
    railway_watchdog_auto_recover_enabled env && not (is_empty (environment_id_of env))
