-- ===== src/Setup/References.antt =====
-- setup-railway.js: which services the variables refer to.
pub mod Found
pub mod Closed
use pe_hackathon.Base.{
  ◌≡◌, refl, sym, subst, ◌∙◌, ◌⊎◌, inl, inr, Bool, true, false, not, ◌&&◌, ◌||◌, Option, none, some,
  String, List, [], ◌∷◌, ◌++◌, ◌==◌, arith, eq_iff, or_else, has, find, keep, Option-cases,
  if◌then◌else◌, Bool-cases, is_some,
}
use pe_hackathon.Base.Store.{Store}
use pe_hackathon.Text.{is_empty}
use pe_hackathon.Heartbeat.{strip_slashes}
use pe_hackathon.Setup.Plugins.{
  Piece, literal, reference, Value, setting, find_service, find_postgres_service_name,
  find_redis_service_name, find_kafka_service_name, find_dashboard_postgres_service_name, the_only,
  mentions, kafka_bootstrap_ref,
}
use pe_hackathon.Setup.Wiring.{
  Variables, Wiring, when, with_value, kafka_servers, rate_limit_storage, log_ingest,
  log_ingest_url, log_ingest_token, url_shortener_base, wiring_for, find_wiring,
}
use pe_hackathon.Setup.Variables.{
  Plan, planned, load_balancer_vars, load_test_target, dashboard_backend_vars,
  railway_watchdog_vars, dashboard_vars, user_frontend_vars, sync_plan, poll_seconds, tokens,
  chaos_allowed,
}

-- Every service that a value refers to is one of the names.
abbrev pub refers_only : List String → Value → Bool
refers_only names [] = true
refers_only names (literal s ∷ v) = refers_only names v
refers_only names (reference service variable ∷ v) = has names service && refers_only names v

abbrev pub all_refer : List String → Variables → Bool
all_refer names [] = true
all_refer names ((key, v) ∷ vs) = refers_only names v && all_refer names vs

abbrev pub IsClosed : List String → Plan → Type 0
IsClosed names [] = Unit {0}
IsClosed names ((service, vs) ∷ plan) = (all_refer names vs ≡ true) × IsClosed names plan

pub all_refer-append :
    (names : List String) (xs ys : Variables)
    → all_refer names (xs ++ ys) ≡ (all_refer names xs && all_refer names ys)
all_refer-append names [] ys = refl
all_refer-append names ((key, v) ∷ xs) ys = ground (arith, all_refer-append names xs ys)

pub IsClosed-planned :
    (names : List String) (b : Bool) (service : String) (vs : Variables) (plan : Plan)
    → (b ≡ true → all_refer names vs ≡ true)
    → IsClosed names plan
    → IsClosed names (planned b service vs ++ plan)
IsClosed-planned names true service vs plan h k = (h refl, k)
IsClosed-planned names false service vs plan h k = k

pub both : (a b : Bool) → a ≡ true → b ≡ true → (a && b) ≡ true
both a b h k = ground arith

module _ (names : List String) where
  pub all_refer-option :
      {A : Type 0} (o : Option A) (f : A → Variables)
      → ((a : A) → o ≡ some a → all_refer names (f a) ≡ true)
      → all_refer names (elim o [ none ↦ [] | some a ↦ f a ]) ≡ true
  all_refer-option none f h = refl
  all_refer-option (some a) f h = h a refl

  pub all_refer-both :
      (xs ys : Variables)
      → all_refer names xs ≡ true
      → all_refer names ys ≡ true
      → all_refer names (xs ++ ys) ≡ true
  all_refer-both xs ys h k = all_refer-append names xs ys ∙ both _ _ h k

  pub all_refer-when :
      (b : Bool) (vs : Variables)
      → (b ≡ true → all_refer names vs ≡ true)
      → all_refer names (when b vs) ≡ true
  all_refer-when true vs h = h refl
  all_refer-when false vs h = refl

  pub all_refer-with_value :
      (key : String) (o : Option Value)
      → ((v : Value) → o ≡ some v → refers_only names v ≡ true)
      → all_refer names (with_value key o) ≡ true
  all_refer-with_value key none h = refl
  all_refer-with_value key (some v) h = both _ _ (h v refl) refl
