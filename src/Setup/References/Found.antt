-- ===== src/Setup/References/Found.antt =====
-- setup-railway.js: the Postgres, Redis and Kafka services that are found are services of the project.
use pe_hackathon.Base.{
  ◌≡◌, refl, subst, inl, inr, Bool, true, not, ◌&&◌, some, String, List, [], ◌∷◌, ◌==◌, arith,
  eq_iff, has, find, keep, Option-cases, Bool-cases,
}
use pe_hackathon.Base.Store.{Store}
use pe_hackathon.Text.{is_empty}
use pe_hackathon.Setup.Plugins.{
  setting, find_service, find_postgres_service_name, find_redis_service_name,
  find_kafka_service_name, find_dashboard_postgres_service_name, the_only, mentions,
}
use pe_hackathon.Setup.Wiring.{Wiring, wiring_for, find_wiring}

find-holds : {A : Type 0} (p : A → Bool) (xs : List A) (x : A) → find p xs ≡ some x → p x ≡ true
unfolding find
find-holds p [] x h = ground arith
find-holds p (y ∷ ys) x h = elim (Bool-cases (p y)) [
  | inl fits ↦ ground arith
  | inr not_here ↦ find-holds p ys x (ground arith)
]

has-find :
    (p : String → Bool) (xs : List String) (x : String) → find p xs ≡ some x → has xs x ≡ true
unfolding find has
has-find p [] x h = ground arith
has-find p (y ∷ ys) x h = ground (arith, eq_iff y x, has-find p ys x)

has-keep :
    (p : String → Bool) (xs : List String) (x : String) → has (keep p xs) x ≡ true → has xs x ≡ true
unfolding keep has
has-keep p [] x h = h
has-keep p (y ∷ ys) x h = ground (arith, has-keep p ys x)

has-the_only : (xs : List String) (x : String) → the_only xs ≡ some x → has xs x ≡ true
unfolding the_only has
has-the_only [] x h = ground arith
has-the_only (y ∷ []) x h = ground (arith, eq_iff y x)
has-the_only (y ∷ z ∷ ys) x h = ground arith

has-find_service :
    (explicit : String) (candidates : List String) (fits : String → Bool) (names : List String)
    (x : String)
    → find_service explicit candidates fits names ≡ some x
    → has names x ≡ true
unfolding find_service
has-find_service explicit candidates fits names x h =
    ground (arith, find-holds (has names) candidates x, has-find fits names x)

-- The services that were found are there.
pub record IsFound (w : Wiring) : Type 0 where
  pub postgres : has w.names w.postgres ≡ true
  pub redis : (x : String) → w.redis ≡ some x → has w.names x ≡ true
  pub kafka : (x : String) → w.kafka ≡ some x → has w.names x ≡ true
  pub dashboard : (x : String) → w.dashboard_postgres ≡ some x → has w.names x ≡ true

dashboard-found :
    (env : Store String) (names : List String) (primary x : String)
    → find_dashboard_postgres_service_name env names primary ≡ some x
    → has names x ≡ true
unfolding find_dashboard_postgres_service_name
dashboard-found env names primary x h =
    let explicit = setting env "RAILWAY_DASHBOARD_POSTGRES_SERVICE_NAME" in
    let other : String → Bool = λ name. mentions "postgres" name && not (name == primary) in
    let fits : String → Bool =
      λ name. not (name == primary) && (mentions "dashboard" name && mentions "postgres" name) in
    elim (Bool-cases (not (is_empty explicit) && has names explicit)) [
      | inl here ↦ ground arith
      | inr absent ↦ elim (Option-cases (find fits names)) [
        | inl nothing ↦ has-keep other names x (has-the_only (keep other names) x (ground arith))
        | inr (name, found) ↦ has-find fits names x (ground arith)
      ]
    ]

wiring_for-IsFound :
    (env : Store String) (names : List String) (project_id environment_id postgres : String)
    → find_postgres_service_name env names ≡ some postgres
    → IsFound (wiring_for env names project_id environment_id postgres)
unfolding wiring_for find_postgres_service_name find_redis_service_name find_kafka_service_name
wiring_for-IsFound env names project_id environment_id postgres h = record {
  postgres = has-find_service _ _ _ names postgres h;
  redis = λ x. has-find_service _ _ _ names x;
  kafka = λ x. has-find_service _ _ _ names x;
  dashboard = λ x. dashboard-found env names postgres x;
}

pub find_wiring-IsFound :
    (env : Store String) (names : List String) (project_id environment_id : String) (w : Wiring)
    → find_wiring env names project_id environment_id ≡ some w
    → IsFound w × (w.names ≡ names)
unfolding find_wiring wiring_for
find_wiring-IsFound env names project_id environment_id w h =
    elim (Option-cases (find_postgres_service_name env names)) [
      | inl nothing ↦ ground arith
      | inr (postgres, found) ↦
          let same : wiring_for env names project_id environment_id postgres ≡ w = ground arith in
          subst (λ v. IsFound v × (v.names ≡ names)) same
            (wiring_for-IsFound env names project_id environment_id postgres found, refl)
    ]
