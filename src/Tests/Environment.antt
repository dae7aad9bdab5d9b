-- ===== src/Tests/Environment.antt =====
-- The theorems about environment variables.
use pe_hackathon.Base.{◌≡◌, ◌≢◌, ◌↔◌, refl, true, none, String, [], ◌∷◌}
use pe_hackathon.Base.Store.{get}
use pe_hackathon.Text.{trim}
use pe_hackathon.Env.{
  Process, runtime_env, find_in, usable, normalize_env_value, parse_linux_environ, missing,
  has_railway_graphql_credential, get_railway_graphql_auth_headers,
}
use pe_hackathon.Env.Laws.{IsNormal, runtime_env-IsNormal, has_credential_iff}
use pe_hackathon.Tests.Fixtures.{env}

-- A name with a stray space, and a quoted value.
abbrev process : Process
process = record { proc_environ = none; env = ("RAILWAY_PROJECT_TOKEN ", "\" abc \"") ∷ [] }

runtime_env-IsNormal_example : IsNormal "abc"
unfolding runtime_env find_in usable normalize_env_value parse_linux_environ trim get
runtime_env-IsNormal_example = runtime_env-IsNormal process "RAILWAY_PROJECT_TOKEN" "abc" refl

has_credential_iff_example :
    (has_railway_graphql_credential env ≡ true)
    ↔ ((msg : String) → get_railway_graphql_auth_headers env ≢ missing msg)
has_credential_iff_example = has_credential_iff env
