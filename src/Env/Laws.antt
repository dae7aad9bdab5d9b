-- ===== src/Env/Laws.antt =====
-- server-runtime-env.ts: which value `runtimeEnv` answers, and when a request can be authorised.
use pe_hackathon.Base.{
  ◌≡◌, ◌≢◌, ◌↔◌, refl, true, false, Option, none, some, String, List, [], ◌∷◌, arith, is_some,
}
use pe_hackathon.Base.Store.{Store, get}
use pe_hackathon.Text.{is_empty, trim}
use pe_hackathon.Text.Laws.{trim_idem}
use pe_hackathon.Env.{
  Process, Env, normalize_env_value, usable, usable_at, trimmed_match, find_in, find_in_proc,
  runtime_env, parse_linux_environ, some_set, first_set, has_railway_graphql_credential, missing,
  get_railway_graphql_auth_headers, unquote, project_access_token_keys, account_bearer_token_keys,
}

-- A value that can be used as it stands: not empty, and with no space at its ends.
pub record IsNormal (v : String) : Type 0 where
  pub given : is_empty v ≡ false
  pub trimmed : trim v ≡ v

usable-IsNormal : (raw v : String) → usable raw ≡ some v → IsNormal v
unfolding usable normalize_env_value
usable-IsNormal raw v e = ground (arith, trim_idem (unquote (trim raw)))

usable_at-IsNormal : (o : Option String) (v : String) → usable_at o ≡ some v → IsNormal v
unfolding usable_at
usable_at-IsNormal none v e = cc
usable_at-IsNormal (some raw) v e = usable-IsNormal raw v e

trimmed_match-IsNormal :
    (want : String) (m : Store String) (v : String) → trimmed_match want m ≡ some v → IsNormal v
unfolding trimmed_match
trimmed_match-IsNormal want [] v e = cc
trimmed_match-IsNormal want ((k, raw) ∷ m) v e =
    ground (arith, usable-IsNormal raw v, trimmed_match-IsNormal want m v)

find_in-IsNormal : (m : Store String) (key v : String) → find_in m key ≡ some v → IsNormal v
unfolding find_in
find_in-IsNormal m key v e =
    ground (arith, usable_at-IsNormal (get m key) v, trimmed_match-IsNormal (trim key) m v)

find_in_proc-IsNormal :
    (m : Option (Store String)) (key v : String) → find_in_proc m key ≡ some v → IsNormal v
unfolding find_in_proc
find_in_proc-IsNormal none key v e = cc
find_in_proc-IsNormal (some m) key v e = find_in-IsNormal m key v e

-- Whatever the process sees, a variable that is found has a value that is not empty and has no space
-- at its ends.
pub runtime_env-IsNormal : (p : Process) (key v : String) → runtime_env p key ≡ some v → IsNormal v
unfolding runtime_env
runtime_env-IsNormal p key v e = ground (
  arith,
  find_in_proc-IsNormal (parse_linux_environ p.proc_environ) key v,
  find_in-IsNormal p.env key v,
)

some_set-first_set : (env : Env) (ks : List String) → some_set env ks ≡ is_some (first_set env ks)
unfolding some_set first_set
some_set-first_set env [] = refl
some_set-first_set env (k ∷ ks) = ground (arith, some_set-first_set env ks)

-- A credential is reported exactly if the headers of a request can be built.
pub has_credential_iff :
    (env : Env)
    → (has_railway_graphql_credential env ≡ true)
      ↔ ((msg : String) → get_railway_graphql_auth_headers env ≢ missing msg)
unfolding has_railway_graphql_credential get_railway_graphql_auth_headers
has_credential_iff env = (
  (λ h msg e. ground (
    arith,
    some_set-first_set env project_access_token_keys,
    some_set-first_set env account_bearer_token_keys,
  )),
  (λ h. ground (
    arith,
    some_set-first_set env project_access_token_keys,
    some_set-first_set env account_bearer_token_keys,
    h "Set RAILWAY_PROJECT_TOKEN or RAILWAY_API_TOKEN for Railway visibility",
  )),
)
