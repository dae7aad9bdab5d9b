-- ===== src/Tests/Setup.antt =====
-- The theorems about the setup script.
use Prim.Native.String.{String}
use pe_hackathon.Base.{
  ◌≡◌, refl, sym, subst, ap, ◌∙◌, ◌↔◌, inl, inr, Bool, true, false, Option, none, some, List, [],
  ◌∷◌, ◌==◌, map, Outcome, returned, has, find, or_else, not, ◌||◌, ltb, length,
}
use pe_hackathon.Base.Store.{get, put}
use native.Mathlib.Omega.{arith}
use mathlib.Core.List.{Permᴰ}
use pe_hackathon.Text.{
  split_at, last_is, starts_with, trim, template, trim_start, trim_end, is_space, to_lower,
}
use pe_hackathon.Setup.EnvFile.{
  split_eq, load_lines, parse_line, first_token, load_optional_env_file, split_lines,
  read_log_ingest_token_from_file,
}
use pe_hackathon.Setup.EnvFile.Defaults.{first_some, first_value, get-load_optional_env_file}
use pe_hackathon.Setup.Project.{
  Trigger, ServiceNode, ServiceInstance, ServiceSpec, watch_patterns_equal, normalize_repo, is_ours,
  match_repo, match_here, after_prefix, has_slash,
}
use pe_hackathon.Setup.Client.{InstanceInput, Request, read_gql, got, Remote, Settings}
use pe_hackathon.Setup.Configure.{is_set, is_nothing, instance_input}
use pe_hackathon.Setup.IngestToken.{appended}
use pe_hackathon.Setup.IngestToken.Saved.{read-appended}
use pe_hackathon.Setup.Main.{Machine, read_config, settings_of, main}
use pe_hackathon.Setup.Ensures.{Everything}
use pe_hackathon.Setup.Plugins.{find_postgres_service_name, find_service}
use pe_hackathon.Setup.Scope.{IsAllowed, main-IsAllowed}
use pe_hackathon.Setup.Foreign.{IsForeign, AllForeign, IsSpared, main-IsSpared}
use pe_hackathon.Setup.Converges.{no_instance, UpdatesFields, instance_input_converges}
use pe_hackathon.Setup.Patterns.{watch_patterns_equal_iff_perm}
use pe_hackathon.Setup.Repository.{repository, clone_path, normalize_repo-template}
use pe_hackathon.Setup.Wiring.{Wiring, wiring_for, find_wiring}
use pe_hackathon.Setup.Variables.{sync_plan}
use pe_hackathon.Setup.References.{IsClosed}
use pe_hackathon.Setup.References.Closed.{sync_plan-IsClosed}

true-false : true ≡ false → ⊥
true-false h = absurd (ground arith)

abbrev shortener : ServiceSpec
shortener = record {
  name = "url-shortener-a";
  root_directory = "url-shortener";
  railway_config_file = "/url-shortener/railway.toml";
  watch_patterns = "/url-shortener/**" ∷ [];
}

abbrev pub trigger : String → String → Trigger
trigger id repository = record {
  id = id;
  branch = some "main";
  repository = some repository;
  environment_id = some "env";
}

-- A service with a trigger of this repository on another branch, and a trigger of another repository.
abbrev node : ServiceNode
node = record {
  id = "svc-a";
  name = some "url-shortener-a";
  triggers = trigger "t1" "nathan-nw/PE-Hackathon-2026" ∷ trigger "t2" "someone/else" ∷ [];
}

abbrev remote : Remote
remote = record {
  project = λ h. got 200 "" [] (some (some node ∷ none ∷ []));
  instance_of = λ h. got 200 "" [] (some none);
  change = λ h. got 200 "" [] (some tt);
}

abbrev pub machine : Machine
machine = record {
  env = ("RAILWAY_TOKEN", "secret") ∷ ("SYNC_VARIABLES", "1") ∷ [];
  files = record { setup = some "RAILWAY_BRANCH=staging\n"; example = none };
  config_path = ".railway/config.json";
  config = returned (some "project", some "env");
  random = "0af3";
}

known : read_config machine ≡ returned ("project", "env")
unfolding read_config
known = refl

abbrev pub settings : Settings
settings = record {
  env = ("RAILWAY_TOKEN", "secret") ∷ [];
  project_id = "project";
  environment_id = "env";
  repo = "nathan-nw/PE-Hackathon-2026";
  branch = "staging";
  dry = false;
}

-- The file that has no token yet.
nothing : read_log_ingest_token_from_file (some "RAILWAY_API_TOKEN=\n") ≡ ""
unfolding read_log_ingest_token_from_file split_lines first_token parse_line split_at trim last_is
    starts_with split_eq
nothing = refl

abbrev services : List String
services = "url-shortener-a" ∷ "dashboard-backend" ∷ "Postgres" ∷ "Redis" ∷ "dashboard" ∷ []

abbrev wiring : Wiring
wiring = wiring_for [] services "project" "env" "Postgres"

found : find_wiring [] services "project" "env" ≡ some wiring
unfolding find_wiring find_postgres_service_name find_service trim get find has
found = refl

main-IsAllowed_example :
    Everything
      (IsAllowed
        (settings_of (load_optional_env_file machine.env machine.files.setup) ("project", "env")))
      (main remote machine []).1
main-IsAllowed_example = main-IsAllowed remote machine ("project", "env") known

-- A Railway that replaces each field that is given.
abbrev replaced : ServiceInstance → InstanceInput → ServiceInstance
replaced si i = record {
  root_directory = elim i.root_directory [ none ↦ si.root_directory | some v ↦ some v ];
  pre_deploy_command = or_else i.pre_deploy_command si.pre_deploy_command;
  railway_config_file = elim i.railway_config_file [
    | none ↦ si.railway_config_file
    | some v ↦ some v
  ];
  watch_patterns = elim i.watch_patterns [ none ↦ si.watch_patterns | some v ↦ some v ];
}

replaced-UpdatesFields : UpdatesFields replaced
replaced-UpdatesFields = record {
  given_root = λ si i v e. rw e refl;
  left_root = λ si i e. rw e refl;
  given_config = λ si i v e. rw e refl;
  left_config = λ si i e. rw e refl;
  given_watch = λ si i v e. rw e refl;
  left_watch = λ si i e. rw e refl;
}

instance_input_converges_example :
    let after = replaced no_instance (instance_input settings remote shortener none) in
    let next = instance_input settings remote shortener (some after) in
    (next.root_directory ≡ none)
    × (next.railway_config_file ≡ none)
    × (next.watch_patterns ≡ none)
    × (is_nothing next
        ≡ not (
            is_set settings.env "FORCE_CLEAR_PREDEPLOY" || ltb 0 (length after.pre_deploy_command)))
instance_input_converges_example =
    instance_input_converges settings remote shortener replaced replaced-UpdatesFields none

watch_patterns_equal_iff_perm_example :
    (watch_patterns_equal (some ("/b" ∷ " /a" ∷ [])) ("/a" ∷ "/b " ∷ []) ≡ true)
    ↔ Permᴰ (map trim ("/b" ∷ " /a" ∷ [])) (map trim ("/a" ∷ "/b " ∷ []))
watch_patterns_equal_iff_perm_example =
    watch_patterns_equal_iff_perm (some ("/b" ∷ " /a" ∷ [])) ("/a" ∷ "/b " ∷ [])

get-load_optional_env_file_example :
    get (load_optional_env_file (("A", "1") ∷ []) (some "A=2\r\nB='3'\nB=4")) "B"
    ≡ first_some (get (("A", "1") ∷ []) "B") (first_value "B" (split_lines "A=2\r\nB='3'\nB=4"))
get-load_optional_env_file_example =
    get-load_optional_env_file (("A", "1") ∷ []) "A=2\r\nB='3'\nB=4" "B"

normalize_repo-template_example :
    (normalize_repo
        (some (template ("https://github.com/" ∷ clone_path "nathan-nw" "PE-Hackathon-2026")))
      ≡ template (repository "nathan-nw" "PE-Hackathon-2026"))
    × (normalize_repo
          (some (template ("git@github.com:" ∷ clone_path "nathan-nw" "PE-Hackathon-2026")))
        ≡ template (repository "nathan-nw" "PE-Hackathon-2026"))
unfolding has_slash
normalize_repo-template_example =
    normalize_repo-template "nathan-nw" "PE-Hackathon-2026" (refl, refl) (refl, refl)

read-appended_example :
    read_log_ingest_token_from_file (some (appended "RAILWAY_API_TOKEN=\n" "0af3")) ≡ "0af3"
read-appended_example = read-appended "0af3" refl refl "RAILWAY_API_TOKEN=\n" nothing

sync_plan-IsClosed_example : IsClosed services (sync_plan wiring)
unfolding has
sync_plan-IsClosed_example = sync_plan-IsClosed [] services "project" "env" wiring found refl refl

-- The data of a reply that was read.
abbrev pub data_of : {A : Type 0} → A → Outcome (Option A) → A
data_of a (returned (some b)) = b
data_of a _ = a

abbrev others : String → Bool
others id = id == "t2"

node-IsForeign : IsForeign settings others node
unfolding is_ours normalize_repo trim trim_start trim_end is_space match_repo match_here
    after_prefix to_lower
node-IsForeign t (inl same) h = absurd (true-false (sym h ∙ ap (λ u. others u.id) same))
node-IsForeign t (inr (inl same)) h = ap (is_ours settings.repo settings.environment_id) same
node-IsForeign t (inr (inr h)) k = absurd h

foreign :
    (h : List Request) (edges : List (Option ServiceNode))
    → read_gql (remote.project h) ≡ returned (some edges)
    → AllForeign
        (settings_of (load_optional_env_file machine.env machine.files.setup) ("project", "env"))
        others
        edges
unfolding read_gql settings_of load_optional_env_file load_lines parse_line normalize_repo
    match_repo trim get split_lines split_at last_is starts_with split_eq put match_here
    after_prefix to_lower
foreign h edges same =
    subst
      (AllForeign
        (settings_of (load_optional_env_file machine.env machine.files.setup) ("project", "env"))
        others)
      (ap (data_of []) same) (node-IsForeign, (tt, tt))

main-IsSpared_example : Everything (IsSpared others) (main remote machine []).1
main-IsSpared_example = main-IsSpared remote machine ("project", "env") others known foreign
