-- ===== src/Setup/Project.antt =====
-- setup-railway.js: the services of the project, what each should be like, and the comparisons.
use Prim.Native.String
use pe_hackathon.Base.{
  code, Bool, not, ◌&&◌, ◌||◌, Option, none, some, String, List, [], ◌∷◌, map, eqb, ◌==◌,
  if◌then◌else◌, or_else, is_some, true, false,
}
use pe_hackathon.Base.Store.{Store, put}
use pe_hackathon.Text.{is_empty, truthy, trim, to_lower, starts_with, template}
use pe_hackathon.Text.Order.{sorted}

pub record Trigger : Type 0 where
  pub id : String
  pub branch : Option String
  pub repository : Option String
  pub environment_id : Option String

pub record ServiceNode : Type 0 where
  pub id : String
  pub name : Option String
  pub triggers : List Trigger

pub record ServiceInstance : Type 0 where
  pub root_directory : Option String
  pub pre_deploy_command : List String
  pub railway_config_file : Option String
  pub watch_patterns : Option (List String)

pub record ServiceSpec : Type 0 where
  pub name : String
  pub root_directory : String
  pub railway_config_file : String
  pub watch_patterns : List String

abbrev pub service_specs : List ServiceSpec
service_specs =
    record {
      name = "url-shortener-a";
      root_directory = "url-shortener";
      railway_config_file = "/url-shortener/railway.toml";
      watch_patterns = "/url-shortener/**" ∷ [];
    }
    ∷ record {
      name = "url-shortener-b";
      root_directory = "url-shortener";
      railway_config_file = "/url-shortener/railway.toml";
      watch_patterns = "/url-shortener/**" ∷ [];
    }
    ∷ record {
      name = "load-balancer";
      root_directory = "load-balancer";
      railway_config_file = "/load-balancer/railway.toml";
      watch_patterns = "/load-balancer/**" ∷ [];
    }
    ∷ record {
      name = "user-frontend";
      root_directory = "user-frontend";
      railway_config_file = "/user-frontend/railway.toml";
      watch_patterns = "/user-frontend/**" ∷ [];
    }
    ∷ record {
      name = "dashboard";
      root_directory = "dashboard";
      railway_config_file = "/dashboard/railway.toml";
      watch_patterns = "/dashboard/**" ∷ [];
    }
    ∷ record {
      name = "dashboard-backend";
      root_directory = "dashboard/backend";
      railway_config_file = "/dashboard/backend/railway.toml";
      watch_patterns = "/dashboard/backend/**" ∷ [];
    }
    ∷ record {
      name = "railway-watchdog";
      root_directory = ".";
      railway_config_file = "/watchdog-service/railway.toml";
      watch_patterns = "/**" ∷ "/*" ∷ "/.*" ∷ [];
    }
    ∷ []

unfoldable pub norm_railway_config_path : Option String → String
norm_railway_config_path p =
    let s = trim (or_else p "") in
    if is_empty s then "" else if starts_with s "/" then s else template ("/" ∷ s ∷ [])

-- `a.length === b.length && a.every((v, i) => v === b[i])`
unfoldable pub same_texts : List String → List String → Bool
same_texts [] [] = true
same_texts [] (y ∷ ys) = false
same_texts (x ∷ xs) [] = false
same_texts (x ∷ xs) (y ∷ ys) = x == y && same_texts xs ys

unfoldable pub watch_patterns_equal : Option (List String) → List String → Bool
watch_patterns_equal current wanted =
    same_texts (sorted (map trim (or_else current []))) (sorted (map trim wanted))

-- `(?:\.git)?$` after at least one character
unfoldable pub strip_git : String → String
strip_git String.[] = String.[]
strip_git (String.◌∷◌ c s) =
    if to_lower s == ".git" then String.◌∷◌ c String.[] else String.◌∷◌ c (strip_git s)

unfoldable pub has_slash : String → Bool
has_slash String.[] = false
has_slash (String.◌∷◌ c s) = eqb (code c) b'/' || has_slash s

-- `[^/]+?(?:\.git)?$`
unfoldable pub match_name : String → Option String
match_name s = if is_empty s || has_slash s then none else some (strip_git s)

-- `[^/]+\/[^/]+?(?:\.git)?$`; `owner` is the text so far.
unfoldable pub match_path : String → String → Option String
match_path owner String.[] = none
match_path owner (String.◌∷◌ c s) =
    let longer = match_path (String.◌++◌ owner (String.◌∷◌ c String.[])) s in
    if eqb (code c) b'/'
    then (if is_empty owner then none else elim (match_name s) [
      | none ↦ none
      | some name ↦ some (String.◌++◌ owner (String.◌∷◌ c name))
    ])
    else longer

-- The rest of a text after a prefix in any letter case.
unfoldable pub after_prefix : String → String → Option String
after_prefix String.[] s = some s
after_prefix (String.◌∷◌ p ps) String.[] = none
after_prefix (String.◌∷◌ p ps) (String.◌∷◌ c s) =
    let rest = after_prefix ps s in
    if to_lower (String.◌∷◌ c String.[]) == String.◌∷◌ p String.[] then rest else none

-- `[:/]` and what follows it
unfoldable pub match_after_host : String → Option String
match_after_host String.[] = none
match_after_host (String.◌∷◌ c s) =
    if eqb (code c) b':' || eqb (code c) b'/' then match_path "" s else none

-- The match at the head of the text.
unfoldable pub match_here : String → Option String
match_here s = elim (after_prefix "github.com" s) [
  | none ↦ none
  | some rest ↦ match_after_host rest
]

-- The leftmost match.
unfoldable pub match_repo : String → Option String
match_repo String.[] = none
match_repo (String.◌∷◌ c s) =
    let later = match_repo s in
    let here = match_here (String.◌∷◌ c s) in if is_some here then here else later

unfoldable pub normalize_repo : Option String → String
normalize_repo s = let t = trim (or_else s "") in or_else (match_repo t) t

-- `byName` from the nodes of the reply; a null node or one with no name is left out.
unfoldable pub services_map : Store ServiceNode → List (Option ServiceNode) → Store ServiceNode
services_map m [] = m
services_map m (none ∷ es) = services_map m es
services_map m (some n ∷ es) = elim (truthy n.name) [
  | none ↦ services_map m es
  | some name ↦ services_map (put m name n) es
]

abbrev pub not_in_environment : String → Option String → Bool
not_in_environment environment_id e = elim (truthy e) [
  | none ↦ false
  | some id ↦ not (id == environment_id)
]

-- A trigger of the repository that is for the environment, or for none.
unfoldable pub is_ours : String → String → Trigger → Bool
is_ours repo environment_id t =
    normalize_repo t.repository == repo && not (not_in_environment environment_id t.environment_id)

-- `tr.branch === branch`
abbrev pub on_branch : String → Trigger → Bool
on_branch branch t = elim t.branch [ none ↦ false | some b ↦ b == branch ]
