-- ===== src/Env/Snapshot/Laws.antt =====
-- server-runtime-env.ts: what the debug snapshot says of the credential is so.
use pe_hackathon.Base.{
  ◌≡◌, refl, true, false, ◌||◌, Option, none, some, String, List, [], ◌∷◌, ◌++◌, map, is_some,
  arith, inl, inr, Option-cases,
}
use pe_hackathon.Base.Store.{Store}
use pe_hackathon.Text.{is_empty, trim}
use pe_hackathon.Env.{
  Process, parse_linux_environ, runtime_env, find_in, find_in_proc, usable, usable_at,
  trimmed_match, some_set, project_access_token_keys, account_bearer_token_keys,
  has_railway_graphql_credential,
}
use pe_hackathon.Env.Laws.{runtime_env-IsNormal}
use pe_hackathon.Env.Snapshot.{
  find_trimmed, entry_in, entry_in_proc, token_entry, token_value, note_token, some_present,
  get_railway_env_debug_snapshot, all_token_keys,
}

find_trimmed-match :
    (name : String) (m : Store String)
    → is_empty (token_value (find_trimmed name m)) ≡ false
    → is_some (trimmed_match name m) ≡ true
unfolding find_trimmed trimmed_match usable token_value
find_trimmed-match name [] h = ground arith
find_trimmed-match name ((k, v) ∷ m) h = ground (arith, find_trimmed-match name m)

entry_in-find_in :
    (m : Store String) (name : String)
    → trim name ≡ name
    → is_empty (token_value (entry_in m name)) ≡ false
    → is_some (find_in m name) ≡ true
unfolding entry_in find_in usable_at usable token_value
entry_in-find_in m name plain h = ground (arith, find_trimmed-match name m)

entry_in_proc-find_in_proc :
    (m : Option (Store String)) (name : String)
    → trim name ≡ name
    → is_empty (token_value (entry_in_proc m name)) ≡ false
    → is_some (find_in_proc m name) ≡ true
unfolding entry_in_proc find_in_proc token_value
entry_in_proc-find_in_proc none name plain h = ground arith
entry_in_proc-find_in_proc (some m) name plain h = entry_in-find_in m name plain h

token-runtime_env :
    (p : Process) (name : String)
    → trim name ≡ name
    → (note_token p name).present ≡ true
    → is_some (runtime_env p name) ≡ true
unfolding note_token token_entry runtime_env token_value
token-runtime_env p name plain h = ground (
  arith,
  entry_in-find_in p.env name plain,
  entry_in_proc-find_in_proc (parse_linux_environ p.proc_environ) name plain,
)

-- No name has spaces around it.
abbrev AllPlain : List String → Type 0
AllPlain [] = Unit
AllPlain (k ∷ ks) = (trim k ≡ k) × AllPlain ks

some_present-some_set :
    (p : Process) (ks : List String)
    → AllPlain ks
    → some_present (map (note_token p) ks) ≡ true
    → some_set (runtime_env p) ks ≡ true
unfolding some_present some_set
some_present-some_set p [] plain h = h
some_present-some_set p (k ∷ ks) (plain, plains) h = elim (Option-cases (runtime_env p k)) [
  | inl unset ↦ ground (arith, token-runtime_env p k plain, some_present-some_set p ks plains)
  | inr (v, set) ↦ ground (arith, (runtime_env-IsNormal p k v set).given)
]

some_set-append :
    (p : Process) (js ks : List String)
    → some_set (runtime_env p) (js ++ ks)
      ≡ (some_set (runtime_env p) js || some_set (runtime_env p) ks)
unfolding some_set
some_set-append p [] ks = refl
some_set-append p (j ∷ js) ks = ground (arith, some_set-append p js ks)

-- When the snapshot reports a credential, a request to Railway can be authorised.
pub snapshot-has_credential :
    (p : Process) (platform : String)
    → (get_railway_env_debug_snapshot p platform).has_credential ≡ true
    → has_railway_graphql_credential (runtime_env p) ≡ true
unfolding get_railway_env_debug_snapshot has_railway_graphql_credential trim
snapshot-has_credential p platform h = ground (
  arith,
  some_present-some_set p all_token_keys (refl, (refl, (refl, (refl, (refl, tt))))) h,
  some_set-append p project_access_token_keys account_bearer_token_keys,
)
