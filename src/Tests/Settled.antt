-- ===== src/Tests/Settled.antt =====
-- The theorem about a run of the setup script over settled services.
use Prim.Native.String.{String}
use pe_hackathon.Base.{
  ◌≡◌, refl, sym, subst, ap, ◌∙◌, ◌++◌, if◌then◌else◌, keep, inl, inr, true, Option, none, some,
  List, [], ◌∷◌, ◌==◌, map,
}
use pe_hackathon.Base.Store.{get, put}
use pe_hackathon.Text.{starts_with, trim, trim_start, trim_end, is_space, to_lower}
use pe_hackathon.Text.Order.{sorted, insert_sorted, text_le}
use pe_hackathon.Setup.Project.{
  ServiceNode, ServiceInstance, ServiceSpec, service_specs, same_texts, norm_railway_config_path,
  watch_patterns_equal, normalize_repo, is_ours, services_map, match_repo, match_here, after_prefix,
}
use pe_hackathon.Setup.Client.{Request, query_instance, read_gql, got, unreached, Remote, Settings}
use pe_hackathon.Setup.Configure.{is_nothing, instance_input}
use pe_hackathon.Setup.Main.{run}
use pe_hackathon.Setup.Ensures.{Everything}
use pe_hackathon.Setup.Rules.{Among}
use pe_hackathon.Setup.Settled.{IsQuery, Each, IsService, HasServices, IsSettled}
use pe_hackathon.Setup.Settled.Run.{run-IsQuery}
use pe_hackathon.Tests.Setup.{machine, settings, data_of}

-- Every listed service, linked to the branch, and its instance as specified.
abbrev linked : ServiceSpec → Option ServiceNode
linked spec = some (record {
  id = spec.name;
  name = some spec.name;
  triggers =
      record {
        id = spec.name;
        branch = some "staging";
        repository = some "nathan-nw/PE-Hackathon-2026";
        environment_id = some "env";
      }
      ∷ [];
})

abbrev instance_named : String → List ServiceSpec → Option ServiceInstance
instance_named name [] = none
instance_named name (spec ∷ specs) =
    if spec.name == name
    then some (record {
      root_directory = some spec.root_directory;
      pre_deploy_command = [];
      railway_config_file = some spec.railway_config_file;
      watch_patterns = some spec.watch_patterns;
    })
    else instance_named name specs

abbrev asked : String → Request → String
asked name (query_instance id) = id
asked name _ = name

-- The service that the last request for an instance asks for.
abbrev last_asked : String → List Request → String
last_asked name [] = name
last_asked name (r ∷ h) = last_asked (asked name r) h

last_asked-snoc :
    (name id : String) (h : List Request) → last_asked name (h ++ query_instance id ∷ []) ≡ id
last_asked-snoc name id [] = refl
last_asked-snoc name id (r ∷ h) = last_asked-snoc (asked name r) id h

abbrev settled_remote : Remote
settled_remote = record {
  project = λ h. got 200 "" [] (some (map linked service_specs));
  instance_of = λ h. got 200 "" [] (some (instance_named (last_asked "" h) service_specs));
  change = λ h. unreached "offline";
}

abbrev quiet : Settings
quiet = record settings { env = ("SKIP_REDEPLOY", "1") ∷ ("RAILWAY_TOKEN", "secret") ∷ [] }

each-Among : {A : Type 0} (P : A → Type 0) (xs : List A) → Each P xs → (x : A) → Among x xs → P x
each-Among P [] h x m = absurd m
each-Among P (y ∷ ys) (hy, h) x (inl same) = subst P (sym same) hy
each-Among P (y ∷ ys) (hy, h) x (inr m) = each-Among P ys h x m

linked-HasServices : HasServices quiet (λ name. name) (services_map [] (map linked service_specs))
unfolding services_map get put keep is_ours normalize_repo trim trim_start trim_end is_space
    match_repo match_here after_prefix to_lower
linked-HasServices =
    each-Among
      (λ spec.
        IsService quiet (λ name. name) spec
          (get (services_map [] (map linked service_specs)) spec.name))
      service_specs
      (
        (refl, (tt, (refl, tt))),
        (
          (refl, (tt, (refl, tt))),
          (
            (refl, (tt, (refl, tt))),
            (
              (refl, (tt, (refl, tt))),
              (
                (refl, (tt, (refl, tt))),
                ((refl, (tt, (refl, tt))), ((refl, (tt, (refl, tt))), tt)),
              ),
            ),
          ),
        ),
      )

fitting :
    (spec : ServiceSpec)
    → Among spec service_specs
    → is_nothing (instance_input quiet settled_remote spec (instance_named spec.name service_specs))
      ≡ true
unfolding instance_input watch_patterns_equal same_texts sorted insert_sorted
    norm_railway_config_path trim starts_with get text_le
fitting =
    each-Among
      (λ spec.
        is_nothing
          (instance_input quiet settled_remote spec (instance_named spec.name service_specs))
        ≡ true)
      service_specs (refl, (refl, (refl, (refl, (refl, (refl, (refl, tt)))))))

settled : IsSettled quiet settled_remote (λ name. name)
unfolding read_gql
settled = record {
  services = λ h edges same.
      subst (λ es. HasServices quiet (λ name. name) (services_map [] es)) (ap (data_of []) same)
        linked-HasServices;
  instances = λ h spec si listed same.
      subst (λ o. is_nothing (instance_input quiet settled_remote spec o) ≡ true)
        (ap (λ name. instance_named name service_specs) (sym (last_asked-snoc "" spec.name h))
          ∙ ap (data_of none) same)
        (fitting spec listed);
}

run-IsQuery_example : Everything IsQuery (run quiet settled_remote machine []).1
unfolding get
run-IsQuery_example = run-IsQuery quiet settled_remote (λ name. name) settled machine refl refl
