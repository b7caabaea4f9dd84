-- ===== src/Routes/Laws/Tests.antt =====
-- The routes with a store of one policy.
use acip_sidecar.Prelude.{◌≡◌, refl, ◌↔◌, Bool, is_some, Result, ok, List, [], ◌∷◌}
use acip_sidecar.Text.{text}
use acip_sidecar.Policy
use acip_sidecar.Policy.{
  PolicyStore, gemini, anthropic, default_from_env, sorted_names, get, require,
}
use acip_sidecar.Routes.{list_policies}

abbrev store : PolicyStore
store = default_from_env gemini (text "a") anthropic (text "b")

names_run : list_policies store ≡ text "default" ∷ []
unfolding list_policies sorted_names default_from_env acip_sidecar.Assoc.insert
    acip_sidecar.Prelude.Sort.sort acip_sidecar.Policy.list
names_run = refl
