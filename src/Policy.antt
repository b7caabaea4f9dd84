-- ===== src/Policy.antt =====
-- model_policy.rs and policy_store.rs: which models a policy names, and the store of policies.
pub mod Laws
pub mod Names
pub mod Tests
use acip_sidecar.Prelude.{
  Bool, true, false, ◌||◌, Option, none, some, List, [], ◌∷◌, ◌++◌, Result, ok, err, ◌>>=◌, is_some,
  if◌then◌else◌,
}
use acip_sidecar.Prelude.Sort.{sort}
use acip_sidecar.Text.{Text, text, text_eq, trim, Unicode}
use acip_sidecar.Text.Order.{text_order}
use acip_sidecar.Assoc.{Assoc, lookup, insert, keys}
use acip_sidecar.Json.{Fallible, context, ok_or}

pub data Provider : Type 0 where
  gemini anthropic : Provider

-- `{:?}`.
pub debug : Provider → Text
debug gemini = text "Gemini"
debug anthropic = text "Anthropic"

unfoldable pub parse : Unicode → Text → Option Provider
parse u s =
    let v = u.to_lowercase (trim s) in
    if text_eq v (text "gemini") || text_eq v (text "google")
    then some gemini
    else if text_eq v (text "anthropic") || text_eq v (text "claude")
    then some anthropic
    else none

pub record ModelRef : Type 0 where
  pub provider : Provider
  pub model : Text

pub record PolicyConfig : Type 0 where
  pub l1 : ModelRef
  pub l2 : ModelRef

abbrev pub default : PolicyConfig
default = record {
  l1 = record { provider = gemini; model = text "gemini-2.0-flash" };
  l2 = record { provider = anthropic; model = text "claude-3-5-haiku-latest" };
}

-- A policies file: what `read_to_string` gave and serde_json's parser are parameters.
unfoldable pub load :
    (read : Fallible Text) (from_str : Text → Fallible (Assoc PolicyConfig)) (path : Text)
    → Fallible (Assoc PolicyConfig)
load read from_str path = do
  raw ← context read (text "failed reading policies file: " ++ path)
  pf ← context (from_str raw) (text "invalid JSON in policies file: " ++ path)
  if is_some (lookup (text "default") pf)
      then ok pf
      else err (text "policies file must include a 'default' policy")

pub record PolicyStore : Type 0 where
  pub policies : Assoc PolicyConfig

unfoldable pub from_file : Assoc PolicyConfig → PolicyStore
from_file pf = record { policies = pf }

unfoldable pub default_from_env : Provider → Text → Provider → Text → PolicyStore
default_from_env l1_provider l1_model l2_provider l2_model = record {
  policies =
      insert (text "default")
        (record {
          l1 = record { provider = l1_provider; model = l1_model };
          l2 = record { provider = l2_provider; model = l2_model };
        })
        [];
}

unfoldable pub list : PolicyStore → List Text
list store = keys store.policies

-- `let mut names = store.list(); names.sort();`.
unfoldable pub sorted_names : PolicyStore → List Text
unfolding list
sorted_names store = sort text_order (list store)

unfoldable pub get : PolicyStore → Text → Option PolicyConfig
get store name = lookup name store.policies

unfoldable pub require : PolicyStore → Text → Fallible PolicyConfig
unfolding get
require store name = ok_or (get store name) (text "unknown policy: " ++ name)
