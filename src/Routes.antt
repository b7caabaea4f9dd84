-- ===== src/Routes.antt =====
-- The routes of routes.rs that show the policies.
pub mod Laws
use acip_sidecar.Prelude.{Option, none, some, List}
use acip_sidecar.Text.{Text}
use acip_sidecar.Headers.{HeaderMap, policy_name_from_headers}
use acip_sidecar.Policy.{PolicyConfig, PolicyStore, sorted_names, get}

-- The reply of `get_policy`: the policy with its name, or the error about an unknown one.
pub data PolicyReply : Type 0 where
  found_policy : Text → PolicyConfig → PolicyReply
  no_policy : Text → List Text → PolicyReply

unfoldable pub list_policies : PolicyStore → List Text
list_policies store = sorted_names store

policy_reply : PolicyStore → Text → Option PolicyConfig → PolicyReply
policy_reply store name none = no_policy name (sorted_names store)
policy_reply store name (some p) = found_policy name p

unfoldable pub get_policy : PolicyStore → HeaderMap → PolicyReply
unfolding policy_reply
get_policy store headers =
    let name = policy_name_from_headers headers in policy_reply store name (get store name)
