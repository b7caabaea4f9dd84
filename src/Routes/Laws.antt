-- ===== src/Routes/Laws.antt =====
-- The route that shows a policy, against the endpoint that uses it.
pub mod Tests
use acip_sidecar.Prelude.{◌≡◌, refl, ◌∙◌, sym, ap, ◌↔◌, Option, none, some, List, Result, ok, err}
use acip_sidecar.Text.{Text}
use acip_sidecar.Headers.{HeaderMap, policy_name_from_headers}
use acip_sidecar.Policy.{PolicyConfig, PolicyStore, sorted_names, get, require}
use acip_sidecar.Routes.{PolicyReply, found_policy, no_policy, policy_reply, get_policy}

shown :
    (store : PolicyStore) (name : Text) (o : Option PolicyConfig) (p : PolicyConfig)
    → get store name ≡ o
    → (policy_reply store name o ≡ found_policy name p) ↔ (require store name ≡ ok p)
unfolding policy_reply require
shown store name none p e = (λ h. absurd (cc), λ h. absurd (cc))
shown store name (some q) p e = (λ h. cc, λ h. cc)

-- The route `get_policy` shows a policy exactly if it is the one that a request to the endpoint with
-- the same headers is decided by.
pub get_policy_iff :
    (store : PolicyStore) (headers : HeaderMap) (p : PolicyConfig)
    → (get_policy store headers ≡ found_policy (policy_name_from_headers headers) p)
      ↔ (require store (policy_name_from_headers headers) ≡ ok p)
unfolding get_policy
get_policy_iff store headers p =
    shown store (policy_name_from_headers headers) (get store (policy_name_from_headers headers)) p
      refl
