-- ===== src/Policy/Names.antt =====
-- The list of names that a refusal shows.
use acip_sidecar.Prelude.{◌≡◌, refl, ◌∙◌, Bool, List, [], ◌∷◌, any, is_some, Bool-cases, inl, inr}
use acip_sidecar.Prelude.Sort.Laws.{any-sort}
use acip_sidecar.Text.{Text, text_eq}
use acip_sidecar.Text.Order.{text_order}
use acip_sidecar.Assoc.{Assoc, lookup, keys}
use acip_sidecar.Policy.{PolicyConfig, PolicyStore, list, sorted_names, get}

-- Whether a name is in a list.
abbrev pub listed : Text → List Text → Bool
listed name = any (λ x. text_eq x name)

listed-keys :
    (name : Text) (m : Assoc PolicyConfig) → listed name (keys m) ≡ is_some (lookup name m)
unfolding lookup
listed-keys name [] = refl
listed-keys name ((j, p) ∷ m) = elim (Bool-cases (text_eq j name)) [
  | inl same ↦ rw same refl
  | inr other ↦ rw other (listed-keys name m)
]

-- The sorted list of policies that a refusal and the route `list_policies` show has exactly the
-- names under which a policy is found.
pub listed-sorted_names :
    (store : PolicyStore) (name : Text)
    → listed name (sorted_names store) ≡ is_some (get store name)
unfolding sorted_names list get
listed-sorted_names store name =
    any-sort text_order (λ x. text_eq x name) (keys store.policies)
    ∙ listed-keys name store.policies
