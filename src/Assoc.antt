-- ===== src/Assoc.antt =====
-- `HashMap<String, V>` and `BTreeMap<String, V>` as association lists. A B-tree's list is in the
-- order of its keys; no code depends on the order of a hash map.
pub mod Laws
use acip_sidecar.Prelude.{Bool, Option, none, some, List, [], ◌∷◌, map, is_some, if◌then◌else◌}
use acip_sidecar.Text.{Text, text_eq}

abbrev pub Assoc {ℓ} : Type ℓ → Type ℓ
Assoc V = List (Text × V)

module _ {ℓ} {V : Type ℓ} where
  unfoldable pub lookup : Text → Assoc V → Option V
  lookup k [] = none
  lookup k ((j, v) ∷ m) = if text_eq j k then some v else lookup k m

  -- Writes the value of a key, where it stands or at the end.
  unfoldable pub insert : Text → V → Assoc V → Assoc V
  insert k v [] = (k, v) ∷ []
  insert k v ((j, w) ∷ m) = if text_eq j k then (k, v) ∷ m else (j, w) ∷ insert k v m

  abbrev pub keys : Assoc V → List Text
  keys = map (λ e. e.0)
