-- ===== src/Policy/Tests.antt =====
-- A policies file with nothing but its default.
use acip_sidecar.Prelude.{◌≡◌, refl, [], ◌∷◌, ok}
use acip_sidecar.Text.{Text, text}
use acip_sidecar.Assoc.{Assoc}
use acip_sidecar.Policy
use acip_sidecar.Policy.{PolicyConfig, load, from_file}

abbrev file : Assoc PolicyConfig
file = (text "default", Policy.default) ∷ []

loaded : load (ok (text "{}")) (λ raw. ok file) (text "policies.json") ≡ ok file
unfolding load text acip_sidecar.Assoc.lookup acip_sidecar.Text.text_eq
loaded = refl
