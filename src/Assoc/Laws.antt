-- ===== src/Assoc/Laws.antt =====
-- A read after a write.
use acip_sidecar.Prelude.{◌≡◌, refl, ◌≢◌, false, some, [], ◌∷◌, arith, if◌then◌else◌}
use acip_sidecar.Text.{Text, text_eq}
use acip_sidecar.Text.Laws.{text_eq_iff, text_eq_refl}
use acip_sidecar.Assoc.{Assoc, lookup, insert}

module _ {ℓ} {V : Type ℓ} where
  pub lookup-insert :
      (k j : Text) (v : V) (m : Assoc V)
      → lookup j (insert k v m) ≡ (if text_eq k j then some v else lookup j m)
  unfolding lookup insert
  lookup-insert k j v [] = refl
  lookup-insert k j v ((i, w) ∷ m) =
      ground (arith, text_eq_iff k j, text_eq_iff i k, text_eq_iff i j, lookup-insert k j v m)

  pub lookup-insert_self : (k : Text) (v : V) (m : Assoc V) → lookup k (insert k v m) ≡ some v
  lookup-insert_self k v m = simp (lookup-insert, text_eq_refl)

pub text_eq-false : (s t : Text) → s ≢ t → text_eq s t ≡ false
text_eq-false s t h = ground (arith, text_eq_iff s t)
