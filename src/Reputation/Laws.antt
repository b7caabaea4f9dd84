-- ===== src/Reputation/Laws.antt =====
-- One observation against the records of the store of reputation.rs.
use acip_sidecar.Prelude.{
  ℕ, ◌≡◌, refl, ◌∙◌, sym, ap, ◌≢◌, Bool, false, ◌||◌, Option, none, some, [], ◌∷◌, arith,
  if◌then◌else◌, unwrap_or, Bool-cases, inl, inr,
}
use acip_sidecar.Text.{Text, text, text_eq}
use acip_sidecar.Text.Laws.{text_eq_iff}
use acip_sidecar.Assoc.{lookup}
use acip_sidecar.Assoc.Laws.{lookup-insert, text_eq-false}
use acip_sidecar.Reputation.{
  ReputationRecord, Observation, fresh, observe, RepMap, upsert_locked, source_key, host_key,
  record_host, record_inner,
}

first : Text → ℕ
first [] = 0
first (c ∷ s) = c

-- A source's key is no host's key.
pub source_key-ne-host_key : (obs : Observation) (host : Text) → source_key obs ≢ host_key host
unfolding text first
source_key-ne-host_key obs host e = absurd (omega (arith, ap first e))

abbrev written : RepMap → Observation → Text → Option ReputationRecord
written map obs k = some (observe obs (unwrap_or (lookup k map) (fresh k)))

lookup-upsert_locked :
    (map : RepMap) (key k : Text) (obs : Observation)
    → lookup k (upsert_locked map key obs)
      ≡ (if text_eq key k then written map obs k else lookup k map)
unfolding upsert_locked
lookup-upsert_locked map key k obs = elim (Bool-cases (text_eq key k)) [
  | inl e ↦ rw (lookup-insert, e) (ap (written map obs) ((text_eq_iff key k).0 e))
  | inr e ↦ rw (lookup-insert, e) refl
]

-- Whether an observation counts under a key.
abbrev pub concerns_host : Option Text → Text → Bool
concerns_host none k = false
concerns_host (some host) k = text_eq (host_key host) k

unfoldable pub concerns : Observation → Text → Bool
concerns obs k = text_eq (source_key obs) k || concerns_host obs.host k

lookup-record_host :
    (map : RepMap) (obs : Observation) (h : Option Text) (k : Text)
    → lookup k (record_host map obs h).0
      ≡ (if concerns_host h k then written map obs k else lookup k map)
unfolding record_host
lookup-record_host map obs none k = refl
lookup-record_host map obs (some host) k = lookup-upsert_locked map (host_key host) k obs

-- The key of a source is not that of a host.
not_host : (obs : Observation) (h : Option Text) → concerns_host h (source_key obs) ≡ false
not_host obs none = refl
not_host obs (some host) =
    text_eq-false (host_key host) (source_key obs) (λ e. source_key-ne-host_key obs host (sym e))

-- One observation writes, by one `observe` each, the records of the keys that it concerns, and no
-- other.
pub lookup-record_inner :
    (map : RepMap) (obs : Observation) (k : Text)
    → lookup k (record_inner map obs).0 ≡ (
        if concerns obs k
        then some (observe obs (unwrap_or (lookup k map) (fresh k)))
        else lookup k map)
unfolding record_inner concerns
lookup-record_inner map obs k = elim (Bool-cases (text_eq (source_key obs) k)) [
  | inl e ↦
      let same = (text_eq_iff (source_key obs) k).0 e in
      let off : concerns_host obs.host k ≡ false = rw same at (not_host obs obs.host) in
      rw (lookup-record_host, off, e, lookup-upsert_locked, e) refl
  | inr e ↦
      let kept : lookup k (upsert_locked map (source_key obs) obs) ≡ lookup k map =
        lookup-upsert_locked map (source_key obs) k obs ∙ (rw e) in
      rw (lookup-record_host, e) (rw kept refl)
]
