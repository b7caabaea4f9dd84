-- ===== src/Reputation/History.antt =====
-- The store of reputation.rs against the history of observations.
use acip_sidecar.Prelude.{
  ℕ, ◌+◌, ◌%◌, ◌^◌, ◌≡◌, refl, List, [], ◌∷◌, arith, min, ltb, if◌then◌else◌, u64_max, Bool-cases,
  inl, inr,
}
use acip_sidecar.Text.{Text}
use acip_sidecar.Assoc.{lookup}
use acip_sidecar.Reputation.{ReputationRecord, Observation, observe, RepMap, stored, record_inner}
use acip_sidecar.Reputation.Laws.{concerns, lookup-record_inner}

-- The store after a sequence of requests.
unfoldable pub record_all : RepMap → List Observation → RepMap
record_all map [] = map
record_all map (obs ∷ rest) = record_all (record_inner map obs).0 rest

-- The observations under a key: how many, how many of them suspected attacks, and their scores.
abbrev pub if_concerns : Observation → Text → ℕ → ℕ
if_concerns obs k n = if concerns obs k then n else 0

pub seen : Text → List Observation → ℕ
seen k [] = 0
seen k (obs ∷ rest) = if_concerns obs k 1 + seen k rest

pub attacks : Text → List Observation → ℕ
attacks k [] = 0
attacks k (obs ∷ rest) =
    if_concerns obs k (if ltb 0 obs.threat_score then 1 else 0) + attacks k rest

pub total_score : Text → List Observation → ℕ
total_score k [] = 0
total_score k (obs ∷ rest) = if_concerns obs k obs.threat_score + total_score k rest

-- A record that counts `n` observations and `a` attacks, of the scores `t` together.
pub record Counts (rec : ReputationRecord) (n a t : ℕ) : Type 0 where
  pub seen_count : rec.seen_count ≡ n % 2 ^ 64
  pub suspected : rec.suspected_attack_count ≡ a % 2 ^ 64
  pub risk : rec.risk_score ≡ min t u64_max

observe-Counts :
    (obs : Observation) (rec : ReputationRecord) (n a t : ℕ)
    → Counts rec n a t
    → Counts
        (observe obs rec)
        (n + 1)
        (a + (if ltb 0 obs.threat_score then 1 else 0))
        (t + obs.threat_score)
unfolding observe
observe-Counts obs rec n a t h = elim (Bool-cases (ltb 0 obs.threat_score)) [
  | inl attack ↦ record { seen_count = ground arith; suspected = ground arith; risk = ground arith }
  | inr harmless ↦ record {
    seen_count = ground arith;
    suspected = ground arith;
    risk = ground arith;
  }
]

step-Counts :
    (map : RepMap) (obs : Observation) (k : Text) (n a t : ℕ)
    → Counts (stored map k) n a t
    → Counts
        (stored (record_inner map obs).0 k)
        (n + if_concerns obs k 1)
        (a + if_concerns obs k (if ltb 0 obs.threat_score then 1 else 0))
        (t + if_concerns obs k obs.threat_score)
step-Counts map obs k n a t h = elim (Bool-cases (concerns obs k)) [
  | inl e ↦ rw (lookup-record_inner, e) (observe-Counts obs (stored map k) n a t h)
  | inr e ↦
      rw (lookup-record_inner, e)
        (record {
          seen_count = omega (arith, h.seen_count);
          suspected = omega (arith, h.suspected);
          risk = omega (arith, h.risk);
        })
]

history-Counts :
    (map : RepMap) (k : Text) (history : List Observation) (n a t : ℕ)
    → Counts (stored map k) n a t
    → Counts
        (stored (record_all map history) k)
        (n + seen k history)
        (a + attacks k history)
        (t + total_score k history)
unfolding record_all seen attacks total_score
history-Counts map k [] n a t h = record {
  seen_count = omega (arith, h.seen_count);
  suspected = omega (arith, h.suspected);
  risk = omega (arith, h.risk);
}
history-Counts map k (obs ∷ rest) n a t h =
    let ih = history-Counts (record_inner map obs).0 k rest _ _ _ (step-Counts map obs k n a t h) in
    record {
      seen_count = omega (arith, ih.seen_count);
      suspected = omega (arith, ih.suspected);
      risk = omega (arith, ih.risk);
    }

-- Whatever the requests, in their order: the record of every key of a store that began empty counts
-- the observations made under the key and the suspected attacks among them, modulo 2^64, and its
-- risk is the sum of their threat scores, held at the greatest `u64`.
pub record_all-Counts :
    (k : Text) (history : List Observation)
    → Counts
        (stored (record_all [] history) k)
        (seen k history)
        (attacks k history)
        (total_score k history)
unfolding lookup
record_all-Counts k history =
    let h =
      history-Counts [] k history 0 0 0
        (record { seen_count = refl; suspected = refl; risk = refl }) in
    record {
      seen_count = omega (arith, h.seen_count);
      suspected = omega (arith, h.suspected);
      risk = omega (arith, h.risk);
    }
