-- ===== src/Reputation.antt =====
-- reputation.rs: what is remembered of the sources of content, and the two stores of it.
pub mod Laws
pub mod History
pub mod Escalation
pub mod File
pub mod Tests
use acip_sidecar.Prelude.{
  ℕ, ◌+◌, ◌^◌, ◌%◌, Bool, Option, none, some, List, [], ◌∷◌, ◌++◌, ltb, ◌==◌, if◌then◌else◌,
  saturating_add_u64, unwrap_or,
}
use acip_sidecar.Text.{Text, text}
use acip_sidecar.Assoc.{Assoc, lookup, insert}

pub record ReputationRecord : Type 0 where
  pub key : Text
  pub seen_count : ℕ
  pub suspected_attack_count : ℕ
  pub last_seen_unix : ℕ
  pub last_attack_types : List Text
  pub risk_score : ℕ

pub record Observation : Type 0 where
  pub source_id : Text
  pub host : Option Text
  pub threat_score : ℕ
  pub attack_types : List Text
  pub now_unix : ℕ

-- `ReputationRecord { key, ..Default::default() }`.
abbrev pub fresh : Text → ReputationRecord
fresh key = record {
  key = key;
  seen_count = 0;
  suspected_attack_count = 0;
  last_seen_unix = 0;
  last_attack_types = [];
  risk_score = 0;
}

-- The counters are `u64` and wrap in a release build.
abbrev pub inc_u64 : ℕ → ℕ
inc_u64 n = (n + 1) % 2 ^ 64

-- What `upsert_locked` does to a record of the map.
unfoldable pub observe : Observation → ReputationRecord → ReputationRecord
observe obs rec =
    let seen = record rec { seen_count = inc_u64 rec.seen_count; last_seen_unix = obs.now_unix } in
    if ltb 0 obs.threat_score
    then record seen {
      suspected_attack_count = inc_u64 rec.suspected_attack_count;
      last_attack_types = obs.attack_types;
      risk_score = saturating_add_u64 rec.risk_score obs.threat_score;
    }
    else seen

abbrev pub RepMap : Type 0
RepMap = Assoc ReputationRecord

unfoldable pub upsert_locked : RepMap → Text → Observation → RepMap
unfolding observe
upsert_locked map key obs = insert key (observe obs (unwrap_or (lookup key map) (fresh key))) map

abbrev pub source_key : Observation → Text
source_key obs = text "source_id:" ++ obs.source_id

abbrev pub host_key : Text → Text
host_key host = text "host:" ++ host

-- `map.get(&key).cloned().unwrap()` of a key that was just written.
abbrev pub stored : RepMap → Text → ReputationRecord
stored map key = unwrap_or (lookup key map) (fresh key)

pub record_host : RepMap → Observation → Option Text → RepMap × List ReputationRecord
unfolding upsert_locked
record_host map obs none = (map, [])
record_host map obs (some host) =
    let map' = upsert_locked map (host_key host) obs in (map', stored map' (host_key host) ∷ [])

-- `InMemoryReputationStore::record`: the new map, and the records that were written.
unfoldable pub record_inner : RepMap → Observation → RepMap × List ReputationRecord
unfolding record_host upsert_locked
record_inner map obs =
    let map' = upsert_locked map (source_key obs) obs in
    let (map'', hosts) = record_host map' obs obs.host in
    (map'', stored map' (source_key obs) ∷ hosts)

-- `JsonFileReputationStore::record`, whose persistence is best effort and does not show in the
-- result: the clock replaces an absent time.
unfoldable pub record_file : ℕ → RepMap → Observation → RepMap × List ReputationRecord
unfolding record_inner
record_file now map obs =
    record_inner map (record obs { now_unix = if obs.now_unix == 0 then now else obs.now_unix })

-- `observation`, at the time `now`.
unfoldable pub observation : ℕ → Text → Option Text → ℕ → List Text → Observation
observation now source_id host threat_score attack_types = record {
  source_id = source_id;
  host = host;
  threat_score = threat_score;
  attack_types = attack_types;
  now_unix = now;
}
