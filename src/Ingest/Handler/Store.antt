-- ===== src/Ingest/Handler/Store.antt =====
-- What a request leaves in the reputation store.
use acip_sidecar.Prelude.{◌≡◌, refl}
use acip_sidecar.Headers.{HeaderMap}
use acip_sidecar.Reputation.{RepMap}
use acip_sidecar.Ingest.{
  IngestRequest, Reply, unknown_policy, plain, success, Crates, World, AppState,
}
use acip_sidecar.Ingest.Decide.{store_record, build_response}
use acip_sidecar.Ingest.Handler.{observation_of, recorded, case_of, ingest_source}
use acip_sidecar.Ingest.Handler.Cases.{Outcome, refused, failed, answered, ingest_source-Outcome}

module _ (c : Crates) (w : World) (s : AppState c) (headers : HeaderMap) (req : IngestRequest) where
  -- A response has recorded one observation of the assessment that it shows; any other reply nothing.
  unfoldable pub StoreAfter : Reply → RepMap → Type 0
  StoreAfter (success r) map =
      map
      ≡ (store_record s.backend w.observed_at s.reputation
          (observation_of c w s headers req r.threat)).0
  StoreAfter (unknown_policy name names) map = map ≡ s.reputation
  StoreAfter (plain status message) map = map ≡ s.reputation

  Outcome-StoreAfter :
      (out : Reply × RepMap) → Outcome c w s headers req out → StoreAfter out.0 out.1
  unfolding StoreAfter build_response case_of recorded
  Outcome-StoreAfter out (refused e unknown same) = rw same refl
  Outcome-StoreAfter out (failed policy known status message same) = rw same refl
  Outcome-StoreAfter out (answered policy known a) = rw a.built (a.stored)

-- A request that gets a response has recorded one observation in the reputation store, of its
-- source, its host and the assessment in the response; every other request, whatever its error,
-- leaves the store as it was.
pub ingest_source-store :
    (c : Crates) (w : World) (s : AppState c) (headers : HeaderMap) (req : IngestRequest)
    → StoreAfter c w s headers req
        (ingest_source c w s headers req).0
        (ingest_source c w s headers req).1
ingest_source-store c w s headers req =
    Outcome-StoreAfter c w s headers req _ (ingest_source-Outcome c w s headers req)
