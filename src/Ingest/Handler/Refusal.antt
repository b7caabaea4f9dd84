-- ===== src/Ingest/Handler/Refusal.antt =====
-- When a request is refused for its policy.
use acip_sidecar.Prelude.{◌≡◌, refl, ◌↔◌, err}
use acip_sidecar.Text.{Text}
use acip_sidecar.Headers.{HeaderMap}
use acip_sidecar.Policy.{require}
use acip_sidecar.Reputation.{RepMap}
use acip_sidecar.Ingest.{IngestRequest, Reply, Crates, World, AppState}
use acip_sidecar.Ingest.Decide.{policy_name, refusal}
use acip_sidecar.Ingest.Handler.{ingest_source}
use acip_sidecar.Ingest.Handler.Cases.{Outcome, refused, failed, answered, ingest_source-Outcome}

module _ (c : Crates) (w : World) (s : AppState c) (headers : HeaderMap) (req : IngestRequest) where
  abbrev pub IsUnknown : Type 0
  IsUnknown = (e : Text) × (require s.policies (policy_name c w s headers req) ≡ err e)

  Outcome-IsUnknown :
      (out : Reply × RepMap)
      → Outcome c w s headers req out
      → out.0 ≡ refusal c w s headers req
      → IsUnknown
  Outcome-IsUnknown out (refused e unknown same) h = (e, unknown)
  Outcome-IsUnknown out (failed policy known status message same) h = absurd (cc)
  Outcome-IsUnknown out (answered policy known a) h = absurd (cc (a.built))

  IsUnknown-refused :
      (out : Reply × RepMap)
      → Outcome c w s headers req out
      → IsUnknown
      → out.0 ≡ refusal c w s headers req
  IsUnknown-refused out (refused e unknown same) u = rw same refl
  IsUnknown-refused out (failed policy known status message same) (e, u) = absurd (cc)
  IsUnknown-refused out (answered policy known a) (e, u) = absurd (cc)

-- The reply is the refusal that lists the policies exactly if the policy named by the header is not
-- in the store.
pub ingest_source-refused_iff :
    (c : Crates) (w : World) (s : AppState c) (headers : HeaderMap) (req : IngestRequest)
    → ((ingest_source c w s headers req).0 ≡ refusal c w s headers req)
      ↔ IsUnknown c w s headers req
ingest_source-refused_iff c w s headers req = (
  Outcome-IsUnknown c w s headers req _ (ingest_source-Outcome c w s headers req),
  IsUnknown-refused c w s headers req _ (ingest_source-Outcome c w s headers req),
)
