-- ===== src/Ingest/Handler/Default.antt =====
-- A request without a policy header.
use acip_sidecar.Prelude.{◌≡◌, refl, ◌≢◌, [], err}
use acip_sidecar.Text.{text}
use acip_sidecar.Headers.{HeaderMap, get_str, policy_name_from_headers}
use acip_sidecar.Policy.{require}
use acip_sidecar.Policy.Laws.{HasDefault}
use acip_sidecar.Ingest.{IngestRequest, Crates, World, AppState}
use acip_sidecar.Ingest.Decide.{refusal}
use acip_sidecar.Ingest.Handler.{ingest_source}
use acip_sidecar.Ingest.Handler.Refusal.{ingest_source-refused_iff}

without_header :
    (headers : HeaderMap)
    → headers (text "x-acip-policy") ≡ []
    → policy_name_from_headers headers ≡ text "default"
unfolding policy_name_from_headers get_str
without_header headers e = rw (e, get_str) refl

-- With a store that has its default policy, as every store that is loaded or derived has, a request
-- without a policy header is never refused for its policy.
pub ingest_source-default :
    (c : Crates) (w : World) (s : AppState c) (headers : HeaderMap) (req : IngestRequest)
    → HasDefault s.policies
    → headers (text "x-acip-policy") ≡ []
    → (ingest_source c w s headers req).0 ≢ refusal c w s headers req
ingest_source-default c w s headers req has none_given refused =
    let (e, unknown) = (ingest_source-refused_iff c w s headers req).0 refused in
    let named = without_header headers none_given in
    let missing : require s.policies (text "default") ≡ err e = rw named at unknown in
    absurd (cc (has.found))
