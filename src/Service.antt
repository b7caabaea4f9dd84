-- ===== src/Service.antt =====
-- app.rs: the router, which puts the routes behind the token and a limit on bodies, and a service
-- that answers requests one after another. axum's answers of its own are parameters.
pub mod Laws
pub mod Tests
use acip_sidecar.Prelude.{
  ℕ, Bool, true, false, ◌||◌, ◌&&◌, Option, none, some, List, [], ◌∷◌, Result, ok, err, ltb,
  if◌then◌else◌, length,
}
use acip_sidecar.Text.{Text, text, text_eq}
use acip_sidecar.Json.{Value}
use acip_sidecar.Headers.{HeaderMap}
use acip_sidecar.TokenAuth.{Verdict, pass, missing, invalid, token_auth_middleware}
use acip_sidecar.Sentry.Schema.{decision_schema}
use acip_sidecar.Reputation.{RepMap}
use acip_sidecar.Routes.{PolicyReply, list_policies, get_policy}
use acip_sidecar.Status.{get_status}
use acip_sidecar.Ingest.{IngestRequest, Reply, Crates, World, AppState}
use acip_sidecar.Ingest.Handler.{ingest_source}

pub record HttpRequest : Type 0 where
  pub method : Text
  pub path : Text
  pub headers : HeaderMap
  pub body : List ℕ

-- axum: the status of a request that matches no route, whether a request says that it is JSON, and
-- the parsing of a body, which fails with a status.
pub record Axum : Type 0 where
  pub unmatched : HttpRequest → ℕ
  pub is_json : HeaderMap → Bool
  pub from_json : List ℕ → Result ℕ IngestRequest

pub data Endpoint : Type 0 where
  at_health at_schema at_policies at_policy at_status at_ingest_source : Endpoint

-- What a client gets: what a handler says, or why none was asked.
pub data HttpReply : Type 0 where
  healthy : HttpReply
  schema : Value → HttpReply
  policies : List Text → HttpReply
  policy : PolicyReply → HttpReply
  status : Value → HttpReply
  ingested : Reply → HttpReply
  rejected : ℕ → HttpReply
  unauthorized : Verdict → HttpReply
  unrouted : ℕ → HttpReply

-- axum's `get` answers HEAD as well.
is_get : Text → Bool
is_get method = text_eq method (text "GET") || text_eq method (text "HEAD")

get_endpoint : Text → Option Endpoint
get_endpoint path =
    if text_eq path (text "/health")
    then some at_health
    else if text_eq path (text "/v1/acip/schema")
    then some at_schema
    else if text_eq path (text "/v1/acip/policies")
    then some at_policies
    else if text_eq path (text "/v1/acip/policy")
    then some at_policy
    else if text_eq path (text "/v1/acip/status")
    then some at_status
    else none

pub endpoint : HttpRequest → Option Endpoint
unfolding is_get get_endpoint
endpoint r =
    if is_get r.method
    then get_endpoint r.path
    else if text_eq r.method (text "POST") && text_eq r.path (text "/v1/acip/ingest_source")
    then some at_ingest_source
    else none

abbrev pub max_body_bytes : ℕ
max_body_bytes = 1500000

-- The extractor `Json`, within the limit on bodies.
pub json_body : Axum → HttpRequest → Result ℕ IngestRequest
json_body axum r =
    if axum.is_json r.headers
    then (if ltb max_body_bytes (length r.body) then err 413 else axum.from_json r.body)
    else err 415

module _ (axum : Axum) (version : Text) (token : Option Text) (c : Crates) where
  pub ingest : World → AppState c → HeaderMap → Result ℕ IngestRequest → HttpReply × RepMap
  ingest w s headers (err e) = (rejected e, s.reputation)
  ingest w s headers (ok req) =
      let (reply, map) = ingest_source c w s headers req in (ingested reply, map)

  -- The handlers.
  pub handle : World → AppState c → HttpRequest → Endpoint → HttpReply × RepMap
  unfolding ingest
  handle w s r at_health = (healthy, s.reputation)
  handle w s r at_schema = (schema decision_schema, s.reputation)
  handle w s r at_policies = (policies (list_policies s.policies), s.reputation)
  handle w s r at_policy = (policy (get_policy s.policies r.headers), s.reputation)
  handle w s r at_status = (status (get_status version w.env s.policy s.policies), s.reputation)
  handle w s r at_ingest_source = ingest w s r.headers (json_body axum r)

  pub guarded : World → AppState c → HttpRequest → Endpoint → Verdict → HttpReply × RepMap
  unfolding handle
  guarded w s r e pass = handle w s r e
  guarded w s r e missing = (unauthorized missing, s.reputation)
  guarded w s r e invalid = (unauthorized invalid, s.reputation)

  -- All routes but that of `/health` are behind the token.
  pub route : World → AppState c → HttpRequest → Option Endpoint → HttpReply × RepMap
  unfolding guarded
  route w s r none = (unrouted (axum.unmatched r), s.reputation)
  route w s r (some at_health) = handle w s r at_health
  route w s r (some e) = guarded w s r e (token_auth_middleware token r.headers)

  unfoldable pub serve : World → AppState c → HttpRequest → HttpReply × RepMap
  unfolding route
  serve w s r = route w s r (endpoint r)

  -- A service that answers requests, each with its view of the outside: the replies, and the map of
  -- the reputation store in the end.
  pub serve_all : AppState c → List (World × HttpRequest) → List HttpReply × RepMap
  unfolding serve
  serve_all s [] = ([], s.reputation)
  serve_all s ((w, r) ∷ rest) =
      let (reply, map) = serve w s r in
      let (replies, end) = serve_all (record s { reputation = map }) rest in (reply ∷ replies, end)
