-- ===== src/Service/Laws.antt =====
-- What clients can do to the service without its token, and with it.
use acip_sidecar.Prelude.{
  ℕ, ◌+◌, ◌≤◌, ◌≡◌, refl, ◌∙◌, ◌≢◌, Option, none, some, List, [], ◌∷◌, ◌++◌, Result, ok, err, arith,
  length, length-append, if◌then◌else◌, ◌==◌,
}
use acip_sidecar.Text.{Text}
use acip_sidecar.Headers.{HeaderMap}
use acip_sidecar.TokenAuth.{Verdict, pass, missing, invalid, token_auth_middleware}
use acip_sidecar.Reputation.{Observation, RepMap, record_inner, record_file}
use acip_sidecar.Reputation.History.{record_all}
use acip_sidecar.Ingest.{
  IngestRequest, Reply, unknown_policy, plain, success, Crates, World, AppState, Backend, in_memory,
  json_file,
}
use acip_sidecar.Ingest.Decide.{store_record}
use acip_sidecar.Ingest.Handler.Store.{StoreAfter, ingest_source-store}
use acip_sidecar.Service.{
  HttpRequest, Axum, Endpoint, at_health, at_schema, at_policies, at_policy, at_status,
  at_ingest_source, HttpReply, healthy, unauthorized, unrouted, endpoint, json_body, ingest, handle,
  guarded, route, serve, serve_all,
}

-- A map that came from another by recording observations, `n` at most.
abbrev pub History : RepMap → ℕ → RepMap → Type 0
History before n map = (obs : List Observation) × (map ≡ record_all before obs) × (length obs ≤ n)

same-History : (before map : RepMap) (n : ℕ) → map ≡ before → History before n map
unfolding record_all
same-History before map n h = ([], h, omega arith)

record_all-append :
    (before : RepMap) (xs ys : List Observation)
    → record_all before (xs ++ ys) ≡ record_all (record_all before xs) ys
unfolding record_all
record_all-append before [] ys = refl
record_all-append before (x ∷ xs) ys = record_all-append (record_inner before x).0 xs ys

History-trans :
    (before between after : RepMap) (n m : ℕ)
    → History before n between
    → History between m after
    → History before (n + m) after
History-trans before between after n m (xs, h, k) (ys, h', k') =
    (xs ++ ys, h' ∙ rw (h, record_all-append) refl, omega (arith, length-append xs ys))

store_record-History :
    (backend : Backend) (now : ℕ) (before : RepMap) (obs : Observation)
    → History before 1 (store_record backend now before obs).0
unfolding store_record record_file record_all
store_record-History in_memory now before obs = (obs ∷ [], refl, omega arith)
store_record-History json_file now before obs = (
  record obs { now_unix = if obs.now_unix == 0 then now else obs.now_unix } ∷ [],
  refl,
  omega arith,
)

-- A request that the token lets through counts.
abbrev weight : Verdict → ℕ
weight pass = 1
weight missing = 0
weight invalid = 0

abbrev pub admitted : Option Text → List (World × HttpRequest) → ℕ
admitted token [] = 0
admitted token ((w, r) ∷ rest) =
    weight (token_auth_middleware token r.headers) + admitted token rest

-- What anybody gets: the answer of `/health`, and the refusals.
pub data Public : HttpReply → Type 0 where
  health_reply : Public healthy
  refusal : (v : Verdict) → v ≢ pass → Public (unauthorized v)
  no_route : (status : ℕ) → Public (unrouted status)

module _ (axum : Axum) (version : Text) (token : Option Text) (c : Crates) where
  StoreAfter-History :
      (w : World) (s : AppState c) (headers : HeaderMap) (req : IngestRequest) (reply : Reply)
      (map : RepMap)
      → StoreAfter c w s headers req reply map
      → History s.reputation 1 map
  unfolding StoreAfter
  StoreAfter-History w s headers req (success r) map h =
      let (obs, e, n) = store_record-History s.backend w.observed_at s.reputation _ in
      (obs, h ∙ e, n)
  StoreAfter-History w s headers req (unknown_policy name names) map h =
      same-History s.reputation map 1 h
  StoreAfter-History w s headers req (plain status message) map h =
      same-History s.reputation map 1 h

  ingest-History :
      (w : World) (s : AppState c) (headers : HeaderMap) (body : Result ℕ IngestRequest)
      → History s.reputation 1 (ingest axum version token c w s headers body).1
  unfolding ingest
  ingest-History w s headers (err e) = same-History s.reputation _ 1 refl
  ingest-History w s headers (ok req) =
      StoreAfter-History w s headers req _ _ (ingest_source-store c w s headers req)

  handle-History :
      (w : World) (s : AppState c) (r : HttpRequest) (e : Endpoint)
      → History s.reputation 1 (handle axum version token c w s r e).1
  unfolding handle
  handle-History w s r at_health = same-History s.reputation _ 1 refl
  handle-History w s r at_schema = same-History s.reputation _ 1 refl
  handle-History w s r at_policies = same-History s.reputation _ 1 refl
  handle-History w s r at_policy = same-History s.reputation _ 1 refl
  handle-History w s r at_status = same-History s.reputation _ 1 refl
  handle-History w s r at_ingest_source = ingest-History w s r.headers (json_body axum r)

  guarded-History :
      (w : World) (s : AppState c) (r : HttpRequest) (e : Endpoint) (v : Verdict)
      → History s.reputation (weight v) (guarded axum version token c w s r e v).1
  unfolding guarded
  guarded-History w s r e pass = handle-History w s r e
  guarded-History w s r e missing = same-History s.reputation _ 0 refl
  guarded-History w s r e invalid = same-History s.reputation _ 0 refl

  route-History :
      (w : World) (s : AppState c) (r : HttpRequest) (e : Option Endpoint)
      → History s.reputation
          (weight (token_auth_middleware token r.headers))
          (route axum version token c w s r e).1
  unfolding route handle
  route-History w s r none = same-History s.reputation _ _ refl
  route-History w s r (some at_health) = same-History s.reputation _ _ refl
  route-History w s r (some at_schema) = guarded-History w s r at_schema _
  route-History w s r (some at_policies) = guarded-History w s r at_policies _
  route-History w s r (some at_policy) = guarded-History w s r at_policy _
  route-History w s r (some at_status) = guarded-History w s r at_status _
  route-History w s r (some at_ingest_source) = guarded-History w s r at_ingest_source _

  -- Whatever requests the service answers, and in whatever order, its reputation store is what it was
  -- at first with a list of observations recorded one after another, at most one for each request
  -- that the token lets through. Requests that it does not let through leave the store as it was.
  pub serve_all-History :
      (s : AppState c) (requests : List (World × HttpRequest))
      → History s.reputation (admitted token requests) (serve_all axum version token c s requests).1
  unfolding serve_all serve
  serve_all-History s [] = same-History s.reputation _ 0 refl
  serve_all-History s ((w, r) ∷ rest) =
      History-trans s.reputation _ _ _ _ (route-History w s r (endpoint r))
        (serve_all-History (record s { reputation = (serve axum version token c w s r).1 }) rest)

  guarded-Public :
      (w : World) (s : AppState c) (r : HttpRequest) (e : Endpoint) (v : Verdict)
      → v ≢ pass
      → Public (guarded axum version token c w s r e v).0
  unfolding guarded
  guarded-Public w s r e pass h = absurd (h refl)
  guarded-Public w s r e missing h = refusal missing h
  guarded-Public w s r e invalid h = refusal invalid h

  route-Public :
      (w : World) (s : AppState c) (r : HttpRequest) (e : Option Endpoint)
      → token_auth_middleware token r.headers ≢ pass
      → Public (route axum version token c w s r e).0
  unfolding route handle
  route-Public w s r none h = no_route (axum.unmatched r)
  route-Public w s r (some at_health) h = health_reply
  route-Public w s r (some at_schema) h = guarded-Public w s r at_schema _ h
  route-Public w s r (some at_policies) h = guarded-Public w s r at_policies _ h
  route-Public w s r (some at_policy) h = guarded-Public w s r at_policy _ h
  route-Public w s r (some at_status) h = guarded-Public w s r at_status _ h
  route-Public w s r (some at_ingest_source) h = guarded-Public w s r at_ingest_source _ h

  -- A request that the token does not let through gets nothing but the answer of the health route or
  -- a refusal, whatever its method, path and body: no policy, no status, no schema and no decision.
  pub serve-Public :
      (w : World) (s : AppState c) (r : HttpRequest)
      → token_auth_middleware token r.headers ≢ pass
      → Public (serve axum version token c w s r).0
  unfolding serve
  serve-Public w s r h = route-Public w s r (endpoint r) h
