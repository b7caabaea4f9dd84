-- ===== src/Acipctl/Client.antt =====
-- The requests that bin/acipctl.rs sends to the service. reqwest, base64 and serde_json are
-- parameters.
pub mod Laws
use mathlib.Core.List.{reverse}
use acip_sidecar.Prelude.{
  ℕ, Bool, true, false, ◌&&◌, ◌||◌, not, Option, none, some, List, [], ◌∷◌, ◌++◌, Result, ok, err,
  ◌>>=◌, ltb, leb, ◌==◌, if◌then◌else◌, all, any, unwrap_or,
}
use acip_sidecar.Text.{Text, text, text_eq, from_utf8}
use acip_sidecar.Decimal.{to_decimal}
use acip_sidecar.Json.{Value, str, obj, field, end, Fallible, context}
use acip_sidecar.Headers.{HeaderMap}

-- A reply: its status, and its body as JSON.
pub record HttpReply : Type 0 where
  pub status : ℕ
  pub json : Fallible Value

pub record Blocking : Type 0 where
  -- `Client::new().post(url)` with headers and a JSON body, sent.
  pub post : Text → HeaderMap → Value → Fallible HttpReply
  -- `blocking::get(url)`, with the text of its body.
  pub get : Text → Fallible (Fallible Text)
  pub to_string_pretty : Value → Option Text
  pub to_string : Value → Text
  pub encode_b64 : List ℕ → Text

-- What a command printed, and its result.
pub record Printed : Type 0 where
  pub output : Option Text
  pub result : Fallible (Unit {0})

-- `trim_end_matches('/')`.
trim_slashes : Text → Text
trim_slashes [] = []
trim_slashes (c ∷ s) = if c == b'/' then trim_slashes s else c ∷ s

unfoldable pub ingest_url : Text → Text
unfolding trim_slashes
ingest_url base = reverse (trim_slashes (reverse base)) ++ text "/v1/acip/ingest_source"

unfoldable pub health_url : Text → Text
unfolding trim_slashes
health_url base = reverse (trim_slashes (reverse base)) ++ text "/health"

-- The value of a header is sent unless it has control characters, and read by `to_str` if it is
-- visible ASCII.
abbrev is_sendable : Text → Bool
is_sendable = all (λ c. (leb 32 c || c == 9) && not (c == 127))

unfoldable pub to_str : Text → Option Text
to_str v = if all (λ c. (leb 32 c && leb c 126) || c == 9) v then some v else none

given_policy : Option Text → List (Option Text)
unfolding to_str
given_policy none = []
given_policy (some p) = to_str p ∷ []

-- The headers of a request, as the service gets them.
unfoldable pub request_headers : Bool → Option Text → HeaderMap
unfolding given_policy
request_headers allow_tools policy name =
    if text_eq name (text "x-acip-allow-tools")
    then (if allow_tools then some (text "true") ∷ [] else [])
    else if text_eq name (text "x-acip-policy")
    then given_policy policy
    else []

sendable_policy : Option Text → Bool
sendable_policy none = true
sendable_policy (some p) = is_sendable p

abbrev is_success : ℕ → Bool
is_success status = leb 200 status && leb status 299

show_reply : Blocking → HttpReply → Printed
show_reply http reply = elim (context reply.json (text "parse json")) [
  | err e ↦ record { output = none; result = err e }
  | ok v ↦ record {
    output = some (unwrap_or (http.to_string_pretty v) (http.to_string v));
    result =
        if is_success reply.status
        then ok tt
        else err (text "request failed: " ++ to_decimal reply.status);
  }
]

-- A request that is built, sent and shown.
send : Blocking → Text → Bool → Option Text → Value → Printed
unfolding show_reply sendable_policy
send http base allow_tools policy body =
    let sent =
      if sendable_policy policy
      then http.post (ingest_url base) (request_headers allow_tools policy) body
      else err (text "builder error") in
    elim (context sent (text "POST " ++ ingest_url base)) [
      | err e ↦ record { output = none; result = err e }
      | ok reply ↦ show_reply http reply
    ]

-- The JSON of a request, with the content under its key.
unfoldable pub ingest_body : Text → Text → Text → Text → Text → Value
ingest_body source_id source_type content_type key content = obj (
    field (text "source_id") (str source_id) (
      field (text "source_type") (str source_type)
        (field (text "content_type") (str content_type) (field key (str content) end))))

unfoldable pub ingest_bytes :
    Blocking → Text → Text → Text → Text → List ℕ → Bool → Option Text → Printed
unfolding send ingest_body
ingest_bytes http base source_id source_type content_type bytes allow_tools policy =
    send http base allow_tools policy
      (ingest_body source_id source_type content_type (text "bytes_b64") (http.encode_b64 bytes))

-- The command `ingest-text`, of what it reads from its input.
unfoldable pub ingest_text :
    Blocking → Text → Text → Text → Text → List ℕ → Bool → Option Text → Printed
unfolding send ingest_body
ingest_text http base source_id source_type content_type stdin allow_tools policy =
    elim (from_utf8 stdin) [
      | none ↦ record { output = none; result = err (text "read stdin") }
      | some s ↦
          send http base allow_tools policy
            (ingest_body source_id source_type content_type (text "text") s)
    ]

-- The command `health`.
unfoldable pub health : Blocking → Text → Printed
health http base =
    elim (context (http.get (health_url base)) (text "GET " ++ health_url base) >>= λ r.
    context r (text "read response")) [
      | err e ↦ record { output = none; result = err e }
      | ok txt ↦ record { output = some txt; result = ok tt }
    ]
