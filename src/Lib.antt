-- ===== src/Lib.antt =====
-- acip_sidecar: a verification library for the ACIP Sidecar, the service that takes external content
-- in, prepares it, asks a model whether it is safe, and tells the caller whether tools may be used.
--
-- How the program's parts interact. `ingest_source` (src/ingest.rs) looks up the policy that a
-- header names, decodes the text or the bytes, and prepares the text for the model: PDF and SVG go
-- to a helper process (src/extract.rs), everything else stays in the process, where markup is
-- scanned (src/html_scan.rs, src/xml_scan.rs), windowed and normalized (src/normalize.rs). The
-- prepared text is assessed (src/threat.rs), the assessment is recorded under the source and its
-- host (src/reputation.rs), and the text is cut and fenced. A decision comes from the stub modes or
-- from the two-tier engine (src/sentry.rs), and passes the cap for markup, the caller's
-- authorization and the reputation policy (src/reputation_policy.rs) before the response is built.
--
-- The files, and what they model:
--   Ingest            the request, the response, the state of src/state.rs and the outside world
--   Ingest/Detect     host_from_url, is_html_like, is_svg_like and svg_to_text
--   Ingest/Window     fence_external, apply_head_tail, the window and the tightening of the caps
--   Ingest/Gate       enforce_markup_tools_cap and enforce_tools_authorization
--   Ingest/Prepare    decoding, and the preparation of the text on both paths
--   Ingest/Decide     the sentry modes and the response; the source has this code twice, once for
--                     extracted and once for other content, and the copies are the same
--   Ingest/Handler    ingest_source, in the order of its early returns
--   Headers           the policy header (src/routes.rs) and the tools header (src/ingest.rs)
--   Routes            the routes of src/routes.rs that show the policies
--   Threat            src/threat.rs
--   Scan              src/html_scan.rs and src/xml_scan.rs
--   Normalize         the walk of src/normalize.rs over a document
--   Sentry            src/sentry.rs: decisions and their schema, reading a model's output, the model
--                     clients, the engine
--   Policy            src/model_policy.rs and src/policy_store.rs
--   Reputation        src/reputation.rs; Reputation/Escalation is src/reputation_policy.rs
--   Reputation/File   the store in a JSON file: load_or_create, persist and its record, as effects on
--                     a disk (Reputation/File/Effects)
--   TokenAuth         src/token_auth.rs
--   Secrets           src/secrets.rs
--   Startup           src/startup.rs, src/server_config.rs, and what src/main.rs does about the token;
--                     Startup/Main is the main of src/main.rs up to the router
--   Identity          the user and group of the service in src/main.rs: lookups, check, dropping root
--   Settings          src/state.rs, with the defaults of src/config.rs
--   Status            src/status.rs
--   Extract           src/extract.rs as the service sees it: requests, caps, the run of the helper
--   Extract/Sandbox   what the child does before it runs the helper: limits, and the network filter
--   Extractor         what runs in the helper: Extractor/Svg and Extractor/Pdf are extract_svg_text
--                     and extract_pdf_hybrid of src/extract.rs, Extractor/Program is
--                     src/bin/acip-extract.rs
--   Service           the router of src/app.rs, with the route that src/main.rs adds, and a service that
--                     answers a sequence of requests
--   Acipctl           src/bin/acipctl.rs: Acipctl/Config edits the configuration, Acipctl/Restart
--                     restarts the service, Acipctl/Client sends requests, Acipctl/Command is
--                     handle_config
--   Text, Json, Floats, Environment, Assoc, Decimal, Prelude: what Rust's strings, numbers and maps,
--                     serde_json's values and the environment are here
--
-- State and operations. The state that outlives a request is the reputation map; handlers and the
-- stores' `record` take it and give the new one back. What outlives a process is the disk: a function
-- that writes gives the list of its effects, down to single bytes, so that a theorem can speak of the
-- disk after any part of them, as after a crash. Fallible code gives a Result, and each early return
-- of a handler is a case of a function by clauses; a panic is an error of its own. Texts are lists of
-- code points, with their UTF-8 bytes where the code works on bytes; u8 and u64 are natural numbers
-- with their saturation and wrap-around written out. The maps are association lists: their order
-- plays no part, since lists of names are sorted.
--
-- Parameters. Crates and the operating system are records of functions that the definitions take:
-- Unicode tables, f64, html5ever, roxmltree, aho_corasick, base64, sha2, url, serde_json,
-- jsonschema, toml_edit, reqwest, IP addresses, the process environment, the clock, libc's lookups
-- and ids, libseccomp, the programs that PDF extraction starts, and how each step on files and
-- processes turns out. Laws are asked of these: Unicode lowercases ASCII; a number below 2^53 times a
-- factor of f64 between 0 and 1 does not grow, and one half is between 0 and 1; serde_json reads what
-- it prints; libc's lookups are content with buffers of some length; and an entry that toml_edit
-- assigned is the one that is read.
--
-- Bounds and fuel. Almost every recursion is structural, on a text, a list or a document; the loop
-- of constant_time_eq has its number of rounds, the longer length, as an argument, and the search
-- backwards of extract_json_only shortens its text. Two loops run on fuel. The one that removes
-- entity declarations from SVG shortens the text in each round, and has one round more than the text
-- has characters. The lookups of names double a buffer until libc is content, and have as many
-- rounds as the theorem on them asks for.
--
-- Not modelled: the parsing of TOML and of command lines, sockets, logging, the syncing of files,
-- and the interleaving of requests that run at the same time: a service answers one request after
-- another. They are left to crates and the operating system.
pub mod Prelude
pub mod Text
pub mod Threat
pub mod Scan
pub mod Json
pub mod Floats
pub mod Environment
pub mod Assoc
pub mod Headers
pub mod Policy
pub mod Sentry
pub mod Reputation
pub mod Decimal
pub mod Normalize
pub mod TokenAuth
pub mod Settings
pub mod Acipctl
pub mod Extractor
pub mod Identity
pub mod Status
pub mod Extract
pub mod Ingest
pub mod Secrets
pub mod Startup
pub mod Routes
pub mod Service
