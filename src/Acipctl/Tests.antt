-- ===== src/Acipctl/Tests.antt =====
-- The command-line tool at concrete inputs.
use acip_sidecar.Prelude.{◌≡◌, refl, some, true}
use acip_sidecar.Text.{text}
use acip_sidecar.Headers.{allow_tools_from_headers, policy_name_from_headers}
use acip_sidecar.TokenAuth.{missing, token_auth_middleware}
use acip_sidecar.Ingest.Samples.{unicode}
use acip_sidecar.Acipctl.Client.{request_headers}
use acip_sidecar.Acipctl.Client.Laws.{selected, request_headers_lem}
use acip_sidecar.Acipctl.Restart.{shell_escape, compose_line}
use acip_sidecar.Acipctl.Restart.Words.{words, compose_words, words-compose_line}

quoted_name : shell_escape (text "it's") ≡ text "'it'\\''s'"
unfolding shell_escape text acip_sidecar.Text.starts_with
quoted_name = refl

words-compose_line_example :
    words (compose_line (text "a b;'c.yml") (text "acip-sidecar"))
    ≡ some (compose_words (text "a b;'c.yml") (text "acip-sidecar"))
words-compose_line_example = words-compose_line (text "a b;'c.yml") (text "acip-sidecar")

request_headers_lem_example :
    (allow_tools_from_headers unicode (request_headers true (some (text "strict"))) ≡ true)
    × (policy_name_from_headers (request_headers true (some (text "strict")))
        ≡ selected (some (text "strict")))
    × (token_auth_middleware (some (text "t")) (request_headers true (some (text "strict")))
        ≡ missing)
request_headers_lem_example = request_headers_lem unicode true (some (text "strict")) (text "t")
