-- ===== src/Ingest/Prepare/Tests.antt =====
-- The preparation of a concrete page.
use acip_sidecar.Prelude.{◌≡◌, refl, true}
use acip_sidecar.Text.{Text, text}
use acip_sidecar.Ingest.{IngestRequest, html}
use acip_sidecar.Ingest.Samples.{crates, request}
use acip_sidecar.Ingest.Detect.{is_html_like}

abbrev page : IngestRequest
page = record (request (text "<p>hi</p>")) { source_type = html }

is_html : is_html_like crates page.source_type page.content_type (text "<p>hi</p>") ≡ true
unfolding is_html_like text acip_sidecar.Text.contains acip_sidecar.Text.starts_with
    acip_sidecar.Text.ascii_lower acip_sidecar.Text.trim_start
is_html = refl
