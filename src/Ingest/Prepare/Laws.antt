-- ===== src/Ingest/Prepare/Laws.antt =====
-- The text for the model that is prepared from HTML.
use acip_sidecar.Prelude.{◌≤◌, ◌≡◌, true, length}
use acip_sidecar.Text.{Text}
use acip_sidecar.Normalize.Laws.Bound.{length-html_to_text_html5ever_with_limit}
use acip_sidecar.Settings.{NormalizeSettings}
use acip_sidecar.Ingest.{IngestRequest, Crates}
use acip_sidecar.Ingest.Detect.{is_html_like}
use acip_sidecar.Ingest.Prepare.{effective_settings, normalize_text, prepare_inline}

-- The text that is prepared from HTML is no longer than the input cap in effect, which for
-- suspicious markup is the tightened one.
pub prepare_inline-length :
    (c : Crates) (req : IngestRequest) (raw : Text) (settings : NormalizeSettings c.floats)
    → is_html_like c req.source_type req.content_type raw ≡ true
    → length (prepare_inline c req raw settings).model_text
      ≤ (effective_settings c true raw settings).max_input_chars
unfolding prepare_inline normalize_text
prepare_inline-length c req raw settings is_html =
    rw is_html (length-html_to_text_html5ever_with_limit c.parse_document _ _)
