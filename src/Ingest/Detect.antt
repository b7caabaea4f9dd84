-- ===== src/Ingest/Detect.antt =====
-- What ingest.rs reads off a request: the host of its URL, and whether it is HTML or SVG.
use acip_sidecar.Prelude.{
  Bool, true, false, not, ◌||◌, Option, none, some, List, [], ◌∷◌, if◌then◌else◌, any, is_empty,
  unwrap_or,
}
use mathlib.Core.Option
use acip_sidecar.Text.{Text, text, text_eq, trim, trim_start, starts_with, contains, join}
use acip_sidecar.Ingest.{SourceType, html, pdf, Url, XmlNode, Crates}

abbrev pub is_html_type : SourceType → Bool
is_html_type html = true
is_html_type _ = false

abbrev pub is_pdf_type : SourceType → Bool
is_pdf_type pdf = true
is_pdf_type _ = false

module _ (c : Crates) where
  abbrev lower : Text → Text
  lower s = (c.unicode).to_lowercase s

  host_of : Url → Option Text
  host_of parsed =
      if text_eq parsed.scheme (text "http") || text_eq parsed.scheme (text "https")
      then Option.map lower parsed.host_str
      else none

  unfoldable pub host_from_url : Text → Option Text
  unfolding host_of
  host_from_url url = elim (c.parse_url url) [ none ↦ none | some parsed ↦ host_of parsed ]

  unfoldable pub is_html_like : SourceType → Text → Text → Bool
  is_html_like source_type content_type body =
      let ct = lower content_type in
      let t = lower (trim_start body) in
      if is_html_type source_type
      then true
      else if contains ct (text "text/html") || contains ct (text "application/xhtml")
      then true
      else starts_with t (text "<!doctype html")
        || starts_with t (text "<html")
        || contains t (text "<body")

  unfoldable pub is_svg_like : Text → Text → Bool
  is_svg_like content_type body =
      let t = lower (trim_start body) in
      if contains (lower content_type) (text "image/svg")
      then true
      else starts_with t (text "<svg") || contains t (text "<svg")

  -- One round of the loop over the descendants.
  visible_part : XmlNode → List Text → List Text
  visible_part node rest =
      let skip = any (λ a. text_eq a (text "script") || text_eq a (text "style")) node.tags in
      let txt = trim (unwrap_or node.content []) in
      if not node.is_text
      then rest
      else if skip
      then rest
      else if is_empty txt
      then rest
      else txt ∷ rest

  unfoldable pub visible_parts : List XmlNode → List Text
  unfolding visible_part
  visible_parts [] = []
  visible_parts (node ∷ nodes) = visible_part node (visible_parts nodes)

  unfoldable pub svg_to_text : Text → Text
  unfolding visible_parts
  svg_to_text svg = elim (c.parse_xml svg) [
    | none ↦ []
    | some nodes ↦ join (text "\n") (visible_parts nodes)
  ]
