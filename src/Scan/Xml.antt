-- ===== src/Scan/Xml.antt =====
-- xml_scan.rs.
pub mod Severity
use acip_sidecar.Prelude.{
  ℕ, Bool, true, false, List, [], ◌∷◌, Option, none, some, map, get_elem?, if◌then◌else◌, push,
  is_empty, saturating_add_u8,
}
use acip_sidecar.Prelude.Sort.{sort, dedup}
use acip_sidecar.Text.{Text, text, as_bytes}
use acip_sidecar.Text.Order.{text_order}
use acip_sidecar.Scan.Matcher.{AhoCorasick}

pub record XmlScanResult : Type 0 where
  pub has_doctype : Bool
  pub has_entity : Bool
  pub has_external_ref : Bool
  pub has_scriptish : Bool
  pub matches : List Text
  pub severity : ℕ

abbrev pub default : XmlScanResult
default = record {
  has_doctype = false;
  has_entity = false;
  has_external_ref = false;
  has_scriptish = false;
  matches = [];
  severity = 0;
}

-- The names of `PATTERNS`.
pub data Pattern : Type 0 where
  doctype entity dtd_system dtd_public href xlink_href src http https : Pattern
  script_tag onload onerror javascript : Pattern

unfoldable pub name : Pattern → Text
name doctype = text "doctype"
name entity = text "entity"
name dtd_system = text "dtd_system"
name dtd_public = text "dtd_public"
name href = text "href"
name xlink_href = text "xlink_href"
name src = text "src"
name http = text "http"
name https = text "https"
name script_tag = text "script_tag"
name onload = text "onload"
name onerror = text "onerror"
name javascript = text "javascript"

abbrev pub patterns : List (Pattern × Text)
patterns =
    (doctype, text "<!doctype")
    ∷ (entity, text "<!entity")
    ∷ (dtd_system, text " system")
    ∷ (dtd_public, text " public")
    ∷ (href, text "href=")
    ∷ (xlink_href, text "xlink:href=")
    ∷ (src, text "src=")
    ∷ (http, text "http://")
    ∷ (https, text "https://")
    ∷ (script_tag, text "<script")
    ∷ (onload, text "onload=")
    ∷ (onerror, text "onerror=")
    ∷ (javascript, text "javascript:")
    ∷ []

-- The `match name` of the loop over the matches.
flag : Pattern → XmlScanResult → XmlScanResult
flag doctype out = record out { has_doctype = true }
flag entity out = record out { has_entity = true }
flag dtd_system out = record out { has_doctype = true }
flag dtd_public out = record out { has_doctype = true }
flag http out = record out { has_external_ref = true }
flag https out = record out { has_external_ref = true }
flag href out = out
flag xlink_href out = out
flag src out = out
flag script_tag out = record out { has_scriptish = true }
flag onload out = record out { has_scriptish = true }
flag onerror out = record out { has_scriptish = true }
flag javascript out = record out { has_scriptish = true }

pub note : Option (Pattern × Text) → XmlScanResult → XmlScanResult
unfolding flag name
note none out = out
note (some (p, _)) out = flag p (record out { matches = push out.matches (name p) })

pub note_all : List ℕ → XmlScanResult → XmlScanResult
unfolding note
note_all [] out = out
note_all (idx ∷ rest) out = note_all rest (note (get_elem? patterns idx) out)

abbrev weigh : Bool → ℕ → ℕ → ℕ
weigh b n sev = if b then saturating_add_u8 sev n else sev

pub severity_of : XmlScanResult → ℕ
severity_of out =
    weigh out.has_external_ref 1
      (weigh out.has_scriptish 2 (weigh out.has_doctype 2 (weigh out.has_entity 3 0)))

pub finish : XmlScanResult → XmlScanResult
unfolding severity_of
finish out = record out {
  matches = dedup text_order (sort text_order out.matches);
  severity = severity_of out;
}

unfoldable pub scan : AhoCorasick → Text → XmlScanResult
unfolding note_all finish
scan ac input =
    let found = note_all (ac.find_iter (map (λ p. p.1) patterns) (as_bytes input)) default in
    if is_empty input then default else finish found
