-- ===== src/Extractor/Svg.antt =====
-- `extract_svg_text` of extract.rs. The positions are counted in bytes, in the lowercased text where
-- the source searches that, and are used on the text itself: a position that is none of its
-- characters' panics.
pub mod Loop
pub mod Laws
use mathlib.Core.Option
use acip_sidecar.Prelude.{
  ℕ, zero, suc, ◌+◌, ◌-◌, Bool, true, false, not, ◌||◌, Option, none, some, List, [], ◌∷◌, ◌++◌,
  map, Result, ok, err, ◌>>=◌, ltb, ◌==◌, if◌then◌else◌, any, unwrap_or, length, is_empty, push,
}
use acip_sidecar.Text.{
  Text, text, text_eq, trim, starts_with, replace, join, encode, from_utf8, Unicode,
}
use acip_sidecar.Decimal.{to_decimal}
use acip_sidecar.Scan.Matcher.{AhoCorasick}
use acip_sidecar.Scan.Xml
use acip_sidecar.Scan.Xml.{XmlScanResult}
use acip_sidecar.Extract.{svg, ExtractRequest, ExtractResponse, truncate_chars}
use acip_sidecar.Ingest.{XmlNode}
use acip_sidecar.Extractor.{failed, panicked, exhausted, Outcome}

-- `str::find`, of a pattern that is not empty: the byte at which it begins.
pub find : Text → Text → Option ℕ
find [] p = none
find (c ∷ s) p =
    if starts_with (c ∷ s) p then some 0 else Option.map (λ n. length (encode c) + n) (find s p)

-- A text split at a byte, where a character begins or the text ends.
pub split_at : ℕ → Text → Option (Text × Text)
split_at n [] = if n == 0 then some ([], []) else none
split_at n (c ∷ s) =
    let rest = split_at (n - length (encode c)) s in
    if n == 0
    then some ([], c ∷ s)
    else if ltb n (length (encode c))
    then none
    else Option.map (λ (p : Text × Text). (c ∷ p.0, p.1)) rest

-- `raw.replace_range(…, "")` at the front of the second part, up to a byte.
cut : ℕ → Text → Text → Outcome Text
unfolding split_at
cut n front rest = elim (split_at n rest) [
  | none ↦ err panicked
  | some (removed, back) ↦ ok (front ++ back)
]

doctype_at : Text → Option (Text × Text) → Outcome Text
unfolding cut find
doctype_at raw none = err panicked
doctype_at raw (some (front, rest)) = elim (find rest (text "]>")) [
  | none ↦ ok raw
  | some end ↦ cut (end + 2) front rest
]

entity_at : (Text → Outcome Text) → Text → Option (Text × Text) → Outcome Text
unfolding cut find
entity_at again raw none = err panicked
entity_at again raw (some (front, rest)) = elim (find rest (text ">")) [
  | none ↦ ok raw
  | some end ↦ cut (end + 1) front rest >>= again
]

parts_of : XmlNode → List Text → List Text
parts_of node rest =
    let skip = any (λ a. text_eq a (text "script") || text_eq a (text "style")) node.tags in
    let txt = trim (unwrap_or node.content []) in
    if not node.is_text
    then rest
    else if skip
    then rest
    else if is_empty txt
    then rest
    else txt ∷ rest

-- The loop over the descendants.
pub text_parts : List XmlNode → List Text
unfolding parts_of
text_parts [] = []
text_parts (node ∷ nodes) = parts_of node (text_parts nodes)

default_max_chars : ExtractRequest → ℕ
default_max_chars req = unwrap_or req.max_output_chars 500000

abbrev scan_warnings : XmlScanResult → List Text
scan_warnings scan =
    if ltb 0 scan.severity
    then (text "xml_scan_severity:" ++ to_decimal scan.severity)
      ∷ map (λ m. text "xml_scan:" ++ m) scan.matches
    else []

svg_parse_failed : ExtractResponse
svg_parse_failed = record {
  succeeded = false;
  kind = svg;
  content = [];
  warnings = text "svg_parse_failed" ∷ [];
  stats = record { pages = none; text_chars = 0; ocr_used = false; ocr_chars = 0 };
}

svg_response : ExtractRequest → List Text → List XmlNode → ExtractResponse
unfolding text_parts default_max_chars
svg_response req warnings nodes =
    let (content, did_trunc) =
      truncate_chars (join (text "\n") (text_parts nodes)) (default_max_chars req) in
    record {
      succeeded = true;
      kind = svg;
      content = content;
      warnings = if did_trunc then push warnings (text "output_truncated") else warnings;
      stats = record { pages = none; text_chars = length content; ocr_used = false; ocr_chars = 0 };
    }

module _ (u : Unicode) where
  pub strip_doctype : Text → Outcome Text
  unfolding doctype_at
  strip_doctype raw = elim (find (u.to_lowercase raw) (text "<!doctype")) [
    | none ↦ ok raw
    | some start ↦ doctype_at raw (split_at start raw)
  ]

  -- `while let Some(pos) = …`, on fuel.
  pub drop_entities : ℕ → Text → Outcome Text
  unfolding entity_at
  drop_entities zero raw = err exhausted
  drop_entities (suc fuel) raw = elim (find (u.to_lowercase raw) (text "<!entity")) [
    | none ↦ ok raw
    | some pos ↦ entity_at (drop_entities fuel) raw (split_at pos raw)
  ]

  -- A round of the loop shortens the text, so that its length is fuel enough.
  pub strip_declarations : XmlScanResult → Text → Outcome Text
  unfolding strip_doctype drop_entities
  strip_declarations scan raw =
      if scan.has_doctype || scan.has_entity
      then (do
        no_doctype ← strip_doctype raw
        no_entities ← drop_entities (suc (length no_doctype)) no_doctype
        ok (replace no_entities (text "&xxe;") []))
      else ok raw

  module _ (matcher : AhoCorasick) (parse : Text → Option (List XmlNode)) where
    parsed : ExtractRequest → XmlScanResult → Text → ExtractResponse
    unfolding svg_parse_failed svg_response
    parsed req scan raw = elim (parse raw) [
      | none ↦ svg_parse_failed
      | some nodes ↦ svg_response req (scan_warnings scan) nodes
    ]

    pub extract_raw : ExtractRequest → Text → Outcome ExtractResponse
    unfolding parsed strip_declarations
    extract_raw req raw0 =
        let scan = Xml.scan matcher raw0 in
        do raw ← strip_declarations scan raw0; ok (parsed req scan raw)

    unfoldable pub extract_svg_text : ExtractRequest → List ℕ → Outcome ExtractResponse
    unfolding extract_raw
    extract_svg_text req bytes = elim (from_utf8 bytes) [
      | none ↦ err (failed (text "svg must be utf-8"))
      | some raw0 ↦ extract_raw req raw0
    ]
