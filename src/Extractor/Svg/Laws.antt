-- ===== src/Extractor/Svg/Laws.antt =====
-- The text of an SVG document: bounded, always reached, and the same as what the service extracts
-- in its own process.
use acip_sidecar.Prelude.{
  ℕ, suc, ◌+◌, ◌≤◌, ◌≡◌, refl, ◌∙◌, sym, ap, ◌≢◌, true, false, ◌||◌, Option, none, some, List, [],
  ◌∷◌, arith, ok, err, ◌>>=◌, length, take, length-take, Option-cases, inl, inr, bind-ok,
  ok_injective, if_cases, unwrap_or,
}
use acip_sidecar.Text.{Text, text, join, from_utf8, Unicode}
use acip_sidecar.Scan.Matcher.{AhoCorasick}
use acip_sidecar.Scan.Xml
use acip_sidecar.Scan.Xml.{XmlScanResult}
use acip_sidecar.Extract.{ExtractRequest, ExtractResponse}
use acip_sidecar.Extract.Laws.{truncate_chars-take}
use acip_sidecar.Ingest.{XmlNode, Crates}
use acip_sidecar.Ingest.Detect.{svg_to_text, visible_parts}
use acip_sidecar.Extractor.{failed, panicked, exhausted, Outcome}
use acip_sidecar.Extractor.Svg.{
  find, split_at, cut, doctype_at, strip_doctype, drop_entities, strip_declarations, text_parts,
  parts_of, default_max_chars, svg_response, svg_parse_failed, scan_warnings, parsed, extract_raw,
  extract_svg_text,
}
use acip_sidecar.Extractor.Svg.Loop.{Ends, done, panics, drop_entities-Ends}

-- Not short of fuel.
abbrev IsReached : {A : Type 0} → Outcome A → Type 0
IsReached o = o ≢ err exhausted

bind-IsReached :
    {A B : Type 0} (o : Outcome A) (f : A → Outcome B)
    → IsReached o
    → ((a : A) → IsReached (f a))
    → IsReached (o >>= f)
bind-IsReached (ok a) f h k = k a
bind-IsReached (err e) f h k = λ q. h (ap err (cc))

cut-IsReached : (n : ℕ) (front rest : Text) → IsReached (cut n front rest)
unfolding cut
cut-IsReached n front rest = ground arith

doctype_at-IsReached :
    (raw : Text) (split : Option (Text × Text)) → IsReached (doctype_at raw split)
unfolding doctype_at
doctype_at-IsReached raw none = ground arith
doctype_at-IsReached raw (some (front, rest)) = elim (Option-cases (find rest (text "]>"))) [
  | inl q ↦ rw (q, doctype_at) (ground arith)
  | inr (end, q) ↦ rw (q, doctype_at) (cut-IsReached (end + 2) front rest)
]

module _ (u : Unicode) where
  strip_doctype-IsReached : (raw : Text) → IsReached (strip_doctype u raw)
  unfolding strip_doctype
  strip_doctype-IsReached raw = elim (Option-cases (find (u.to_lowercase raw) (text "<!doctype"))) [
    | inl q ↦ rw (q, strip_doctype) (ground arith)
    | inr (start, q) ↦ rw (q, strip_doctype) (doctype_at-IsReached raw (split_at start raw))
  ]

  Ends-IsReached : (raw : Text) (o : Outcome Text) → Ends u raw o → IsReached o
  Ends-IsReached raw _ (done r settled short) = λ q. cc
  Ends-IsReached raw _ panics = λ q. cc

  strip_declarations-IsReached :
      (scan : XmlScanResult) (raw : Text) → IsReached (strip_declarations u scan raw)
  unfolding strip_declarations
  strip_declarations-IsReached scan raw =
      if_cases IsReached (scan.has_doctype || scan.has_entity)
        (λ _. bind-IsReached (strip_doctype u raw) _ (strip_doctype-IsReached raw) λ s.
          bind-IsReached (drop_entities u (suc (length s)) s) _
            (Ends-IsReached s _ (drop_entities-Ends u (suc (length s)) s (omega arith)))
            (λ r q. cc))
        (λ _ q. cc)

pub cap : ExtractRequest → ℕ
cap req = unwrap_or req.max_output_chars 500000

-- The ends of an extraction. Fuel that runs out is none of them.
pub data Reached (req : ExtractRequest) : Outcome ExtractResponse → Type 0 where
  response : (resp : ExtractResponse) → length resp.content ≤ cap req → Reached req (ok resp)
  refused : (e : Text) → Reached req (err (failed e))
  panic : Reached req (err panicked)

module _ (req : ExtractRequest) (nodes : List XmlNode) where
  svg_response-content :
      (warnings : List Text)
      → (svg_response req warnings nodes).content
        ≡ take (cap req) (join (text "\n") (text_parts nodes))
  unfolding svg_response default_max_chars cap
  svg_response-content warnings = truncate_chars-take _ (cap req)

  svg_response-succeeded :
      (warnings : List Text) → (svg_response req warnings nodes).succeeded ≡ true
  unfolding svg_response
  svg_response-succeeded warnings = refl

  svg_response-short :
      (warnings : List Text) → length (svg_response req warnings nodes).content ≤ cap req
  svg_response-short warnings =
      rw svg_response-content
        (omega (arith, length-take (cap req) (join (text "\n") (text_parts nodes))))

visible_parts-text_parts :
    (c : Crates) (nodes : List XmlNode) → visible_parts c nodes ≡ text_parts nodes
unfolding visible_parts text_parts parts_of
visible_parts-text_parts c [] = refl
visible_parts-text_parts c (node ∷ nodes) = rw (visible_parts-text_parts c nodes) refl

module _ (u : Unicode) (matcher : AhoCorasick) (parse : Text → Option (List XmlNode))
    (req : ExtractRequest) where
  parsed-short :
      (scan : XmlScanResult) (raw : Text)
      → length (parsed u matcher parse req scan raw).content ≤ cap req
  unfolding parsed svg_parse_failed
  parsed-short scan raw = elim (Option-cases (parse raw)) [
    | inl q ↦ rw (q, parsed) (omega arith)
    | inr (nodes, q) ↦ rw (q, parsed) (svg_response-short req nodes (scan_warnings scan))
  ]

  extract_raw-short :
      (raw : Text) (resp : ExtractResponse)
      → extract_raw u matcher parse req raw ≡ ok resp
      → length resp.content ≤ cap req
  unfolding extract_raw
  extract_raw-short raw resp h =
      let (stripped, _, e) = bind-ok (strip_declarations u (Xml.scan matcher raw) raw) _ resp h in
      let same : parsed u matcher parse req (Xml.scan matcher raw) stripped ≡ resp =
        ok_injective e in
      rw (← same) (parsed-short (Xml.scan matcher raw) stripped)

  -- An extraction that is not short of fuel has one of the ends.
  reached :
      (o : Outcome ExtractResponse)
      → IsReached o
      → ((resp : ExtractResponse) → o ≡ ok resp → length resp.content ≤ cap req)
      → Reached req o
  reached (ok resp) h k = response resp (k resp refl)
  reached (err (failed e)) h k = refused e
  reached (err panicked) h k = panic
  reached (err exhausted) h k = absurd (h refl)

  -- Whatever the bytes, the extraction of SVG ends, with a response, an error or a panic: the loop
  -- that removes entity declarations never runs longer than the text has characters. A response's
  -- text is within the cap of the request, or of 500000 characters where it has none.
  pub extract_svg_text-IsReached :
      (bytes : List ℕ) → Reached req (extract_svg_text u matcher parse req bytes)
  unfolding extract_svg_text extract_raw
  extract_svg_text-IsReached bytes = elim (Option-cases (from_utf8 bytes)) [
    | inl q ↦ rw (q, extract_svg_text) (refused _)
    | inr (raw, q) ↦
        rw (q, extract_svg_text)
          (reached (extract_raw u matcher parse req raw)
            (bind-IsReached (strip_declarations u (Xml.scan matcher raw) raw) _
              (strip_declarations-IsReached u (Xml.scan matcher raw) raw) (λ r e. cc))
            (extract_raw-short raw))
  ]

svg_to_text-join :
    (c : Crates) (raw : Text) (nodes : List XmlNode)
    → c.parse_xml raw ≡ some nodes
    → svg_to_text c raw ≡ join (text "\n") (text_parts nodes)
unfolding svg_to_text
svg_to_text-join c raw nodes h =
    rw (h, svg_to_text) (ap (join (text "\n")) (visible_parts-text_parts c nodes))

-- The helper extracts from a document the text that the service extracts in its own process, up to
-- the cap, if the scan saw no document type or entity in it, so that nothing is removed first.
pub extract_svg_text-svg_to_text :
    (c : Crates) (req : ExtractRequest) (bytes : List ℕ) (raw : Text) (nodes : List XmlNode)
    → from_utf8 bytes ≡ some raw
    → ((Xml.scan c.matcher raw).has_doctype || (Xml.scan c.matcher raw).has_entity) ≡ false
    → c.parse_xml raw ≡ some nodes
    → (resp : ExtractResponse) × (extract_svg_text c.unicode c.matcher c.parse_xml req bytes
        ≡ ok resp)
      × (resp.succeeded ≡ true)
      × (resp.content ≡ take (cap req) (svg_to_text c raw))
unfolding extract_svg_text extract_raw strip_declarations parsed
extract_svg_text-svg_to_text c req bytes raw nodes decoded plain parses =
    let scan = Xml.scan c.matcher raw in
    (
      svg_response req (scan_warnings scan) nodes,
      rw (decoded, extract_svg_text, plain, parses, parsed) refl,
      svg_response-succeeded req nodes (scan_warnings scan),
      svg_response-content req nodes (scan_warnings scan)
          ∙ ap (take (cap req)) (sym (svg_to_text-join c raw nodes parses)),
    )
