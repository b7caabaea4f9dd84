-- ===== src/Scan/Html/Severity.antt =====
-- The severity of an HTML scan.
use acip_sidecar.Prelude.{
  ℕ, ◌+◌, ◌≤◌, ◌≡◌, refl, ◌∙◌, Bool, true, false, ◌||◌, List, [], ◌∷◌, Option, none, some, arith,
  get_elem?, if◌then◌else◌, any, is_empty, map,
}
use acip_sidecar.Text.{Text, as_bytes, to_ascii_lowercase}
use acip_sidecar.Scan.Matcher.{AhoCorasick}
use acip_sidecar.Scan.Html.{
  HtmlScanResult, default, Pattern, script_tag, javascript_uri, onload, onerror, onclick, http,
  https, data_uri, iframe_tag, object_tag, embed_tag, meta_refresh, patterns, flag, note, note_all,
  has_generic_on_attr, note_on_attr, severity_of, finish, scan,
}

-- Whether what a match reports is a pattern of a kind.
abbrev of_kind : (Pattern → Bool) → Option (Pattern × Text) → Bool
of_kind kind none = false
of_kind kind (some (p, _)) = kind p

abbrev pub reported : (Pattern → Bool) → List ℕ → Bool
reported kind found = any (λ idx. of_kind kind (get_elem? patterns idx)) found

abbrev pub is_scriptish : Pattern → Bool
is_scriptish script_tag = true
is_scriptish javascript_uri = true
is_scriptish _ = false

abbrev pub is_handler : Pattern → Bool
is_handler onload = true
is_handler onerror = true
is_handler onclick = true
is_handler _ = false

abbrev pub is_external : Pattern → Bool
is_external http = true
is_external https = true
is_external data_uri = true
is_external _ = false

abbrev pub is_data : Pattern → Bool
is_data data_uri = true
is_data _ = false

abbrev pub is_embed : Pattern → Bool
is_embed iframe_tag = true
is_embed object_tag = true
is_embed embed_tag = true
is_embed _ = false

abbrev pub is_refresh : Pattern → Bool
is_refresh meta_refresh = true
is_refresh _ = false

-- The flags that one match sets, and those that all set.
record Flags (old new : HtmlScanResult) (of : (Pattern → Bool) → Bool) : Type 0 where
  scriptish : new.has_scriptish ≡ (old.has_scriptish || of is_scriptish)
  handler : new.has_event_handler ≡ (old.has_event_handler || of is_handler)
  external : new.has_external_ref ≡ (old.has_external_ref || of is_external)
  data_ref : new.has_data_uri ≡ (old.has_data_uri || of is_data)
  embed : new.has_embed ≡ (old.has_embed || of is_embed)
  refresh : new.has_meta_refresh ≡ (old.has_meta_refresh || of is_refresh)

or_false : (b : Bool) → b ≡ (b || false)
or_false b = ground arith

or_true : (b : Bool) → true ≡ (b || true)
or_true b = ground arith

note-Flags :
    (o : Option (Pattern × Text)) (out : HtmlScanResult)
    → Flags out (note o out) (λ kind. of_kind kind o)
unfolding note flag
note-Flags none out = record {
  scriptish = or_false _;
  handler = or_false _;
  external = or_false _;
  data_ref = or_false _;
  embed = or_false _;
  refresh = or_false _;
}
note-Flags (some (p, shape)) out = record {
  scriptish = ground arith;
  handler = ground arith;
  external = ground arith;
  data_ref = ground arith;
  embed = ground arith;
  refresh = ground arith;
}

or_chain : (o a b n f : Bool) → n ≡ (o || a) → f ≡ (n || b) → f ≡ (o || (a || b))
or_chain o a b n f h k = ground arith

note_all-Flags :
    (found : List ℕ) (out : HtmlScanResult)
    → Flags out (note_all found out) (λ kind. reported kind found)
unfolding note_all
note_all-Flags [] out = record {
  scriptish = or_false _;
  handler = or_false _;
  external = or_false _;
  data_ref = or_false _;
  embed = or_false _;
  refresh = or_false _;
}
note_all-Flags (idx ∷ found) out =
    let one = note-Flags (get_elem? patterns idx) out in
    let rest = note_all-Flags found (note (get_elem? patterns idx) out) in
    record {
      scriptish = or_chain _ _ _ _ _ one.scriptish rest.scriptish;
      handler = or_chain _ _ _ _ _ one.handler rest.handler;
      external = or_chain _ _ _ _ _ one.external rest.external;
      data_ref = or_chain _ _ _ _ _ one.data_ref rest.data_ref;
      embed = or_chain _ _ _ _ _ one.embed rest.embed;
      refresh = or_chain _ _ _ _ _ one.refresh rest.refresh;
    }

abbrev points : Bool → ℕ → ℕ
points b n = if b then n else 0

abbrev pub html_points : List ℕ → Bool → ℕ
html_points found on_attr =
    points (reported is_scriptish found) 2
    + points (reported is_handler found || on_attr) 2
    + points (reported is_embed found) 2
    + points (reported is_refresh found) 1
    + points (reported is_data found) 1
    + points (reported is_external found) 1

total : (s h e r d x : Bool) → ℕ
total s h e r d x = points s 2 + points h 2 + points e 2 + points r 1 + points d 1 + points x 1

points-le : (b : Bool) (n : ℕ) → points b n ≤ n
points-le true n = omega arith
points-le false n = omega arith

total-le : (s h e r d x : Bool) → total s h e r d x ≤ 9
unfolding total
total-le s h e r d x = omega (
  arith,
  points-le s 2,
  points-le h 2,
  points-le e 2,
  points-le r 1,
  points-le d 1,
  points-le x 1,
)

severity_of-total :
    (out : HtmlScanResult)
    → severity_of out
      ≡ total out.has_scriptish out.has_event_handler out.has_embed out.has_meta_refresh
          out.has_data_uri out.has_external_ref
unfolding severity_of total
severity_of-total out = ground arith

total-same :
    (s h e r d x s' h' e' r' d' x' : Bool)
    → s ≡ s'
    → h ≡ h'
    → e ≡ e'
    → r ≡ r'
    → d ≡ d'
    → x ≡ x'
    → total s h e r d x ≡ total s' h' e' r' d' x'
total-same s h e r d x s' h' e' r' d' x' p1 p2 p3 p4 p5 p6 = rw (p1, p2, p3, p4, p5, p6) refl

or_handler : (on_attr h b : Bool) → h ≡ b → (if on_attr then true else h) ≡ (b || on_attr)
or_handler on_attr h b e = ground arith

noted-total :
    (on_attr : Bool) (out : HtmlScanResult)
    → severity_of (note_on_attr on_attr out)
      ≡ total out.has_scriptish
          (if on_attr then true else out.has_event_handler)
          out.has_embed
          out.has_meta_refresh
          out.has_data_uri
          out.has_external_ref
unfolding note_on_attr
noted-total true out = severity_of-total (note_on_attr true out)
noted-total false out = severity_of-total out

severity_of-points :
    (out : HtmlScanResult) (found : List ℕ) (on_attr : Bool)
    → Flags default out (λ kind. reported kind found)
    → severity_of (note_on_attr on_attr out) ≡ html_points found on_attr
unfolding total
severity_of-points out found on_attr h =
    noted-total on_attr out
    ∙ total-same _ _ _ _ _ _ _ _ _ _ _ _ h.scriptish (or_handler on_attr _ _ h.handler) h.embed
        h.refresh h.data_ref h.external

-- The severity of a scan of a text that is not empty is the sum of two points each for script or
-- javascript, for an event handler (by name, or `on…=`) and for an embedded frame or object, and of
-- one point each for a refresh, a data URI and an external reference, as the automaton reported
-- them: at most 9, and never saturated.
pub scan-severity :
    (ac : AhoCorasick) (input : Text)
    → is_empty input ≡ false
    → ((scan ac input).severity
        ≡ html_points
            (ac.find_iter (map (λ p. p.1) patterns) (as_bytes input))
            (has_generic_on_attr (map to_ascii_lowercase (as_bytes input))))
      × ((scan ac input).severity ≤ 9)
unfolding scan finish total
scan-severity ac input filled =
    let found = ac.find_iter (map (λ p. p.1) patterns) (as_bytes input) in
    let on_attr = has_generic_on_attr (map to_ascii_lowercase (as_bytes input)) in
    let e =
      severity_of-points (note_all found default) found on_attr (note_all-Flags found default) in
    rw filled (e, rw e (total-le _ _ _ _ _ _))
