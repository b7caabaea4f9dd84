-- ===== src/Scan/Xml/Severity.antt =====
-- The severity of an XML scan.
use acip_sidecar.Prelude.{
  ℕ, ◌+◌, ◌≤◌, ◌≡◌, refl, ◌∙◌, Bool, true, false, ◌||◌, List, [], ◌∷◌, Option, none, some, arith,
  get_elem?, if◌then◌else◌, any, is_empty, map,
}
use acip_sidecar.Text.{Text, as_bytes}
use acip_sidecar.Scan.Matcher.{AhoCorasick}
use acip_sidecar.Scan.Xml.{
  XmlScanResult, default, Pattern, doctype, entity, dtd_system, dtd_public, http, https, script_tag,
  onload, onerror, javascript, patterns, flag, note, note_all, severity_of, finish, scan,
}

-- Whether what a match reports is a pattern of a kind.
abbrev of_kind : (Pattern → Bool) → Option (Pattern × Text) → Bool
of_kind kind none = false
of_kind kind (some (p, _)) = kind p

abbrev pub reported : (Pattern → Bool) → List ℕ → Bool
reported kind found = any (λ idx. of_kind kind (get_elem? patterns idx)) found

abbrev pub is_doctype : Pattern → Bool
is_doctype doctype = true
is_doctype dtd_system = true
is_doctype dtd_public = true
is_doctype _ = false

abbrev pub is_entity : Pattern → Bool
is_entity entity = true
is_entity _ = false

abbrev pub is_external : Pattern → Bool
is_external http = true
is_external https = true
is_external _ = false

abbrev pub is_scriptish : Pattern → Bool
is_scriptish script_tag = true
is_scriptish onload = true
is_scriptish onerror = true
is_scriptish javascript = true
is_scriptish _ = false

-- The flags that one match sets, and those that all set.
record Flags (old new : XmlScanResult) (of : (Pattern → Bool) → Bool) : Type 0 where
  declared : new.has_doctype ≡ (old.has_doctype || of is_doctype)
  entities : new.has_entity ≡ (old.has_entity || of is_entity)
  external : new.has_external_ref ≡ (old.has_external_ref || of is_external)
  scriptish : new.has_scriptish ≡ (old.has_scriptish || of is_scriptish)

or_false : (b : Bool) → b ≡ (b || false)
or_false b = ground arith

note-Flags :
    (o : Option (Pattern × Text)) (out : XmlScanResult)
    → Flags out (note o out) (λ kind. of_kind kind o)
unfolding note flag
note-Flags none out = record {
  declared = or_false _;
  entities = or_false _;
  external = or_false _;
  scriptish = or_false _;
}
note-Flags (some (p, shape)) out = record {
  declared = ground arith;
  entities = ground arith;
  external = ground arith;
  scriptish = ground arith;
}

or_chain : (o a b n f : Bool) → n ≡ (o || a) → f ≡ (n || b) → f ≡ (o || (a || b))
or_chain o a b n f h k = ground arith

note_all-Flags :
    (found : List ℕ) (out : XmlScanResult)
    → Flags out (note_all found out) (λ kind. reported kind found)
unfolding note_all
note_all-Flags [] out = record {
  declared = or_false _;
  entities = or_false _;
  external = or_false _;
  scriptish = or_false _;
}
note_all-Flags (idx ∷ found) out =
    let one = note-Flags (get_elem? patterns idx) out in
    let rest = note_all-Flags found (note (get_elem? patterns idx) out) in
    record {
      declared = or_chain _ _ _ _ _ one.declared rest.declared;
      entities = or_chain _ _ _ _ _ one.entities rest.entities;
      external = or_chain _ _ _ _ _ one.external rest.external;
      scriptish = or_chain _ _ _ _ _ one.scriptish rest.scriptish;
    }

abbrev points : Bool → ℕ → ℕ
points b n = if b then n else 0

total : (d e x s : Bool) → ℕ
total d e x s = points e 3 + points d 2 + points s 2 + points x 1

points-le : (b : Bool) (n : ℕ) → points b n ≤ n
points-le true n = omega arith
points-le false n = omega arith

total-le : (d e x s : Bool) → total d e x s ≤ 8
unfolding total
total-le d e x s = omega (arith, points-le e 3, points-le d 2, points-le s 2, points-le x 1)

severity_of-total :
    (out : XmlScanResult)
    → severity_of out ≡ total out.has_doctype out.has_entity out.has_external_ref out.has_scriptish
unfolding severity_of total
severity_of-total out = ground arith

total-same :
    (d e x s d' e' x' s' : Bool)
    → d ≡ d'
    → e ≡ e'
    → x ≡ x'
    → s ≡ s'
    → total d e x s ≡ total d' e' x' s'
total-same d e x s d' e' x' s' p1 p2 p3 p4 = rw (p1, p2, p3, p4) refl

abbrev pub xml_points : List ℕ → ℕ
xml_points found =
    points (reported is_entity found) 3
    + points (reported is_doctype found) 2
    + points (reported is_scriptish found) 2
    + points (reported is_external found) 1

severity_of-points :
    (out : XmlScanResult) (found : List ℕ)
    → Flags default out (λ kind. reported kind found)
    → severity_of out ≡ xml_points found
unfolding total
severity_of-points out found h =
    severity_of-total out ∙ total-same _ _ _ _ _ _ _ _ h.declared h.entities h.external h.scriptish

-- The severity of a scan of a text that is not empty is three points for an entity declaration, two
-- for a document type or a system or public identifier, two for script and one for an external
-- reference, as the automaton reported them: at most 8.
pub scan-xml_severity :
    (ac : AhoCorasick) (input : Text)
    → is_empty input ≡ false
    → ((scan ac input).severity
        ≡ xml_points (ac.find_iter (map (λ p. p.1) patterns) (as_bytes input)))
      × ((scan ac input).severity ≤ 8)
unfolding scan finish total
scan-xml_severity ac input filled =
    let found = ac.find_iter (map (λ p. p.1) patterns) (as_bytes input) in
    let e = severity_of-points (note_all found default) found (note_all-Flags found default) in
    rw filled (e, rw e (total-le _ _ _ _))
