-- ===== src/Scan/Html.antt =====
-- html_scan.rs.
pub mod OnAttr
pub mod Severity
use acip_sidecar.Prelude.{
  ℕ, ◌+◌, Bool, true, false, ◌&&◌, ◌||◌, List, [], ◌∷◌, Option, none, some, map, get_elem?, length,
  ltb, leb, ◌==◌, if◌then◌else◌, push, is_empty, saturating_add_u8,
}
use acip_sidecar.Prelude.Sort.{sort, dedup}
use acip_sidecar.Text.{Text, text, as_bytes, to_ascii_lowercase}
use acip_sidecar.Text.Order.{text_order}
use acip_sidecar.Scan.Matcher.{AhoCorasick}

pub record HtmlScanResult : Type 0 where
  pub has_scriptish : Bool
  pub has_event_handler : Bool
  pub has_external_ref : Bool
  pub has_data_uri : Bool
  pub has_embed : Bool
  pub has_meta_refresh : Bool
  pub matches : List Text
  pub severity : ℕ

abbrev pub default : HtmlScanResult
default = record {
  has_scriptish = false;
  has_event_handler = false;
  has_external_ref = false;
  has_data_uri = false;
  has_embed = false;
  has_meta_refresh = false;
  matches = [];
  severity = 0;
}

-- The names of `PATTERNS`.
pub data Pattern : Type 0 where
  script_tag javascript_uri onload onerror onclick http https data_uri : Pattern
  src href xlink_href iframe_tag object_tag embed_tag meta_refresh : Pattern

unfoldable pub name : Pattern → Text
name script_tag = text "script_tag"
name javascript_uri = text "javascript_uri"
name onload = text "onload"
name onerror = text "onerror"
name onclick = text "onclick"
name http = text "http"
name https = text "https"
name data_uri = text "data_uri"
name src = text "src"
name href = text "href"
name xlink_href = text "xlink_href"
name iframe_tag = text "iframe_tag"
name object_tag = text "object_tag"
name embed_tag = text "embed_tag"
name meta_refresh = text "meta_refresh"

abbrev pub patterns : List (Pattern × Text)
patterns =
    (script_tag, text "<script")
    ∷ (javascript_uri, text "javascript:")
    ∷ (onload, text "onload=")
    ∷ (onerror, text "onerror=")
    ∷ (onclick, text "onclick=")
    ∷ (http, text "http://")
    ∷ (https, text "https://")
    ∷ (data_uri, text "data:")
    ∷ (src, text "src=")
    ∷ (href, text "href=")
    ∷ (xlink_href, text "xlink:href=")
    ∷ (iframe_tag, text "<iframe")
    ∷ (object_tag, text "<object")
    ∷ (embed_tag, text "<embed")
    ∷ (meta_refresh, text "<meta http-equiv=refresh")
    ∷ []

-- The `match name` of the loop over the matches.
flag : Pattern → HtmlScanResult → HtmlScanResult
flag script_tag out = record out { has_scriptish = true }
flag javascript_uri out = record out { has_scriptish = true }
flag onload out = record out { has_event_handler = true }
flag onerror out = record out { has_event_handler = true }
flag onclick out = record out { has_event_handler = true }
flag http out = record out { has_external_ref = true }
flag https out = record out { has_external_ref = true }
flag data_uri out = record out { has_data_uri = true; has_external_ref = true }
flag iframe_tag out = record out { has_embed = true }
flag object_tag out = record out { has_embed = true }
flag embed_tag out = record out { has_embed = true }
flag meta_refresh out = record out { has_meta_refresh = true }
flag _ out = out

-- One round: an index is one of the automaton's own list, so `PATTERNS[idx]` is there.
pub note : Option (Pattern × Text) → HtmlScanResult → HtmlScanResult
unfolding flag name
note none out = out
note (some (p, _)) out = flag p (record out { matches = push out.matches (name p) })

pub note_all : List ℕ → HtmlScanResult → HtmlScanResult
unfolding note
note_all [] out = out
note_all (idx ∷ rest) out = note_all rest (note (get_elem? patterns idx) out)

unfoldable pub is_ascii_alphabetic : ℕ → Bool
is_ascii_alphabetic c = (leb b'A' c && leb c b'Z') || (leb b'a' c && leb c b'z')

-- `while lower[j].is_ascii_alphabetic() { j += 1 }`, then `lower[j] == b'='`.
unfoldable pub word_then_eq : List ℕ → Bool
unfolding is_ascii_alphabetic
word_then_eq [] = false
word_then_eq (c ∷ s) =
    let rest = word_then_eq s in if is_ascii_alphabetic c then rest else c == b'='

-- The test at one position `i`.
unfoldable pub on_attr_here : List ℕ → Bool
unfolding word_then_eq
on_attr_here (o ∷ n ∷ c ∷ s) =
    o == b'o' && n == b'n' && is_ascii_alphabetic c && word_then_eq (c ∷ s)
on_attr_here _ = false

-- `while i + 3 < lower.len()`: a position is the suffix that starts there.
unfoldable pub on_attr_from : List ℕ → Bool
unfolding on_attr_here
on_attr_from [] = false
on_attr_from (c ∷ s) =
    let rest = on_attr_from s in
    if ltb 3 (length (c ∷ s)) then on_attr_here (c ∷ s) || rest else false

unfoldable pub has_generic_on_attr : List ℕ → Bool
unfolding on_attr_from
has_generic_on_attr lower = if ltb (length lower) 4 then false else on_attr_from lower

note_on_attr : Bool → HtmlScanResult → HtmlScanResult
note_on_attr true out = record out {
  has_event_handler = true;
  matches = push out.matches (text "on_attr");
}
note_on_attr false out = out

abbrev weigh : Bool → ℕ → ℕ → ℕ
weigh b n sev = if b then saturating_add_u8 sev n else sev

pub severity_of : HtmlScanResult → ℕ
severity_of out = weigh out.has_external_ref 1 (
    weigh out.has_data_uri 1 (
      weigh out.has_meta_refresh 1
        (weigh out.has_embed 2 (weigh out.has_event_handler 2 (weigh out.has_scriptish 2 0)))))

pub finish : HtmlScanResult → HtmlScanResult
unfolding severity_of
finish out = record out {
  matches = dedup text_order (sort text_order out.matches);
  severity = severity_of out;
}

unfoldable pub scan : AhoCorasick → Text → HtmlScanResult
unfolding note_all has_generic_on_attr note_on_attr finish
scan ac input =
    let bytes = as_bytes input in
    let found = note_all (ac.find_iter (map (λ p. p.1) patterns) bytes) default in
    let lower = map to_ascii_lowercase bytes in
    let all = note_on_attr (has_generic_on_attr lower) found in
    if is_empty input then default else finish all
