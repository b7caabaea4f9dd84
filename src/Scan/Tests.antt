-- ===== src/Scan/Tests.antt =====
-- The scans of a concrete page.
use acip_sidecar.Prelude.{ℕ, ◌≤◌, ◌≡◌, refl, ◌↔◌, true, false, List, map, is_empty}
use acip_sidecar.Text.{Text, text, as_bytes, to_ascii_lowercase}
use acip_sidecar.Ingest.Samples.{matcher}
use acip_sidecar.Scan.Html
use acip_sidecar.Scan.Html.{has_generic_on_attr}
use acip_sidecar.Scan.Html.OnAttr.{OnAttr, has_generic_on_attr_iff}
use acip_sidecar.Scan.Html.Severity.{html_points, scan-severity}

abbrev page : Text
page = text "<p onx=1><SCRIPT>"

abbrev bytes : List ℕ
bytes = map to_ascii_lowercase (as_bytes page)

found_on_attr : has_generic_on_attr bytes ≡ true
unfolding has_generic_on_attr as_bytes text to_ascii_lowercase
    acip_sidecar.Scan.Html.is_ascii_alphabetic
found_on_attr = refl

has_generic_on_attr_iff_example : (has_generic_on_attr bytes ≡ true) ↔ OnAttr bytes
has_generic_on_attr_iff_example = has_generic_on_attr_iff bytes

page-filled : is_empty page ≡ false
unfolding text
page-filled = refl

html_run : (Html.scan matcher page).severity ≡ 4
unfolding Html.scan has_generic_on_attr as_bytes text to_ascii_lowercase
    acip_sidecar.Scan.Html.is_ascii_alphabetic acip_sidecar.Text.contains
    acip_sidecar.Text.starts_with acip_sidecar.Text.encode
html_run = refl

scan-severity_example :
    ((Html.scan matcher page).severity
      ≡ html_points
          (matcher.find_iter (map (λ p. p.1) Html.patterns) (as_bytes page))
          (has_generic_on_attr bytes))
    × ((Html.scan matcher page).severity ≤ 9)
scan-severity_example = scan-severity matcher page page-filled
