-- ===== src/Normalize/Tests.antt =====
-- The visible text of a concrete document.
use acip_sidecar.Prelude.{◌≡◌, refl, some, []}
use acip_sidecar.Text.{Text, text}
use acip_sidecar.Normalize.{
  Node, document, element, text_node, nil, cons, ParseDocument, html_to_text_html5ever,
  html_to_text_html5ever_with_limit,
}
use acip_sidecar.Normalize.Laws.Skip.{strip_document, html_to_text-strip}

-- `<p>a  b</p><script>c</script><p>d</p>`.
abbrev dom : Node
dom = document (
    cons (element (text "p") (cons (text_node (text "a  b")) nil)) (
      cons (element (text "script") (cons (text_node (text "c")) nil))
        (cons (element (text "p") (cons (text_node (text "d")) nil)) nil)))

abbrev parse : ParseDocument
parse = λ s. some dom

html_run : html_to_text_html5ever parse [] ≡ text "a b\nd"
unfolding html_to_text_html5ever text acip_sidecar.Text.trim acip_sidecar.Text.text_eq
    acip_sidecar.Normalize.push_newline
html_run = refl

html_to_text-strip_example :
    html_to_text_html5ever_with_limit (λ s. strip_document (parse s)) [] 100
    ≡ html_to_text_html5ever_with_limit parse [] 100
html_to_text-strip_example = html_to_text-strip parse [] 100
