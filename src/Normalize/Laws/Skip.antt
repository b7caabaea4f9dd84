-- ===== src/Normalize/Laws/Skip.antt =====
-- The elements that the walk of normalize.rs skips.
use acip_sidecar.Prelude.{
  ℕ, ◌≡◌, refl, Bool, true, false, ◌||◌, List, [], ◌∷◌, any, Option, none, some, if_either,
  if_cases, sym, ◌∙◌, if◌then◌else◌,
}
use acip_sidecar.Text.{Text, text, text_eq}
use acip_sidecar.Normalize.{
  Node, Nodes, document, element, text_node, other, nil, cons, WalkState, newline_if, is_skip_tag,
  is_block_tag, walk_dom, walk_children, walked, ParseDocument, html_to_text_html5ever_with_limit,
}

or_chain :
    (a b c d e f : Bool)
    → (a || (b || (c || (d || (e || (f || false)))))) ≡ (a || b || c || d || e || f)
or_chain true b c d e f = refl
or_chain false true c d e f = refl
or_chain false false true d e f = refl
or_chain false false false true e f = refl
or_chain false false false false true f = refl
or_chain false false false false false true = refl
or_chain false false false false false false = refl

-- The elements whose content is no visible text.
abbrev pub hidden_tags : List Text
hidden_tags =
    text "script"
    ∷ text "style"
    ∷ text "iframe"
    ∷ text "object"
    ∷ text "embed"
    ∷ text "noscript"
    ∷ []

abbrev pub is_hidden : Text → Bool
is_hidden tag = any (text_eq tag) hidden_tags

is_hidden-is_skip_tag : (tag : Text) → is_hidden tag ≡ is_skip_tag tag
unfolding is_skip_tag
is_hidden-is_skip_tag tag =
    or_chain (text_eq tag (text "script")) (text_eq tag (text "style"))
      (text_eq tag (text "iframe")) (text_eq tag (text "object")) (text_eq tag (text "embed"))
      (text_eq tag (text "noscript"))

-- The document without what its hidden elements contain.
mutual
  pub strip : Node → Node
  strip (document children) = document (strip_all children)
  strip (element tag children) =
      let kept = strip_all children in if is_hidden tag then element tag nil else element tag kept
  strip (text_node contents) = text_node contents
  strip (other children) = other (strip_all children)

  strip_all : Nodes → Nodes
  strip_all nil = nil
  strip_all (cons child rest) = cons (strip child) (strip_all rest)

skipped :
    (tag : Text) (children : Nodes) (st : WalkState)
    → is_skip_tag tag ≡ true
    → walk_dom (element tag children) st ≡ st
unfolding walk_dom
skipped tag children st skip = if_either (λ x. x ≡ st) st.truncated refl (rw skip refl)

mutual
  unfolding walk_dom walk_children strip strip_all

  walk_dom-strip : (node : Node) (st : WalkState) → walk_dom (strip node) st ≡ walk_dom node st
  walk_dom-strip (document children) st = rw (walk_children-strip children st) refl
  walk_dom-strip (element tag children) st =
      if_cases (λ n. walk_dom n st ≡ walk_dom (element tag children) st) (is_hidden tag)
        (λ hidden.
          let skip = sym (is_hidden-is_skip_tag tag) ∙ hidden in
          skipped tag nil st skip ∙ sym (skipped tag children st skip))
        (λ keep. rw (walk_children-strip children (newline_if (is_block_tag tag) st)) refl)
  walk_dom-strip (text_node contents) st = refl
  walk_dom-strip (other children) st = rw (walk_children-strip children st) refl

  walk_children-strip :
      (nodes : Nodes) (st : WalkState) → walk_children (strip_all nodes) st ≡ walk_children nodes st
  walk_children-strip nil st = refl
  walk_children-strip (cons child rest) st =
      rw (walk_dom-strip child st, walk_children-strip rest (walk_dom child st)) refl

abbrev pub strip_document : Option Node → Option Node
strip_document none = none
strip_document (some dom) = some (strip dom)

walked-strip :
    (max_chars : ℕ) (o : Option Node) → walked max_chars (strip_document o) ≡ walked max_chars o
unfolding walked
walked-strip max_chars none = refl
walked-strip max_chars (some dom) = rw (walk_dom-strip dom) refl

-- Emptying every script, style, iframe, object, embed and noscript element of the document changes
-- nothing in the visible text: no character of theirs reaches the model.
pub html_to_text-strip :
    (parse : ParseDocument) (html : Text) (max_chars : ℕ)
    → html_to_text_html5ever_with_limit (λ s. strip_document (parse s)) html max_chars
      ≡ html_to_text_html5ever_with_limit parse html max_chars
unfolding html_to_text_html5ever_with_limit
html_to_text-strip parse html max_chars = rw (walked-strip max_chars (parse html)) refl
