-- ===== src/Normalize/Laws/Bound.antt =====
-- The length of the visible text.
use acip_sidecar.Prelude.{
  ℕ, ◌-◌, ◌≤◌, ◌≡◌, refl, Bool, true, false, ◌||◌, Option, none, some, [], ◌∷◌, arith, length,
  length-append, leb, ◌==◌, Bool-cases, inl, inr, if_either, if_cases, is_empty,
}
use acip_sidecar.Text.{Text, text, text_eq, is_whitespace}
use acip_sidecar.Text.Laws.{length-trim-le}
use acip_sidecar.Normalize.{
  Node, Nodes, document, element, text_node, other, nil, cons, WalkState, new, finish, pop,
  push_char, drop_space, push_newline, push_one, push_text, newline_if, is_skip_tag, is_block_tag,
  walk_dom, walk_children, walked, ParseDocument, html_to_text_html5ever_with_limit,
}

-- The count is that of the output, which is within the limit; the space that was written last is
-- there to be dropped.
pub record IsBounded (most : ℕ) (st : WalkState) : Type 0 where
  pub limit : st.max_chars ≡ most
  pub counted : length st.out ≡ st.char_count
  pub within : st.char_count ≤ most

length-pop : (s : Text) → length (pop s) ≡ length s - 1
unfolding pop
length-pop [] = refl
length-pop (c ∷ []) = refl
length-pop (c ∷ d ∷ s) = omega (arith, length-pop (d ∷ s))

module _ (most : ℕ) where
  abbrev B : WalkState → Type 0
  B = IsBounded most

  push_char-IsBounded : (ch : ℕ) (st : WalkState) → B st → B (push_char ch st)
  unfolding push_char
  push_char-IsBounded ch st b =
      if_cases B (st.truncated || leb st.max_chars st.char_count)
        (λ full. record { limit = b.limit; counted = b.counted; within = b.within })
        (λ room. record {
          limit = b.limit;
          counted = omega (arith, length-append st.out (ch ∷ []), b.counted);
          within = ground (arith, b.limit, b.within);
        })

  drop_space-IsBounded : (st : WalkState) → B st → B (drop_space st)
  unfolding drop_space
  drop_space-IsBounded st b =
      if_either B st.last_space
        (record {
          limit = b.limit;
          counted = ground (arith, length-pop st.out, b.counted);
          within = ground (arith, b.within);
        })
        b

  -- The flags about the last character play no part.
  flags-IsBounded :
      (st : WalkState) (space newline : Bool)
      → B st
      → B (record st { last_space = space; last_newline = newline })
  flags-IsBounded st space newline b = record {
    limit = b.limit;
    counted = b.counted;
    within = b.within;
  }

  push_newline-IsBounded : (st : WalkState) → B st → B (push_newline st)
  unfolding push_newline
  push_newline-IsBounded st b = if_either B st.truncated b (
      if_either B (st.last_newline || is_empty st.out) (flags-IsBounded st false true b)
        (flags-IsBounded _ false true (push_char-IsBounded 0x0a _ (drop_space-IsBounded st b))))

  push_one-IsBounded : (ch : ℕ) (st : WalkState) → B st → B (push_one ch st)
  unfolding push_one
  push_one-IsBounded ch st b =
      if_either B (is_whitespace ch)
        (if_either B st.last_newline b (
          if_either B st.last_space b
            (flags-IsBounded _ true false (push_char-IsBounded 0x20 st b))))
        (flags-IsBounded _ false false (push_char-IsBounded ch st b))

  push_text-IsBounded : (s : Text) (st : WalkState) → B st → B (push_text s st)
  unfolding push_text
  push_text-IsBounded [] st b = b
  push_text-IsBounded (ch ∷ s) st b =
      if_either B st.truncated b (push_text-IsBounded s _ (push_one-IsBounded ch st b))

  newline_if-IsBounded : (block : Bool) (st : WalkState) → B st → B (newline_if block st)
  unfolding newline_if
  newline_if-IsBounded true st b = push_newline-IsBounded st b
  newline_if-IsBounded false st b = b

  mutual
    unfolding walk_dom walk_children

    walk_dom-IsBounded : (node : Node) (st : WalkState) → B st → B (walk_dom node st)
    walk_dom-IsBounded (document children) st b =
        if_either B st.truncated b (walk_children-IsBounded children st b)
    walk_dom-IsBounded (element tag children) st b = if_either B st.truncated b (
        if_either B (is_skip_tag tag) b (
          if_either B (text_eq tag (text "br")) (push_newline-IsBounded st b) (
            newline_if-IsBounded (is_block_tag tag) _
              (walk_children-IsBounded children _ (newline_if-IsBounded (is_block_tag tag) st b)))))
    walk_dom-IsBounded (text_node contents) st b =
        if_either B st.truncated b (push_text-IsBounded contents st b)
    walk_dom-IsBounded (other children) st b =
        if_either B st.truncated b (walk_children-IsBounded children st b)

    walk_children-IsBounded : (nodes : Nodes) (st : WalkState) → B st → B (walk_children nodes st)
    walk_children-IsBounded nil st b = b
    walk_children-IsBounded (cons child rest) st b =
        if_either B st.truncated b (walk_children-IsBounded rest _ (walk_dom-IsBounded child st b))

length-walked : (most : ℕ) (o : Option Node) → length (walked most o) ≤ most
unfolding walked finish
length-walked most none = omega arith
length-walked most (some dom) =
    let b =
      walk_dom-IsBounded most dom (new most)
        (record { limit = refl; counted = refl; within = omega arith }) in
    omega (arith, b.counted, b.within, length-trim-le (walk_dom dom (new most)).out)

-- The text that `html_to_text_html5ever_with_limit` gives is never longer than its limit, whatever
-- the document that the parser builds.
pub length-html_to_text_html5ever_with_limit :
    (parse : ParseDocument) (html : Text) (max_chars : ℕ)
    → length (html_to_text_html5ever_with_limit parse html max_chars) ≤ max_chars
unfolding html_to_text_html5ever_with_limit
length-html_to_text_html5ever_with_limit parse html max_chars = elim (Bool-cases (max_chars == 0)) [
  | inl zero ↦ rw zero (omega arith)
  | inr some_room ↦ rw some_room (length-walked max_chars (parse html))
]
