-- ===== src/Normalize.antt =====
-- normalize.rs: the visible text of an HTML document. The parser html5ever is a parameter; the
-- walk over the document that it builds is here.
pub mod Laws
pub mod Tests
use mathlib.Core.List.{reverse}
use acip_sidecar.Prelude.{
  ℕ, zero, suc, ◌+◌, ◌-◌, Bool, true, false, ◌||◌, Option, none, some, List, [], ◌∷◌, ◌++◌, leb,
  ◌==◌, ltb, if◌then◌else◌, is_empty, push,
}
use acip_sidecar.Text.{Text, text, text_eq, trim, is_whitespace}

-- The nodes of markup5ever_rcdom that the walk tells apart.
mutual
  pub data Node : Type 0 where
    document : Nodes → Node
    element : Text → Nodes → Node
    text_node : Text → Node
    other : Nodes → Node

  pub data Nodes : Type 0 where
    nil : Nodes
    cons : Node → Nodes → Nodes

pub record WalkState : Type 0 where
  pub out : Text
  pub max_chars : ℕ
  pub char_count : ℕ
  pub last_space : Bool
  pub last_newline : Bool
  pub truncated : Bool

-- `WalkState::new`.
abbrev pub new : ℕ → WalkState
new max_chars = record {
  out = [];
  max_chars = max_chars;
  char_count = 0;
  last_space = false;
  last_newline = false;
  truncated = false;
}

pub finish : WalkState → Text
finish st = trim st.out

-- `String::pop`.
pub pop : Text → Text
pop [] = []
pop (c ∷ []) = []
pop (c ∷ d ∷ s) = c ∷ pop (d ∷ s)

pub push_char : ℕ → WalkState → WalkState
push_char ch st =
    if st.truncated || leb st.max_chars st.char_count
    then record st { truncated = true }
    else record st {
      out = push st.out ch;
      char_count = st.char_count + 1;
      truncated = leb st.max_chars (st.char_count + 1);
    }

-- `if self.last_space { self.out.pop(); … }`.
drop_space : WalkState → WalkState
unfolding pop
drop_space st =
    if st.last_space
    then record st {
      out = pop st.out;
      char_count = if ltb 0 st.char_count then st.char_count - 1 else st.char_count;
    }
    else st

pub push_newline : WalkState → WalkState
unfolding push_char drop_space
push_newline st =
    if st.truncated
    then st
    else if st.last_newline || is_empty st.out
    then record st { last_space = false; last_newline = true }
    else record (push_char 0x0a (drop_space st)) { last_newline = true; last_space = false }

-- One round of the loop of `push_text`, past its test on `truncated`.
push_one : ℕ → WalkState → WalkState
unfolding push_char
push_one ch st =
    if is_whitespace ch
    then if st.last_newline
      then st
      else if st.last_space
      then st
      else record (push_char 0x20 st) { last_space = true; last_newline = false }
    else record (push_char ch st) { last_space = false; last_newline = false }

-- `for ch in text.chars() { if self.truncated { break; } … }`; the early return is the same test.
pub push_text : Text → WalkState → WalkState
unfolding push_one
push_text [] st = st
push_text (ch ∷ s) st = if st.truncated then st else push_text s (push_one ch st)

is_skip_tag : Text → Bool
is_skip_tag tag =
    text_eq tag (text "script")
    || text_eq tag (text "style")
    || text_eq tag (text "iframe")
    || text_eq tag (text "object")
    || text_eq tag (text "embed")
    || text_eq tag (text "noscript")

is_block_tag : Text → Bool
is_block_tag tag =
    text_eq tag (text "p")
    || text_eq tag (text "div")
    || text_eq tag (text "li")
    || text_eq tag (text "h1")
    || text_eq tag (text "h2")
    || text_eq tag (text "h3")
    || text_eq tag (text "h4")
    || text_eq tag (text "h5")
    || text_eq tag (text "h6")

newline_if : Bool → WalkState → WalkState
newline_if true st = push_newline st
newline_if false st = st

mutual
  unfolding push_text newline_if is_skip_tag is_block_tag

  pub walk_dom : Node → WalkState → WalkState
  walk_dom (document children) st = if st.truncated then st else walk_children children st
  walk_dom (element tag children) st =
      let block = is_block_tag tag in
      let whole = newline_if block (walk_children children (newline_if block st)) in
      if st.truncated
      then st
      else if is_skip_tag tag
      then st
      else if text_eq tag (text "br")
      then push_newline st
      else whole
  walk_dom (text_node contents) st = if st.truncated then st else push_text contents st
  walk_dom (other children) st = if st.truncated then st else walk_children children st

  -- `for child in … { if state.truncated { break; } walk_dom(child, state); }`.
  pub walk_children : Nodes → WalkState → WalkState
  walk_children nil st = st
  walk_children (cons child rest) st =
      if st.truncated then st else walk_children rest (walk_dom child st)

abbrev pub default_max_output_chars : ℕ
default_max_output_chars = 200000

-- html5ever: the document of a text, or nothing where reading fails.
abbrev pub ParseDocument : Type 0
ParseDocument = Text → Option Node

walked : ℕ → Option Node → Text
unfolding finish walk_dom
walked max_chars none = []
walked max_chars (some dom) = finish (walk_dom dom (new max_chars))

unfoldable pub html_to_text_html5ever_with_limit : ParseDocument → Text → ℕ → Text
unfolding walked
html_to_text_html5ever_with_limit parse html max_chars =
    if max_chars == 0 then [] else walked max_chars (parse html)

unfoldable pub html_to_text_html5ever : ParseDocument → Text → Text
unfolding html_to_text_html5ever_with_limit
html_to_text_html5ever parse html =
    html_to_text_html5ever_with_limit parse html default_max_output_chars
