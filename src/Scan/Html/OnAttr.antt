-- ===== src/Scan/Html/OnAttr.antt =====
-- What the search for event handlers finds.
use acip_sidecar.Prelude.{
  ℕ, ◌≤◌, ◌≡◌, refl, ap, inl, inr, ◌↔◌, true, List, [], ◌∷◌, ◌++◌, arith, All, length,
  length-append, ◌==◌, ==_iff, Bool-cases,
}
use acip_sidecar.Scan.Html.{
  is_ascii_alphabetic, word_then_eq, on_attr_here, on_attr_from, has_generic_on_attr,
}

abbrev Letters : List ℕ → Type 0
Letters = All (λ c. is_ascii_alphabetic c ≡ true)

-- A run of letters up to a `=`.
pub record WordEq (s : List ℕ) : Type 0 where
  pub word : List ℕ
  pub rest : List ℕ
  pub letters : Letters word
  pub same : s ≡ word ++ (b'=' ∷ rest)

word_then_eq→WordEq : (s : List ℕ) → word_then_eq s ≡ true → WordEq s
unfolding word_then_eq
word_then_eq→WordEq [] h = absurd (cc)
word_then_eq→WordEq (c ∷ s) h = elim (Bool-cases (is_ascii_alphabetic c)) [
  | inl letter ↦
      let ih = word_then_eq→WordEq s (rw letter at h) in
      record {
        word = c ∷ ih.word;
        rest = ih.rest;
        letters = (letter, ih.letters);
        same = ap (◌∷◌ c) ih.same;
      }
  | inr no_letter ↦ record {
    word = [];
    rest = s;
    letters = tt;
    same = ap (λ x. x ∷ s) ((==_iff c b'=').0 (rw no_letter at h));
  }
]

WordEq→word_then_eq :
    (word rest : List ℕ) → Letters word → word_then_eq (word ++ (b'=' ∷ rest)) ≡ true
unfolding word_then_eq is_ascii_alphabetic
WordEq→word_then_eq [] rest h = refl
WordEq→word_then_eq (c ∷ word) rest (letter, h) = rw letter (WordEq→word_then_eq word rest h)

-- An attribute `on…=` somewhere in the bytes, with at least one letter after `on`.
pub record OnAttr (s : List ℕ) : Type 0 where
  pub before : List ℕ
  pub first : ℕ
  pub word : List ℕ
  pub rest : List ℕ
  pub letters : Letters (first ∷ word)
  pub same : s ≡ before ++ (b'o' ∷ b'n' ∷ first ∷ (word ++ (b'=' ∷ rest)))

joined :
    (o n c : ℕ) (s word rest : List ℕ)
    → o ≡ b'o'
    → n ≡ b'n'
    → s ≡ word ++ (b'=' ∷ rest)
    → o ∷ n ∷ c ∷ s ≡ b'o' ∷ b'n' ∷ c ∷ (word ++ (b'=' ∷ rest))
joined o n c s word rest p q e = rw (p, q, e) refl

after_letter :
    (c : ℕ) (s : List ℕ)
    → is_ascii_alphabetic c ≡ true
    → word_then_eq (c ∷ s) ≡ true
    → word_then_eq s ≡ true
unfolding word_then_eq
after_letter c s letter h = rw letter at h

on_attr_here_lem : (s : List ℕ) → on_attr_here s ≡ true → OnAttr s
unfolding on_attr_here
on_attr_here_lem [] h = absurd (cc)
on_attr_here_lem (o ∷ []) h = absurd (cc)
on_attr_here_lem (o ∷ n ∷ []) h = absurd (cc)
on_attr_here_lem (o ∷ n ∷ c ∷ s) h =
    let is_o : (o == b'o') ≡ true = ground arith in
    let is_n : (n == b'n') ≡ true = ground arith in
    let letter : is_ascii_alphabetic c ≡ true = ground arith in
    let rest : word_then_eq (c ∷ s) ≡ true = ground arith in
    let w = word_then_eq→WordEq s (after_letter c s letter rest) in
    record {
      before = [];
      first = c;
      word = w.word;
      rest = w.rest;
      letters = (letter, w.letters);
      same = joined o n c s w.word w.rest ((==_iff o b'o').0 is_o) ((==_iff n b'n').0 is_n) w.same;
    }

on_attr_from_lem : (s : List ℕ) → on_attr_from s ≡ true → OnAttr s
unfolding on_attr_from
on_attr_from_lem [] h = absurd (cc)
on_attr_from_lem (c ∷ s) h = elim (Bool-cases (on_attr_here (c ∷ s))) [
  | inl here ↦ on_attr_here_lem (c ∷ s) here
  | inr not_here ↦
      let later : on_attr_from s ≡ true = ground arith in
      let ih = on_attr_from_lem s later in
      record {
        before = c ∷ ih.before;
        first = ih.first;
        word = ih.word;
        rest = ih.rest;
        letters = ih.letters;
        same = ap (◌∷◌ c) ih.same;
      }
]

here :
    (first : ℕ) (word rest : List ℕ)
    → Letters (first ∷ word)
    → on_attr_here (b'o' ∷ b'n' ∷ first ∷ (word ++ (b'=' ∷ rest))) ≡ true
unfolding on_attr_here
here first word rest (letter, h) = rw letter (WordEq→word_then_eq word rest h)

long : (first : ℕ) (word rest : List ℕ) → 4 ≤ length (b'o' ∷ b'n' ∷ first ∷ (word ++ (b'=' ∷ rest)))
long first word rest = omega (arith, length-append word (b'=' ∷ rest))

from_OnAttr :
    (before : List ℕ) (first : ℕ) (word rest : List ℕ)
    → Letters (first ∷ word)
    → on_attr_from (before ++ (b'o' ∷ b'n' ∷ first ∷ (word ++ (b'=' ∷ rest)))) ≡ true
unfolding on_attr_from
from_OnAttr [] first word rest h = ground (arith, here first word rest h, long first word rest)
from_OnAttr (c ∷ before) first word rest h = ground (
  arith,
  from_OnAttr before first word rest h,
  long first word rest,
  length-append before (b'o' ∷ b'n' ∷ first ∷ (word ++ (b'=' ∷ rest))),
)

OnAttr→found : (s : List ℕ) → OnAttr s → has_generic_on_attr s ≡ true
unfolding has_generic_on_attr
OnAttr→found s a =
    let e = from_OnAttr a.before a.first a.word a.rest a.letters in
    let n = length-append a.before (b'o' ∷ b'n' ∷ a.first ∷ (a.word ++ (b'=' ∷ a.rest))) in
    rw a.same (ground (arith, e, n, long a.first a.word a.rest))

found→OnAttr : (s : List ℕ) → has_generic_on_attr s ≡ true → OnAttr s
unfolding has_generic_on_attr
found→OnAttr s h = on_attr_from_lem s (ground arith)

-- The search for event handlers finds one exactly if somewhere in the bytes `on`, one or more ASCII
-- letters and `=` follow each other.
pub has_generic_on_attr_iff : (s : List ℕ) → (has_generic_on_attr s ≡ true) ↔ OnAttr s
has_generic_on_attr_iff s = (found→OnAttr s, OnAttr→found s)
