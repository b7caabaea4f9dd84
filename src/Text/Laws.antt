-- ===== src/Text/Laws.antt =====
-- Laws of the operations on texts.
use mathlib.Core.List.{reverse}
use acip_sidecar.Prelude.{
  ℕ, ◌≤◌, ◌≡◌, refl, ◌↔◌, true, [], ◌∷◌, ◌++◌, arith, length, length-reverse, ◌==◌, if◌then◌else◌,
}
use acip_sidecar.Text.{
  Text, text_eq, trim_start, trim_end, trim, starts_with, replace, replace_from,
}

text_eq→eq : (s t : Text) → text_eq s t ≡ true → s ≡ t
unfolding text_eq
text_eq→eq [] [] h = refl
text_eq→eq [] (b ∷ t) h = cc
text_eq→eq (a ∷ s) [] h = cc
text_eq→eq (a ∷ s) (b ∷ t) h = ground (arith, text_eq→eq s t)

pub text_eq_refl : (s : Text) → text_eq s s ≡ true
unfolding text_eq
text_eq_refl [] = refl
text_eq_refl (a ∷ s) = ground (arith, text_eq_refl s)

pub text_eq_iff : (s t : Text) → (text_eq s t ≡ true) ↔ (s ≡ t)
text_eq_iff s t = (text_eq→eq s t, λ e. rw e (text_eq_refl t))

pub length-trim_start-le : (s : Text) → length (trim_start s) ≤ length s
unfolding trim_start
length-trim_start-le [] = omega arith
length-trim_start-le (c ∷ s) = ground (arith, length-trim_start-le s)

pub length-trim_end-le : (s : Text) → length (trim_end s) ≤ length s
unfolding trim_end
length-trim_end-le s = omega (
  arith,
  length-reverse s,
  length-reverse (trim_start (reverse s)),
  length-trim_start-le (reverse s),
)

-- Trimming never lengthens a text.
pub length-trim-le : (s : Text) → length (trim s) ≤ length s
unfolding trim
length-trim-le s = omega (arith, length-trim_end-le (trim_start s), length-trim_start-le s)

-- A pattern of one character.
pub replace-one :
    (c p : ℕ) (s new : Text)
    → replace (c ∷ s) (p ∷ []) new
      ≡ (if c == p then new ++ replace s (p ∷ []) new else c ∷ replace s (p ∷ []) new)
unfolding replace replace_from starts_with
replace-one c p s new = ground arith
