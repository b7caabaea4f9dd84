-- ===== src/Text/Order.antt =====
-- The order of texts.
use acip_sidecar.Prelude.{◌≡◌, refl, true, false, [], ◌∷◌, arith}
use acip_sidecar.Prelude.Sort.{Order}
use acip_sidecar.Text.{Text, text_eq, text_le}
use acip_sidecar.Text.Laws.{text_eq_refl, text_eq_iff}

pub text_le-total : (s t : Text) → text_le s t ≡ false → text_le t s ≡ true
unfolding text_le
text_le-total [] t h = cc
text_le-total (a ∷ s) [] h = refl
text_le-total (a ∷ s) (b ∷ t) h = ground (arith, text_le-total s t)

pub text_le_trans : (r s t : Text) → text_le r s ≡ true → text_le s t ≡ true → text_le r t ≡ true
unfolding text_le
text_le_trans [] s t h k = refl
text_le_trans (a ∷ r) [] t h k = cc
text_le_trans (a ∷ r) (b ∷ s) [] h k = cc
text_le_trans (a ∷ r) (b ∷ s) (c ∷ t) h k = ground (arith, text_le_trans r s t)

pub text_le-antisym : (s t : Text) → text_le s t ≡ true → text_le t s ≡ true → s ≡ t
unfolding text_le
text_le-antisym [] [] h k = refl
text_le-antisym [] (b ∷ t) h k = cc
text_le-antisym (a ∷ s) [] h k = cc
text_le-antisym (a ∷ s) (b ∷ t) h k = ground (arith, text_le-antisym s t)

abbrev pub text_order : Order Text
text_order = record {
  le = text_le;
  beq = text_eq;
  beq→eq = λ a b h. (text_eq_iff a b).0 h;
  beq-refl = text_eq_refl;
  total = text_le-total;
  trans = text_le_trans;
  antisym = text_le-antisym;
}
