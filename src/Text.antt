-- ===== src/Text.antt =====
-- Rust's `str` and `String` as lists of code points, with the operations of the standard library
-- that the program uses. `to_lowercase` alone needs the Unicode tables, and is a parameter.
pub mod Laws
pub mod Utf8
pub mod Trim
pub mod Order
use Prim.Native.Char.{code}
use Prim.Native.String
use mathlib.Core.List.{reverse}
use acip_sidecar.Prelude.{
  ℕ, zero, suc, ◌+◌, ◌-◌, ◌*◌, ◌/◌, ◌%◌, length, String, Bool, true, false, ◌&&◌, ◌||◌, Option,
  none, some, List, [], ◌∷◌, ◌++◌, map, ltb, leb, ◌==◌, if◌then◌else◌, all, ◌≡◌,
}

abbrev pub Text : Type 0
Text = List ℕ

codes : String → Text
codes String.[] = []
codes (String.◌∷◌ c s) = code c ∷ codes s

-- A literal of the source. It is shut, so that a proof does not spell its characters out.
unfoldable pub text : String → Text
unfolding codes
text s = codes s

unfoldable pub text_eq : Text → Text → Bool
text_eq [] [] = true
text_eq (a ∷ s) (b ∷ t) = a == b && text_eq s t
text_eq _ _ = false

-- `Ord` on `str` compares bytes; UTF-8 keeps the order of the code points.
unfoldable pub text_le : Text → Text → Bool
text_le [] t = true
text_le (a ∷ s) [] = false
text_le (a ∷ s) (b ∷ t) = ltb a b || (a == b && text_le s t)

-- `char::is_whitespace`: the property White_Space.
unfoldable pub is_whitespace : ℕ → Bool
is_whitespace c =
    (leb 9 c && leb c 13)
    || c == 0x20
    || c == 0x85
    || c == 0xa0
    || c == 0x1680
    || (leb 0x2000 c && leb c 0x200a)
    || c == 0x2028
    || c == 0x2029
    || c == 0x202f
    || c == 0x205f
    || c == 0x3000

unfoldable pub trim_start : Text → Text
unfolding is_whitespace
trim_start [] = []
trim_start (c ∷ s) = if is_whitespace c then trim_start s else c ∷ s

unfoldable pub trim_end : Text → Text
unfolding trim_start
trim_end s = reverse (trim_start (reverse s))

unfoldable pub trim : Text → Text
unfolding trim_start trim_end
trim s = trim_end (trim_start s)

unfoldable pub starts_with : Text → Text → Bool
starts_with s [] = true
starts_with [] (p ∷ ps) = false
starts_with (c ∷ s) (p ∷ ps) = c == p && starts_with s ps

unfoldable pub contains : Text → Text → Bool
unfolding starts_with
contains [] p = starts_with [] p
contains (c ∷ s) p = starts_with (c ∷ s) p || contains s p

abbrev pub is_ascii : Text → Bool
is_ascii = all (λ c. ltb c 128)

-- `u8::to_ascii_lowercase`, and its use on every character of a text.
unfoldable pub to_ascii_lowercase : ℕ → ℕ
to_ascii_lowercase c = if leb b'A' c && leb c b'Z' then c + 32 else c

unfoldable pub ascii_lower : Text → Text
unfolding to_ascii_lowercase
ascii_lower = map to_ascii_lowercase

-- `str::eq_ignore_ascii_case`.
unfoldable pub eq_ignore_ascii_case : Text → Text → Bool
unfolding ascii_lower text_eq
eq_ignore_ascii_case s t = text_eq (ascii_lower s) (ascii_lower t)

-- The UTF-8 encoding of a code point.
unfoldable pub encode : ℕ → List ℕ
encode c =
    if ltb c 0x80
    then c ∷ []
    else if ltb c 0x800
    then (0xc0 + c / 64) ∷ (0x80 + c % 64) ∷ []
    else if ltb c 0x10000
    then (0xe0 + c / 4096) ∷ (0x80 + c / 64 % 64) ∷ (0x80 + c % 64) ∷ []
    else (0xf0 + c / 262144) ∷ (0x80 + c / 4096 % 64) ∷ (0x80 + c / 64 % 64) ∷ (0x80 + c % 64) ∷ []

-- `str::as_bytes`.
unfoldable pub as_bytes : Text → List ℕ
unfolding encode
as_bytes [] = []
as_bytes (c ∷ s) = encode c ++ as_bytes s

-- `str::len`: the number of bytes.
abbrev pub byte_len : Text → ℕ
byte_len s = length (as_bytes s)

-- A scalar value: no surrogate, and at most 0x10ffff.
abbrev pub is_scalar : ℕ → Bool
is_scalar c = ltb c 0xd800 || (leb 0xe000 c && leb c 0x10ffff)

abbrev is_continuation : ℕ → Bool
is_continuation b = leb 0x80 b && leb b 0xbf

-- `String::from_utf8`: overlong forms, surrogates and stray continuation bytes are refused.
cons_if : Bool → ℕ → Option Text → Option Text
cons_if true c (some s) = some (c ∷ s)
cons_if _ c rest = none

unfoldable pub from_utf8 : List ℕ → Option Text
unfolding cons_if
from_utf8 [] = some []
from_utf8 (a ∷ []) = cons_if (ltb a 0x80) a (some [])
from_utf8 (a ∷ b ∷ []) =
    let ascii = cons_if true a (from_utf8 (b ∷ [])) in
    let c = (a - 0xc0) * 64 + (b - 0x80) in
    let two = cons_if (leb 0xc2 a && leb a 0xdf && is_continuation b) c (some []) in
    if ltb a 0x80 then ascii else two
from_utf8 (a ∷ b ∷ d ∷ []) =
    let ascii = cons_if true a (from_utf8 (b ∷ d ∷ [])) in
    let c2 = (a - 0xc0) * 64 + (b - 0x80) in
    let two = cons_if (leb 0xc2 a && is_continuation b) c2 (from_utf8 (d ∷ [])) in
    let c3 = (a - 0xe0) * 4096 + (b - 0x80) * 64 + (d - 0x80) in
    let good = is_continuation b && is_continuation d && leb 0x800 c3 && is_scalar c3 in
    let three = cons_if (leb 0xe0 a && leb a 0xef && good) c3 (some []) in
    if ltb a 0x80 then ascii else if ltb a 0xe0 then two else three
from_utf8 (a ∷ b ∷ d ∷ e ∷ rest) =
    let ascii = cons_if true a (from_utf8 (b ∷ d ∷ e ∷ rest)) in
    let c2 = (a - 0xc0) * 64 + (b - 0x80) in
    let two = cons_if (leb 0xc2 a && is_continuation b) c2 (from_utf8 (d ∷ e ∷ rest)) in
    let c3 = (a - 0xe0) * 4096 + (b - 0x80) * 64 + (d - 0x80) in
    let good = is_continuation b && is_continuation d && leb 0x800 c3 && is_scalar c3 in
    let three = cons_if (leb 0xe0 a && good) c3 (from_utf8 (e ∷ rest)) in
    let c4 = (a - 0xf0) * 262144 + (b - 0x80) * 4096 + (d - 0x80) * 64 + (e - 0x80) in
    let four_good =
      is_continuation b
      && is_continuation d
      && is_continuation e
      && leb 0x10000 c4
      && is_scalar c4 in
    let four = cons_if (leb 0xf0 a && leb a 0xf4 && four_good) c4 (from_utf8 rest) in
    if ltb a 0x80 then ascii else if ltb a 0xe0 then two else if ltb a 0xf0 then three else four

-- `str::parse` at an unsigned type with the given maximum: an optional `+`, then digits.
parse_digits : ℕ → ℕ → Text → Option ℕ
parse_digits most acc [] = some acc
parse_digits most acc (c ∷ s) =
    let acc' = acc * 10 + (c - b'0') in
    let rest = parse_digits most acc' s in
    if leb b'0' c && leb c b'9' && leb acc' most then rest else none

unsigned : ℕ → Text → Option ℕ
unfolding parse_digits
unsigned most [] = none
unsigned most (c ∷ s) = parse_digits most 0 (c ∷ s)

unfoldable pub parse_uint : ℕ → Text → Option ℕ
unfolding unsigned
parse_uint most [] = none
parse_uint most (c ∷ s) = if c == b'+' then unsigned most s else unsigned most (c ∷ s)

-- `str::replace`: the matches from the left, which do not overlap. The count is of the characters
-- of a match that are still to be dropped.
replace_from : ℕ → Text → Text → Text → Text
replace_from k p new [] = []
replace_from (suc k) p new (c ∷ s) = replace_from k p new s
replace_from zero p new (c ∷ s) =
    let matched = new ++ replace_from (length p - 1) p new s in
    let kept = c ∷ replace_from zero p new s in if starts_with (c ∷ s) p then matched else kept

-- For a pattern that is not empty.
unfoldable pub replace : Text → Text → Text → Text
unfolding replace_from starts_with
replace s p new = replace_from zero p new s

-- `parts.join(sep)`.
unfoldable pub join : Text → List Text → Text
join sep [] = []
join sep (p ∷ []) = p
join sep (p ∷ q ∷ ps) = p ++ (sep ++ join sep (q ∷ ps))

-- `str::to_lowercase`, whose tables are Unicode's. On ASCII it is documented to change the letters
-- A to Z alone.
pub record Unicode : Type 0 where
  pub to_lowercase : Text → Text
  pub to_lowercase-ascii : (s : Text) → is_ascii s ≡ true → to_lowercase s ≡ ascii_lower s
