-- ===== src/TokenAuth.antt =====
-- token_auth.rs: the middleware that compares the header X-ACIP-Token with the expected token.
pub mod Laws
pub mod Tests
use Prim.Native.Nat.{bit_or, bit_xor}
use acip_sidecar.Prelude.{
  ℕ, zero, suc, ◌+◌, max, Bool, true, false, Option, none, some, List, [], ◌∷◌, ◌==◌, if◌then◌else◌,
  length, get_elem?, unwrap_or,
}
use acip_sidecar.Text.{Text, text, as_bytes, trim}
use acip_sidecar.Headers.{HeaderMap}

-- `for i in 0..max`, with the rounds left: `diff |= (av ^ bv)`.
compare_from : ℕ → ℕ → List ℕ → List ℕ → ℕ → ℕ
compare_from zero i a b diff = diff
compare_from (suc rounds) i a b diff =
    let av = unwrap_or (get_elem? a i) 0 in
    let bv = unwrap_or (get_elem? b i) 0 in
    compare_from rounds (i + 1) a b (bit_or diff (bit_xor av bv))

-- On the bytes of the two texts.
eq_bytes : List ℕ → List ℕ → Bool
unfolding compare_from
eq_bytes a b = compare_from (max (length a) (length b)) 0 a b (bit_xor (length a) (length b)) == 0

unfoldable pub constant_time_eq : Text → Text → Bool
unfolding eq_bytes
constant_time_eq a b = eq_bytes (as_bytes a) (as_bytes b)

-- What the middleware does with a request: it refuses it with 401 and says why, or runs the rest.
pub data Verdict : Type 0 where
  pass : Verdict
  missing invalid : Verdict

check_value : Text → Option Text → Verdict
unfolding constant_time_eq
check_value expected none = invalid
check_value expected (some value) = if constant_time_eq (trim value) expected then pass else invalid

check_values : Text → List (Option Text) → Verdict
unfolding check_value
check_values expected [] = missing
check_values expected (value ∷ []) = check_value expected value
check_values expected (value ∷ _ ∷ _) = invalid

unfoldable pub token_auth_middleware : Option Text → HeaderMap → Verdict
unfolding check_values
token_auth_middleware none headers = pass
token_auth_middleware (some expected) headers =
    check_values expected (headers (text "x-acip-token"))
