-- ===== src/TokenAuth/Laws.antt =====
-- The comparison of tokens in token_auth.rs.
pub mod Middleware
pub mod Lockout
use Prim.Native.Nat.{bit_or, bit_xor}
use acip_sidecar.Prelude.{
  ℕ, zero, suc, ◌+◌, ◌≤◌, ◌<◌, max, ◌≡◌, refl, ◌∙◌, sym, ap, ◌≢◌, ◌↔◌, ◌⊎◌, inl, inr, Bool, true,
  false, Option, none, some, List, [], ◌∷◌, arith, length, get_elem?, unwrap_or, ◌==◌, ==_iff,
}
use acip_sidecar.Prelude.Bits.{bit_xor-eq-zero_iff, bit_or-eq-zero_iff}
use acip_sidecar.Text.{Text, text, as_bytes, trim}
use acip_sidecar.Headers.{HeaderMap}
use acip_sidecar.TokenAuth.{
  compare_from, eq_bytes, constant_time_eq, Verdict, pass, missing, invalid, check_value,
  check_values, token_auth_middleware,
}

abbrev byte : List ℕ → ℕ → ℕ
byte a i = unwrap_or (get_elem? a i) 0

compare_from→same :
    (rounds i : ℕ) (a b : List ℕ) (diff : ℕ)
    → compare_from rounds i a b diff ≡ 0
    → (diff ≡ 0) × ((j : ℕ) → j < rounds → byte a (i + j) ≡ byte b (i + j))
unfolding compare_from
compare_from→same zero i a b diff h = (h, λ j lt. absurd (omega arith))
compare_from→same (suc rounds) i a b diff h =
    let (joined, later) = compare_from→same rounds (i + 1) a b _ h in
    let (old, here) = (bit_or-eq-zero_iff diff _).0 joined in
    (old, λ j. at_round rounds i a b ((bit_xor-eq-zero_iff _ _).0 here) later j)
  where
    at_round :
        (rounds i : ℕ) (a b : List ℕ)
        → byte a i ≡ byte b i
        → ((j : ℕ) → j < rounds → byte a (i + 1 + j) ≡ byte b (i + 1 + j))
        → (j : ℕ) → j < suc rounds
        → byte a (i + j) ≡ byte b (i + j)
    at_round rounds i a b here later zero lt = let e : i + 0 ≡ i = omega arith in rw e here
    at_round rounds i a b here later (suc j) lt =
        let e : i + suc j ≡ i + 1 + j = omega arith in rw e (later j (omega arith))

same→compare_from : (rounds i : ℕ) (a : List ℕ) → compare_from rounds i a a 0 ≡ 0
unfolding compare_from
same→compare_from zero i a = refl
same→compare_from (suc rounds) i a =
    let no_bit = (bit_xor-eq-zero_iff (byte a i) (byte a i)).1 refl in
    let none_set = (bit_or-eq-zero_iff 0 (bit_xor (byte a i) (byte a i))).1 (refl, no_bit) in
    rw none_set (same→compare_from rounds (i + 1) a)

eq_of_bytes :
    (a b : List ℕ) → length a ≡ length b → ((j : ℕ) → j < length a → byte a j ≡ byte b j) → a ≡ b
eq_of_bytes [] [] same h = refl
eq_of_bytes [] (y ∷ b) same h = absurd (omega arith)
eq_of_bytes (x ∷ a) [] same h = absurd (omega arith)
eq_of_bytes (x ∷ a) (y ∷ b) same h =
    cc (h 0 (omega arith), eq_of_bytes a b (omega arith) (λ j lt. h (suc j) (omega arith)))

eq_bytes→eq : (a b : List ℕ) → eq_bytes a b ≡ true → a ≡ b
unfolding eq_bytes
eq_bytes→eq a b h =
    let (lengths, bytes) =
      compare_from→same (max (length a) (length b)) 0 a b _ ((==_iff _ 0).0 h) in
    let same : length a ≡ length b = (bit_xor-eq-zero_iff _ _).0 lengths in
    eq_of_bytes a b same
      (λ j lt. let e : 0 + j ≡ j = omega arith in rw e at (bytes j (omega arith)))

eq_bytes_refl : (a : List ℕ) → eq_bytes a a ≡ true
unfolding eq_bytes
eq_bytes_refl a =
    let e : bit_xor (length a) (length a) ≡ 0 = (bit_xor-eq-zero_iff _ _).1 refl in
    (==_iff _ 0).1 (rw e (same→compare_from (max (length a) (length a)) 0 a))

-- The comparison in constant time accepts two texts exactly if their bytes are the same.
pub constant_time_eq_iff : (s t : Text) → (constant_time_eq s t ≡ true) ↔ (as_bytes s ≡ as_bytes t)
unfolding constant_time_eq
constant_time_eq_iff s t =
    (eq_bytes→eq (as_bytes s) (as_bytes t), λ e. rw e (eq_bytes_refl (as_bytes t)))
