-- ===== src/Prelude/Sort.antt =====
-- `Vec::sort` and `Vec::dedup` over a total order given by its Boolean test.
pub mod Laws
use mathlib.Core.Path.{◌≡◌, refl}
use mathlib.Core.Bool.{Bool, true, false}
use mathlib.Core.Logic.{◌⊎◌, inl, inr, ◌≢◌}
use mathlib.Core.List.{List, [], ◌∷◌, ◌++◌}
use native.Mathlib.Omega.{arith}
use acip_sidecar.Prelude.Tests.{if◌then◌else◌, Bool-cases}
use acip_sidecar.Prelude.Lists.{any}

-- A total order with a test for equality, as `Ord` documents it.
pub record Order {ℓ} (A : Type ℓ) : Type ℓ where
  pub le : A → A → Bool
  pub beq : A → A → Bool
  pub beq→eq : (a b : A) → beq a b ≡ true → a ≡ b
  pub beq-refl : (a : A) → beq a a ≡ true
  pub total : (a b : A) → le a b ≡ false → le b a ≡ true
  pub trans : (a b c : A) → le a b ≡ true → le b c ≡ true → le a c ≡ true
  pub antisym : (a b : A) → le a b ≡ true → le b a ≡ true → a ≡ b

module _ {ℓ} {A : Type ℓ} (o : Order A) where
  -- A stable sort of a total order has one result; insertion gives it.
  pub insert_sorted : A → List A → List A
  insert_sorted a [] = a ∷ []
  insert_sorted a (b ∷ xs) = if o.le a b then a ∷ b ∷ xs else b ∷ insert_sorted a xs

  unfoldable pub sort : List A → List A
  unfolding insert_sorted
  sort [] = []
  sort (x ∷ xs) = insert_sorted x (sort xs)

  -- `dedup` drops each element that equals the one before it.
  unfoldable pub dedup_after : A → List A → List A
  dedup_after a [] = []
  dedup_after a (b ∷ xs) =
      let kept = b ∷ dedup_after b xs in
      let dropped = dedup_after a xs in if o.beq a b then dropped else kept

  unfoldable pub dedup : List A → List A
  unfolding dedup_after
  dedup [] = []
  dedup (x ∷ xs) = x ∷ dedup_after x xs
