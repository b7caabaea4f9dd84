-- ===== src/Prelude/Sort/Laws.antt =====
-- Sorting, and then dropping repetitions.
use mathlib.Core.Path.{◌≡◌, refl, sym, ◌∙◌, ap}
use mathlib.Core.Bool.{Bool, true, false, ◌||◌}
use mathlib.Core.List.{List, [], ◌∷◌}
use native.Mathlib.Omega.{arith}
use acip_sidecar.Prelude.Tests.{if_cases}
use acip_sidecar.Prelude.Lists.{any}
use acip_sidecar.Prelude.Sort.{Order, insert_sorted, sort, dedup_after, dedup}

module _ {ℓ} {A : Type ℓ} (o : Order A) where
  -- Whether a list has an element with a property does not change.
  abbrev Ascending : A → List A → Type 0
  Ascending a [] = Unit
  Ascending a (b ∷ xs) = (o.le a b ≡ true) × Ascending b xs

  abbrev IsSorted : List A → Type 0
  IsSorted [] = Unit
  IsSorted (x ∷ xs) = Ascending x xs

  -- Strictly: each element is below the next and is another.
  abbrev pub StrictFrom : A → List A → Type 0
  StrictFrom a [] = Unit
  StrictFrom a (b ∷ xs) = (o.le a b ≡ true) × (o.beq a b ≡ false) × StrictFrom b xs

  abbrev pub IsStrict : List A → Type 0
  IsStrict [] = Unit
  IsStrict (x ∷ xs) = StrictFrom x xs

  insert-Ascending :
      (a x : A) (xs : List A)
      → o.le a x ≡ true
      → Ascending a xs
      → Ascending a (insert_sorted o x xs)
  unfolding insert_sorted
  insert-Ascending a x [] le h = (le, tt)
  insert-Ascending a x (b ∷ xs) le (ab, h) =
      if_cases (Ascending a) (o.le x b) (λ xb. (le, (xb, h)))
        (λ not_xb. (ab, insert-Ascending b x xs (o.total x b not_xb) h))

  insert-IsSorted : (x : A) (xs : List A) → IsSorted xs → IsSorted (insert_sorted o x xs)
  unfolding insert_sorted
  insert-IsSorted x [] h = tt
  insert-IsSorted x (b ∷ xs) h =
      if_cases IsSorted (o.le x b) (λ xb. (xb, h))
        (λ not_xb. insert-Ascending b x xs (o.total x b not_xb) h)

  sort-IsSorted : (xs : List A) → IsSorted (sort o xs)
  unfolding sort
  sort-IsSorted [] = tt
  sort-IsSorted (x ∷ xs) = insert-IsSorted x (sort o xs) (sort-IsSorted xs)

  dedup_after-StrictFrom :
      (a : A) (xs : List A) → Ascending a xs → StrictFrom a (dedup_after o a xs)
  unfolding dedup_after
  dedup_after-StrictFrom a [] h = tt
  dedup_after-StrictFrom a (b ∷ xs) (ab, h) =
      if_cases (StrictFrom a) (o.beq a b)
        (λ same. let e : b ≡ a = sym (o.beq→eq a b same) in dedup_after-StrictFrom a xs (rw e at h))
        (λ differ. (ab, differ, dedup_after-StrictFrom b xs h))

  dedup-IsStrict : (xs : List A) → IsSorted xs → IsStrict (dedup o xs)
  unfolding dedup
  dedup-IsStrict [] h = tt
  dedup-IsStrict (x ∷ xs) h = dedup_after-StrictFrom x xs h

  -- The result of sorting and dropping repetitions is strictly ascending.
  pub dedup-sort-IsStrict : (xs : List A) → IsStrict (dedup o (sort o xs))
  dedup-sort-IsStrict xs = dedup-IsStrict (sort o xs) (sort-IsSorted xs)

  any-insert_sorted :
      (p : A → Bool) (x : A) (xs : List A) → any p (insert_sorted o x xs) ≡ any p (x ∷ xs)
  unfolding insert_sorted
  any-insert_sorted p x [] = refl
  any-insert_sorted p x (b ∷ xs) =
      if_cases (λ ys. any p ys ≡ any p (x ∷ b ∷ xs)) (o.le x b) (λ _. refl)
        (λ _. ap (◌||◌ (p b)) (any-insert_sorted p x xs) ∙ swap (p b) (p x) (any p xs))
    where
      swap : (b c d : Bool) → (b || (c || d)) ≡ (c || (b || d))
      swap b c d = ground arith

  pub any-sort : (p : A → Bool) (xs : List A) → any p (sort o xs) ≡ any p xs
  unfolding sort
  any-sort p [] = refl
  any-sort p (x ∷ xs) = any-insert_sorted p x (sort o xs) ∙ ap (◌||◌ (p x)) (any-sort p xs)

  or_or : (b c : Bool) → (b || (b || c)) ≡ (b || c)
  or_or b c = ground arith

  any-dedup_after :
      (p : A → Bool) (a : A) (xs : List A) → any p (a ∷ dedup_after o a xs) ≡ any p (a ∷ xs)
  unfolding dedup_after
  any-dedup_after p a [] = refl
  any-dedup_after p a (b ∷ xs) =
      if_cases (λ ys. any p (a ∷ ys) ≡ any p (a ∷ b ∷ xs)) (o.beq a b)
        (λ same.
          let e : p b ≡ p a = ap p (sym (o.beq→eq a b same)) in
          any-dedup_after p a xs
          ∙ sym (ap (λ q. p a || (q || any p xs)) e ∙ or_or (p a) (any p xs)))
        (λ _. ap (◌||◌ (p a)) (any-dedup_after p b xs))

  any-dedup : (p : A → Bool) (xs : List A) → any p (dedup o xs) ≡ any p xs
  unfolding dedup
  any-dedup p [] = refl
  any-dedup p (x ∷ xs) = any-dedup_after p x xs

  -- Sorting and dropping repetitions neither adds an element nor loses one.
  pub any-dedup-sort : (p : A → Bool) (xs : List A) → any p (dedup o (sort o xs)) ≡ any p xs
  any-dedup-sort p xs = any-dedup p (sort o xs) ∙ any-sort p xs
