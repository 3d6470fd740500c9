-- ===== src/Prelude/Sorting.antt =====
-- `order_by`: insertion into a list whose order a Boolean test gives.
use mathlib.Core.Path.{◌≡◌, refl}
use mathlib.Core.Bool.{Bool, ◌||◌}
use mathlib.Core.List.{List, [], ◌∷◌}
use native.Mathlib.Omega.{arith}
use nexus_rag.Prelude.Tests.{if◌then◌else◌}
use nexus_rag.Prelude.Tables.{any}

module _ {ℓ} {A : Type ℓ} (before : A → A → Bool) where
  unfoldable pub insert_by : A → List A → List A
  insert_by x [] = x ∷ []
  insert_by x (y ∷ ys) = let rest = insert_by x ys in if before y x then y ∷ rest else x ∷ y ∷ ys

  -- `before y x` says that `y` stands before `x`.
  unfoldable pub sort_by : List A → List A
  sort_by [] = []
  sort_by (x ∷ xs) = insert_by x (sort_by xs)

  any-insert_by :
      (test : A → Bool) (x : A) (xs : List A) → any test (insert_by x xs) ≡ (test x || any test xs)
  unfolding insert_by any
  any-insert_by test x [] = refl
  any-insert_by test x (y ∷ ys) = ground (arith, any-insert_by test x ys)

  -- Sorting keeps the entries.
  pub any-sort_by : (test : A → Bool) (xs : List A) → any test (sort_by xs) ≡ any test xs
  unfolding sort_by any
  any-sort_by test [] = refl
  any-sort_by test (x ∷ xs) = ground (arith, any-insert_by test x (sort_by xs), any-sort_by test xs)
