-- ===== src/Prelude/Tables.antt =====
-- A table as the list of its rows, read and written by its primary key.
pub mod Keys
pub mod Entries
use Prim.Native.Nat.{ℕ, suc}
use Prim.Native.String.{String}
use mathlib.Core.Path.{◌≡◌, refl}
use mathlib.Core.Logic.{inl, inr}
use mathlib.Core.Bool.{Bool, true, false, not, ◌||◌}
use mathlib.Core.Option.{Option, none, some}
use mathlib.Core.List.{List, [], ◌∷◌}
use native.Mathlib.Omega.{arith}
use text.Mathlib.Text.{◌==◌ as str_eq}
use text.Mathlib.TextEquality.{eq_iff}
use nexus_rag.Prelude.Tests.{if◌then◌else◌, Bool-cases}
use nexus_rag.Prelude.Lists.{length}

unfoldable pub elem : String → List String → Bool
elem k [] = false
elem k (x ∷ xs) = str_eq k x || elem k xs

-- `[x for x in xs if test(x)]`, and `.where(test)`.
unfoldable pub filter {ℓ} : {A : Type ℓ} → (A → Bool) → List A → List A
filter test [] = []
filter test (x ∷ xs) = let rest = filter test xs in if test x then x ∷ rest else rest

unfoldable pub any {ℓ} : {A : Type ℓ} → (A → Bool) → List A → Bool
any test [] = false
any test (x ∷ xs) = test x || any test xs

module _ {ℓ} {A : Type ℓ} (id_of : A → String) where
  unfoldable pub ids_of : List A → List String
  ids_of [] = []
  ids_of (x ∷ xs) = id_of x ∷ ids_of xs

  -- `session.get(A, key)`
  unfoldable pub find : String → List A → Option A
  find k [] = none
  find k (x ∷ xs) = if str_eq k (id_of x) then some x else find k xs

  -- `delete(A).where(A.id.in_(ids))`
  unfoldable pub delete_in : List String → List A → List A
  delete_in ids xs = filter (λ x. not (elem (id_of x) ids)) xs

  -- `update(A).where(A.id.in_(ids)).values(..)`
  unfoldable pub update_in : List String → (A → A) → List A → List A
  update_in ids f [] = []
  update_in ids f (x ∷ xs) = (if elem (id_of x) ids then f x else x) ∷ update_in ids f xs

  -- The `rowcount` of both: the rows that the condition selects.
  unfoldable pub count_in : List String → List A → ℕ
  count_in ids [] = 0
  count_in ids (x ∷ xs) =
      let rest = count_in ids xs in if elem (id_of x) ids then suc rest else rest

  -- No two rows have the same key.
  abbrev pub IsKey : List A → Type 0
  IsKey [] = Unit
  IsKey (x ∷ xs) = (elem (id_of x) (ids_of xs) ≡ false) × IsKey xs
