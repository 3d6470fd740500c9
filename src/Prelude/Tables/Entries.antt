-- ===== src/Prelude/Tables/Entries.antt =====
-- Entries that meet a test, before and after a selection.
use nexus_rag.Prelude.{◌≡◌, refl, String, Bool, true, ◌&&◌, some, List, [], ◌∷◌, ◌++◌, arith, All}
use nexus_rag.Prelude.Tables.{filter, any, find}

module _ {ℓ} {A : Type ℓ} where
  pub any-filter :
      (test Q : A → Bool) (xs : List A) → any Q (filter test xs) ≡ any (λ x. test x && Q x) xs
  unfolding any filter
  any-filter test Q [] = refl
  any-filter test Q (x ∷ xs) = ground (arith, any-filter test Q xs)

  pub find-any :
      (id_of : A → String) (Q : A → Bool) (k : String) (xs : List A) (x : A)
      → find id_of k xs ≡ some x
      → Q x ≡ true
      → any Q xs ≡ true
  unfolding any find
  find-any id_of Q k [] x e q = absurd (ground arith)
  find-any id_of Q k (y ∷ ys) x e q = ground (arith, find-any id_of Q k ys x)

module _ {ℓ κ} {A : Type ℓ} where
  pub All-map : (P Q : A → Type κ) (f : (x : A) → P x → Q x) (xs : List A) → All P xs → All Q xs
  All-map P Q f [] a = tt
  All-map P Q f (x ∷ xs) a = (f x a.0, All-map P Q f xs a.1)

  pub All-append : (P : A → Type κ) (xs ys : List A) → All P xs → All P ys → All P (xs ++ ys)
  All-append P [] ys a b = b
  All-append P (x ∷ xs) ys a b = (a.0, All-append P xs ys a.1 b)
