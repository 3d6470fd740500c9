-- ===== src/Prelude/Tables/Keys.antt =====
-- Selecting rows, and deleting or rewriting those with given keys.
use nexus_rag.Prelude.{
  ◌+◌, ◌≤◌, ◌≡◌, ◌≢◌, refl, String, str_eq, eq_iff, Bool, true, false, some, List, [], ◌∷◌, arith,
  length,
}
use nexus_rag.Prelude.Tables.{elem, filter, ids_of, find, delete_in, update_in, count_in, IsKey}

pub length-filter {ℓ} :
    {A : Type ℓ} (test : A → Bool) (xs : List A) → length (filter test xs) ≤ length xs
unfolding filter
length-filter test [] = omega arith
length-filter test (x ∷ xs) = ground (arith, length-filter test xs)

module _ {ℓ} {A : Type ℓ} (id_of : A → String) where
  elem-filter :
      (test : A → Bool) (k : String) (xs : List A)
      → elem k (ids_of id_of xs) ≡ false
      → elem k (ids_of id_of (filter test xs)) ≡ false
  unfolding elem ids_of filter
  elem-filter test k [] h = refl
  elem-filter test k (x ∷ xs) h = ground (arith, elem-filter test k xs)

  pub absent :
      (k : String) (xs : List A) (x : A)
      → elem k (ids_of id_of xs) ≡ false
      → find id_of k xs ≢ some x
  unfolding elem ids_of find
  absent k [] x h e = ground arith
  absent k (y ∷ ys) x h e = ground (arith, absent k ys x)

  -- The row of a key that the test refuses leaves the key out of those selected.
  pub filter-refused :
      (test : A → Bool) (k : String) (xs : List A) (x : A)
      → IsKey id_of xs
      → find id_of k xs ≡ some x
      → test x ≡ false
      → elem k (ids_of id_of (filter test xs)) ≡ false
  unfolding elem ids_of filter find
  filter-refused test k [] x u e h = refl
  filter-refused test k (y ∷ ys) x u e h =
      ground (
        arith,
        eq_iff k (id_of y),
        elem-filter test k ys,
        absent k ys x,
        filter-refused test k ys x,
      )

  -- A row with another key survives a deletion.
  pub find-delete :
      (ids : List String) (k : String) (xs : List A)
      → elem k ids ≡ false
      → find id_of k (delete_in id_of ids xs) ≡ find id_of k xs
  unfolding delete_in filter find
  find-delete ids k [] h = refl
  find-delete ids k (x ∷ xs) h = ground (arith, eq_iff k (id_of x), find-delete ids k xs h)

  -- A row with another key is not touched by an update.
  pub find-update :
      (ids : List String) (f : A → A) (k : String) (xs : List A)
      → ((x : A) → id_of (f x) ≡ id_of x)
      → elem k ids ≡ false
      → find id_of k (update_in id_of ids f xs) ≡ find id_of k xs
  unfolding update_in find
  find-update ids f k [] same h = refl
  find-update ids f k (x ∷ xs) same h =
      ground (arith, same x, eq_iff k (id_of x), find-update ids f k xs same h)

  count-cons :
      (i : String) (ids : List String) (xs : List A)
      → elem i (ids_of id_of xs) ≡ false
      → count_in id_of (i ∷ ids) xs ≡ count_in id_of ids xs
  unfolding count_in elem ids_of
  count-cons i ids [] h = refl
  count-cons i ids (x ∷ xs) h =
      ground (arith, eq_iff i (id_of x), eq_iff (id_of x) i, count-cons i ids xs)

  -- The database counts the rows that were selected, once each.
  pub count-filter :
      (test : A → Bool) (xs : List A)
      → IsKey id_of xs
      → count_in id_of (ids_of id_of (filter test xs)) xs ≡ length (filter test xs)
  unfolding count_in filter elem ids_of
  count-filter test [] u = refl
  count-filter test (x ∷ xs) u = ground (
    arith,
    eq_iff (id_of x) (id_of x),
    elem-filter test (id_of x) xs,
    count-cons (id_of x) (ids_of id_of (filter test xs)) xs,
    count-filter test xs,
  )

  -- The row of a key has the key.
  pub find-id : (k : String) (xs : List A) (x : A) → find id_of k xs ≡ some x → k ≡ id_of x
  unfolding find
  find-id k [] x e = ground arith
  find-id k (y ∷ ys) x e = ground (arith, eq_iff k (id_of y), find-id k ys x)

  -- The rows with one key, which need not be a primary key, survive a deletion by other keys.
  pub filter-delete :
      (ids : List String) (k : String) (xs : List A)
      → elem k ids ≡ false
      → filter (λ x. str_eq k (id_of x)) (delete_in id_of ids xs)
        ≡ filter (λ x. str_eq k (id_of x)) xs
  unfolding delete_in filter
  filter-delete ids k [] h = refl
  filter-delete ids k (x ∷ xs) h = ground (arith, eq_iff k (id_of x), filter-delete ids k xs h)

  -- And an update by other keys.
  pub filter-update :
      (ids : List String) (f : A → A) (k : String) (xs : List A)
      → ((x : A) → id_of (f x) ≡ id_of x)
      → elem k ids ≡ false
      → filter (λ x. str_eq k (id_of x)) (update_in id_of ids f xs)
        ≡ filter (λ x. str_eq k (id_of x)) xs
  unfolding update_in filter
  filter-update ids f k [] same h = refl
  filter-update ids f k (x ∷ xs) same h =
      ground (arith, same x, eq_iff k (id_of x), filter-update ids f k xs same h)

  -- A row survives a deletion by another column whose condition it does not meet.
  pub find-delete_by :
      (by : A → String) (ids : List String) (k : String) (xs : List A) (x : A)
      → find id_of k xs ≡ some x
      → elem (by x) ids ≡ false
      → find id_of k (delete_in by ids xs) ≡ some x
  unfolding delete_in filter find
  find-delete_by by ids k [] x e h = absurd (ground arith)
  find-delete_by by ids k (y ∷ ys) x e h = ground (arith, find-delete_by by ids k ys x)

  -- And an update that leaves the keys.
  pub find-update_by :
      (by : A → String) (ids : List String) (f : A → A) (k : String) (xs : List A) (x : A)
      → ((y : A) → id_of (f y) ≡ id_of y)
      → find id_of k xs ≡ some x
      → elem (by x) ids ≡ false
      → find id_of k (update_in by ids f xs) ≡ some x
  unfolding update_in find
  find-update_by by ids f k [] x same e h = absurd (ground arith)
  find-update_by by ids f k (y ∷ ys) x same e h =
      ground (arith, same y, find-update_by by ids f k ys x same)

  -- Two keys whose rows differ by a test are different.
  pub other_key :
      (test : A → Bool) (k i : String) (xs : List A) (x y : A)
      → find id_of k xs ≡ some x
      → find id_of i xs ≡ some y
      → test x ≡ false
      → test y ≡ true
      → elem k (id_of y ∷ []) ≡ false
  unfolding elem
  other_key test k i xs x y p q a b = ground (arith, eq_iff k (id_of y), find-id i xs y q)

  -- What is deleted is gone, and the rows that are left and those deleted are all.
  pub delete-gone :
      (ids : List String) (xs : List A)
      → filter (λ x. elem (id_of x) ids) (delete_in id_of ids xs) ≡ []
  unfolding delete_in filter
  delete-gone ids [] = refl
  delete-gone ids (x ∷ xs) = ground (arith, delete-gone ids xs)

  pub length-delete :
      (ids : List String) (xs : List A)
      → length xs ≡ length (delete_in id_of ids xs) + count_in id_of ids xs
  unfolding delete_in filter count_in
  length-delete ids [] = omega arith
  length-delete ids (x ∷ xs) = ground (arith, length-delete ids xs)

  count-absent :
      (k : String) (xs : List A) → elem k (ids_of id_of xs) ≡ false → count_in id_of (k ∷ []) xs ≡ 0
  unfolding count_in elem ids_of
  count-absent k [] h = refl
  count-absent k (x ∷ xs) h =
      ground (arith, eq_iff k (id_of x), eq_iff (id_of x) k, count-absent k xs)

  -- One row has a primary key that is there.
  pub count-one :
      (k : String) (xs : List A) (x : A)
      → IsKey id_of xs
      → find id_of k xs ≡ some x
      → count_in id_of (id_of x ∷ []) xs ≡ 1
  unfolding count_in elem ids_of find
  count-one k [] x u e = absurd (ground arith)
  count-one k (y ∷ ys) x u e = ground (
    arith,
    eq_iff k (id_of y),
    eq_iff (id_of x) (id_of y),
    eq_iff (id_of y) (id_of x),
    count-absent (id_of y) ys,
    absent k ys x,
    find-id k ys x,
    count-one k ys x,
  )
