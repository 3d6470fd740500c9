-- ===== src/Authz/Compare.antt =====
-- Equality, order and membership of values, as Python has them: a Boolean is the number 0 or 1,
-- lists and tuples are compared entry by entry, and what has no order raises a `TypeError`.
use Prim.Native.Nat.{Ordering}
use Prim.Native.String.{compare}
use nexus_rag.Prelude.{
  ℕ, suc, String, str_eq, Bool, true, false, ◌&&◌, ◌||◌, Option, none, some, ◌==◌, if◌then◌else◌,
}
use nexus_rag.Prelude.Int.{ℤ, pos, ltb_ℤ, eqb_ℤ}
use nexus_rag.Authz.{
  Value, Items, Fields, null, bool, num, str, arr, tuple, obj, nil, cons, end, field, get,
}

unfoldable pub size : Fields → ℕ
size end = 0
size (field k v fs) = suc (size fs)

abbrev pub of_bool : Bool → ℤ
of_bool true = pos 1
of_bool false = pos 0

-- The number that a value is.
abbrev pub as_int : Value → Option ℤ
as_int (bool b) = some (of_bool b)
as_int (num n) = some n
as_int _ = none

abbrev pub same_int : ℤ → Option ℤ → Bool
same_int a none = false
same_int a (some b) = eqb_ℤ a b

abbrev pub is_null : Value → Bool
is_null null = true
is_null _ = false

abbrev pub same_str : String → Value → Bool
same_str s (str t) = str_eq s t
same_str s _ = false

abbrev pub items_of_arr : Value → Option Items
items_of_arr (arr xs) = some xs
items_of_arr _ = none

abbrev pub items_of_tuple : Value → Option Items
items_of_tuple (tuple xs) = some xs
items_of_tuple _ = none

abbrev pub fields_of : Value → Option Fields
fields_of (obj fs) = some fs
fields_of _ = none

-- `left == right`. Two objects are equal if they have as many keys and the same value at each.
unfoldable mutual
  pub py_eq : Value → Value → Bool
  py_eq null w = is_null w
  py_eq (bool b) w = same_int (of_bool b) (as_int w)
  py_eq (num n) w = same_int n (as_int w)
  py_eq (str s) w = same_str s w
  py_eq (arr xs) w = elim (items_of_arr w) [ none ↦ false | some ys ↦ eq_items xs ys ]
  py_eq (tuple xs) w = elim (items_of_tuple w) [ none ↦ false | some ys ↦ eq_items xs ys ]
  py_eq (obj fs) w = elim (fields_of w) [
    | none ↦ false
    | some gs ↦ size fs == size gs && eq_fields fs gs
  ]

  pub eq_items : Items → Items → Bool
  eq_items nil nil = true
  eq_items nil (cons y ys) = false
  eq_items (cons x xs) nil = false
  eq_items (cons x xs) (cons y ys) = py_eq x y && eq_items xs ys

  pub eq_fields : Fields → Fields → Bool
  eq_fields end gs = true
  eq_fields (field k v fs) gs =
      elim (get k gs) [ none ↦ false | some w ↦ py_eq v w ] && eq_fields fs gs

abbrev pub less : Ordering → Bool
less Ordering.lt = true
less _ = false

-- `left < right`; `none` is a `TypeError`.
unfoldable mutual
  unfolding py_eq

  pub py_lt : Value → Value → Option Bool
  py_lt null w = none
  py_lt (bool b) w = elim (as_int w) [ none ↦ none | some n ↦ some (ltb_ℤ (of_bool b) n) ]
  py_lt (num m) w = elim (as_int w) [ none ↦ none | some n ↦ some (ltb_ℤ m n) ]
  py_lt (str s) w = elim w [ str t ↦ some (less (compare s t)) | _ ↦ none ]
  py_lt (arr xs) w = elim (items_of_arr w) [ none ↦ none | some ys ↦ lt_items xs ys ]
  py_lt (tuple xs) w = elim (items_of_tuple w) [ none ↦ none | some ys ↦ lt_items xs ys ]
  py_lt (obj fs) w = none

  -- The first two entries that differ decide, or the lengths.
  pub lt_items : Items → Items → Option Bool
  lt_items nil nil = some false
  lt_items nil (cons y ys) = some true
  lt_items (cons x xs) nil = some false
  lt_items (cons x xs) (cons y ys) =
      let here = py_lt x y in let rest = lt_items xs ys in if py_eq x y then rest else here

-- `left in right`, over the entries.
unfoldable pub member : Value → Items → Bool
member v nil = false
member v (cons x xs) = py_eq v x || member v xs
