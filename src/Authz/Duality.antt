-- ===== src/Authz/Duality.antt =====
-- Negation of conditions against `all` and `any`, and windows of a day against their complements.
use nexus_rag.Prelude.{ℕ, ◌≡◌, ◌≢◌, ◌⊎◌, refl, Bool, true, String, arith, ◌||◌}
use nexus_rag.Authz.{Value, Items, Fields, arr, obj, nil, cons, end, field}
use nexus_rag.Authz.Operators.{Host, Eval, operator_of, in_window}
use nexus_rag.Authz.Evaluate.{
  negate, and_then, or_then, dispatch, evaluate_condition, all_items, any_items,
}

-- `{"not": v}`, and `{key: [...]}`.
abbrev pub not_of : Value → Value
not_of v = obj (field "not" v end)

abbrev pub list_of : String → Items → Value
list_of key xs = obj (field key (arr xs) end)

-- Each condition negated.
unfoldable pub negated : Items → Items
negated nil = nil
negated (cons x xs) = cons (not_of x) (negated xs)

negate-and_then : (a b c : Eval Bool) → negate b ≡ c → negate (and_then a b) ≡ or_then (negate a) c
negate-and_then a b c e = ground arith

negate-or_then : (a b c : Eval Bool) → negate b ≡ c → negate (or_then a b) ≡ and_then (negate a) c
negate-or_then a b c e = ground arith

module _ (h : Host) (context : Fields) where
  negate-all_items :
      (xs : Items) → negate (all_items h context xs) ≡ any_items h context (negated xs)
  unfolding evaluate_condition dispatch operator_of negated
  negate-all_items nil = refl
  negate-all_items (cons x xs) =
      negate-and_then (evaluate_condition h context x) (all_items h context xs)
        (any_items h context (negated xs)) (negate-all_items xs)

  negate-any_items :
      (xs : Items) → negate (any_items h context xs) ≡ all_items h context (negated xs)
  unfolding evaluate_condition dispatch operator_of negated
  negate-any_items nil = refl
  negate-any_items (cons x xs) =
      negate-or_then (evaluate_condition h context x) (any_items h context xs)
        (all_items h context (negated xs)) (negate-any_items xs)

  -- Negating `all` is `any` of the negated conditions, and the other way round: the value, the
  -- complaint and the entry that decides are the same.
  pub de_morgan :
      (xs : Items)
      → (evaluate_condition h context (not_of (list_of "all" xs))
          ≡ evaluate_condition h context (list_of "any" (negated xs)))
        × (evaluate_condition h context (not_of (list_of "any" xs))
            ≡ evaluate_condition h context (list_of "all" (negated xs)))
  unfolding evaluate_condition dispatch operator_of
  de_morgan xs = (negate-all_items xs, negate-any_items xs)

-- For two different bounds, a time of day lies in the window from the first to the second or in the
-- window back, one of which runs over midnight, and in both only where it is one of the bounds.
pub in_window_cover :
    (start finish v : ℕ)
    → start ≢ finish
    → (in_window start finish v || in_window finish start v ≡ true)
      × (in_window start finish v ≡ true
          → in_window finish start v ≡ true
          → (v ≡ start) ⊎ (v ≡ finish))
unfolding in_window
in_window_cover start finish v apart = ground arith
