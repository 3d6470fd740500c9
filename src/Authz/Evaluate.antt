-- ===== src/Authz/Evaluate.antt =====
-- `evaluate_condition` of nexusrag/services/authz/evaluator.py.
use nexus_rag.Prelude.{Bool, true, false, not, Option, none, some}
use nexus_rag.Authz.{
  Value, Items, Fields, null, bool, num, str, arr, tuple, obj, nil, cons, end, field,
}
use nexus_rag.Authz.Compare.{py_eq}
use nexus_rag.Authz.Operators.{
  Host, Eval, value, invalid, type_error, Operator, operator_of, all_of, any_of, not_, eq, ne, in_,
  not_in, gt, gte, lt, lte, contains, starts, time_between, date_between, must_be_object,
  single_operator, unsupported_operator, expects_list, resolve_operands, in_operator, less_than,
  at_most, contains_op, starts_with_op, time_between_op, date_between_op,
}

abbrev pub negate : Eval Bool → Eval Bool
negate (value b) = value (not b)
negate (invalid r) = invalid r
negate type_error = type_error

-- One entry of `all(...)` and of `any(...)`, and what the later ones give.
abbrev pub and_then : Eval Bool → Eval Bool → Eval Bool
and_then (value true) rest = rest
and_then e rest = e

abbrev pub or_then : Eval Bool → Eval Bool → Eval Bool
or_then (value false) rest = rest
or_then e rest = e

module _ (h : Host) (context : Fields) where
  -- A comparator on its two operands.
  unfoldable pub compare_with : Operator → Value × Value → Eval Bool
  compare_with eq (l, r) = value (py_eq l r)
  compare_with ne (l, r) = value (not (py_eq l r))
  compare_with in_ (l, r) = value (in_operator l r)
  compare_with not_in (l, r) = value (not (in_operator l r))
  compare_with gt (l, r) = value (less_than r l)
  compare_with gte (l, r) = value (at_most r l)
  compare_with lt (l, r) = value (less_than l r)
  compare_with lte (l, r) = value (at_most l r)
  compare_with contains (l, r) = value (contains_op h l r)
  compare_with starts (l, r) = value (starts_with_op h l r)
  compare_with time_between (l, r) = time_between_op h l r
  compare_with date_between (l, r) = date_between_op h l r
  compare_with _ (l, r) = invalid unsupported_operator

  unfoldable pub comparator : Operator → Value → Eval Bool
  comparator op payload = elim (resolve_operands h payload context) [
    | value operands ↦ compare_with op operands
    | invalid r ↦ invalid r
    | type_error ↦ type_error
  ]

  -- The branches on the operator; the three values are those of the payload as one condition, as
  -- the list of `all` and as the list of `any`.
  unfoldable pub dispatch : Option Operator → Value → Eval Bool → Eval Bool → Eval Bool → Eval Bool
  dispatch none payload one every some_ = invalid unsupported_operator
  dispatch (some all_of) payload one every some_ = every
  dispatch (some any_of) payload one every some_ = some_
  dispatch (some not_) payload one every some_ = negate one
  dispatch (some op) payload one every some_ = comparator op payload

  -- `evaluate_condition`
  unfoldable mutual
    pub evaluate_condition : Value → Eval Bool
    evaluate_condition null = value true
    evaluate_condition (bool b) = value b
    evaluate_condition (num n) = invalid must_be_object
    evaluate_condition (str s) = invalid must_be_object
    evaluate_condition (arr xs) = invalid must_be_object
    evaluate_condition (tuple xs) = invalid must_be_object
    evaluate_condition (obj end) = value true
    evaluate_condition (obj (field op payload end)) =
        dispatch (operator_of op) payload (evaluate_condition payload) (evaluate_all payload)
          (evaluate_any payload)
    evaluate_condition (obj (field op payload (field k v fs))) = invalid single_operator

    pub evaluate_all : Value → Eval Bool
    evaluate_all (arr xs) = all_items xs
    evaluate_all _ = invalid expects_list

    pub evaluate_any : Value → Eval Bool
    evaluate_any (arr xs) = any_items xs
    evaluate_any _ = invalid expects_list

    pub all_items : Items → Eval Bool
    all_items nil = value true
    all_items (cons x xs) = and_then (evaluate_condition x) (all_items xs)

    pub any_items : Items → Eval Bool
    any_items nil = value false
    any_items (cons x xs) = or_then (evaluate_condition x) (any_items xs)
