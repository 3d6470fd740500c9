-- ===== src/Authz/Laws.antt =====
-- What `validate_condition` rules out for `evaluate_condition`.
use nexus_rag.Prelude.{ℕ, ◌≡◌, ◌≢◌, refl, Bool, true, false, Option, none, some, arith}
use nexus_rag.Authz.{
  Value, Items, Fields, null, bool, num, str, arr, tuple, obj, nil, cons, end, field,
}
use nexus_rag.Authz.Operators.{
  Host, Eval, value, invalid, type_error, Operator, operator_of, all_of, any_of, not_, time_between,
  date_between, Reason, comparator_payload, expects_start_end, resolve_operands, time_between_op,
  date_between_op,
}
use nexus_rag.Authz.Evaluate.{
  and_then, or_then, compare_with, comparator, dispatch, evaluate_condition, evaluate_all,
  evaluate_any, all_items, any_items,
}
use nexus_rag.Authz.Validate.{
  structure_of, validate_structure, validate_list, validate_items, validate_condition, first_reason,
}

-- An evaluation ends with a value or a `TypeError`, or complains about an operand, never about the
-- form of a condition.
abbrev pub is_operand_reason : Reason → Bool
is_operand_reason comparator_payload = true
is_operand_reason expects_start_end = true
is_operand_reason _ = false

abbrev pub well_formed : Eval Bool → Bool
well_formed (invalid r) = is_operand_reason r
well_formed _ = true

first_reason-none : (o q : Option Reason) → first_reason o q ≡ none → (o ≡ none) × (q ≡ none)
first_reason-none o q h = ground arith

and_then-well_formed :
    (a b : Eval Bool)
    → well_formed a ≡ true
    → well_formed b ≡ true
    → well_formed (and_then a b) ≡ true
and_then-well_formed a b p q = ground arith

or_then-well_formed :
    (a b : Eval Bool)
    → well_formed a ≡ true
    → well_formed b ≡ true
    → well_formed (or_then a b) ≡ true
or_then-well_formed a b p q = ground arith

module _ (h : Host) (context : Fields) where
  time_between-well_formed : (l r : Value) → well_formed (time_between_op h l r) ≡ true
  unfolding time_between_op
  time_between-well_formed l (obj fs) = refl
  time_between-well_formed l _ = refl

  date_between-well_formed : (l r : Value) → well_formed (date_between_op h l r) ≡ true
  unfolding date_between_op
  date_between-well_formed l (obj fs) = ground arith
  date_between-well_formed l _ = refl

  -- The operands are found, or the payload is the fault.
  abbrev operands_fault : Eval (Value × Value) → Bool
  operands_fault (value p) = true
  operands_fault (invalid r) = is_operand_reason r
  operands_fault type_error = false

  resolve_operands_fault : (v : Value) → operands_fault (resolve_operands h v context) ≡ true
  unfolding resolve_operands
  resolve_operands_fault (obj fs) = ground arith
  resolve_operands_fault (arr nil) = refl
  resolve_operands_fault (arr (cons a nil)) = refl
  resolve_operands_fault (arr (cons a (cons b nil))) = refl
  resolve_operands_fault (arr (cons a (cons b (cons c xs)))) = refl
  resolve_operands_fault _ = refl

  compare_with-well_formed :
      (op : Operator) (l r : Value)
      → op ≢ all_of
      → op ≢ any_of
      → op ≢ not_
      → well_formed (compare_with h context op (l, r)) ≡ true
  unfolding compare_with
  compare_with-well_formed all_of l r a b c = absurd (a refl)
  compare_with-well_formed any_of l r a b c = absurd (b refl)
  compare_with-well_formed not_ l r a b c = absurd (c refl)
  compare_with-well_formed time_between l r a b c = time_between-well_formed l r
  compare_with-well_formed date_between l r a b c = date_between-well_formed l r
  compare_with-well_formed _ l r a b c = refl

  comparator-well_formed :
      (op : Operator) (v : Value)
      → op ≢ all_of
      → op ≢ any_of
      → op ≢ not_
      → well_formed (comparator h context op v) ≡ true
  unfolding comparator
  comparator-well_formed op v a b c = go (resolve_operands h v context) (resolve_operands_fault v)
    where
      go :
          (e : Eval (Value × Value))
          → operands_fault e ≡ true
          → well_formed (elim e [
            | value operands ↦ compare_with h context op operands
            | invalid r ↦ invalid r
            | type_error ↦ type_error
          ])
            ≡ true
      go (value (l, r)) f = compare_with-well_formed op l r a b c
      go (invalid r) f = f
      go type_error f = refl

  -- One operator, given what holds of its payload.
  dispatch-well_formed :
      (o : Option Operator) (v : Value) (many one : Option Reason) (e every some_ : Eval Bool)
      → structure_of o many one ≡ none
      → (many ≡ none → well_formed every ≡ true)
      → (many ≡ none → well_formed some_ ≡ true)
      → (one ≡ none → well_formed e ≡ true)
      → well_formed (dispatch h context o v e every some_) ≡ true
  unfolding dispatch structure_of
  dispatch-well_formed none v many one e every some_ s a b c = cc
  dispatch-well_formed (some all_of) v many one e every some_ s a b c = a s
  dispatch-well_formed (some any_of) v many one e every some_ s a b c = b s
  dispatch-well_formed (some not_) v many one e every some_ s a b c = ground (arith, c s)
  dispatch-well_formed (some op) v many one e every some_ s a b c =
      comparator-well_formed op v (λ q. cc) (λ q. cc) (λ q. cc)

  mutual
    unfolding evaluate_condition validate_structure

    evaluate-well_formed :
        (v : Value)
        → validate_structure v ≡ none
        → well_formed (evaluate_condition h context v) ≡ true
    evaluate-well_formed null p = refl
    evaluate-well_formed (bool b) p = refl
    evaluate-well_formed (num n) p = cc
    evaluate-well_formed (str s) p = cc
    evaluate-well_formed (arr xs) p = cc
    evaluate-well_formed (tuple xs) p = cc
    evaluate-well_formed (obj end) p = refl
    evaluate-well_formed (obj (field op v end)) p =
        dispatch-well_formed (operator_of op) v (validate_list v) (validate_structure v)
          (evaluate_condition h context v) (evaluate_all h context v) (evaluate_any h context v) p
          (λ q. (list-well_formed v q).0) (λ q. (list-well_formed v q).1)
          (λ q. evaluate-well_formed v q)
    evaluate-well_formed (obj (field op v (field k w fs))) p = cc

    list-well_formed :
        (v : Value)
        → validate_list v ≡ none
        → (well_formed (evaluate_all h context v) ≡ true)
          × (well_formed (evaluate_any h context v) ≡ true)
    list-well_formed (arr xs) p = items-well_formed xs p
    list-well_formed null p = cc
    list-well_formed (bool b) p = cc
    list-well_formed (num n) p = cc
    list-well_formed (str s) p = cc
    list-well_formed (tuple xs) p = cc
    list-well_formed (obj fs) p = cc

    items-well_formed :
        (xs : Items)
        → validate_items xs ≡ none
        → (well_formed (all_items h context xs) ≡ true)
          × (well_formed (any_items h context xs) ≡ true)
    items-well_formed nil p = (refl, refl)
    items-well_formed (cons x xs) p =
        let (p', q) = first_reason-none (validate_structure x) (validate_items xs) p in
        let one = evaluate-well_formed x p' in
        let rest = items-well_formed xs q in
        (
          and_then-well_formed (evaluate_condition h context x) (all_items h context xs) one rest.0,
          or_then-well_formed (evaluate_condition h context x) (any_items h context xs) one rest.1,
        )

-- A condition that `validate_condition` accepts evaluates, in every context, to a value or a
-- `TypeError`, or is refused for its operands: never because of an operator or the form.
pub validated-well_formed :
    (h : Host) (context : Fields) (v : Value) (max_depth : ℕ)
    → validate_condition v max_depth ≡ none
    → well_formed (evaluate_condition h context v) ≡ true
unfolding validate_condition evaluate_condition
validated-well_formed h context (obj end) m p = refl
validated-well_formed h context v m p = evaluate-well_formed h context v (ground arith)
