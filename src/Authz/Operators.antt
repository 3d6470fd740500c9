-- ===== src/Authz/Operators.antt =====
-- The comparators of a condition: the operands, and each operator on two values (evaluator.py).
-- What Python's `str` makes of a value that is no text, and how it reads times and dates, is a
-- `Host`.
use Prim.Native.Char.{code}
use text.Mathlib.Text.{starts_with, find?}
use nexus_rag.Prelude.{
  ℕ, String, str_eq, Bool, true, false, ◌&&◌, ◌||◌, not, Option, none, some, List, [], ◌∷◌, leb,
  ◌==◌, if◌then◌else◌,
}
use nexus_rag.Authz.{
  Value, Fields, null, str, arr, tuple, obj, nil, cons, end, field, get, get_or_null, is_some,
}
use nexus_rag.Authz.Compare.{py_eq, py_lt, member}

-- A point in time, with a time zone or without one.
pub data Instant : Type 0 where
  naive aware : ℕ → Instant

pub record Host : Type 0 where
  -- `str(value)`, of a value that is no text
  pub shown : Value → String
  -- `datetime.fromisoformat(value).time()`, and `strptime` with the two formats
  pub iso_time : String → Option ℕ
  pub strptime_hms : String → Option ℕ
  pub strptime_hm : String → Option ℕ
  -- `datetime.fromisoformat(value.replace("Z", "+00:00"))`
  pub iso_datetime : String → Option Instant

-- The messages of `PolicyInvalidError`.
pub data Reason : Type 0 where
  must_be_object single_operator unsupported_operator expects_list : Reason
  comparator_payload expects_start_end : Reason

-- How an evaluation ends: with a value, with a `PolicyInvalidError`, or with a `TypeError`.
pub data Eval (A : Type 0) : Type 0 where
  value : A → Eval A
  invalid : Reason → Eval A
  type_error : Eval A

pub data Operator : Type 0 where
  all_of any_of not_ eq ne in_ not_in gt gte lt lte contains starts : Operator
  time_between date_between : Operator

-- The keys of `_ALLOWED_OPERATORS`.
unfoldable pub operator_of : String → Option Operator
operator_of s =
    if str_eq s "all"
    then some all_of
    else if str_eq s "any"
    then some any_of
    else if str_eq s "not"
    then some not_
    else if str_eq s "eq"
    then some eq
    else if str_eq s "ne"
    then some ne
    else if str_eq s "in"
    then some in_
    else if str_eq s "not_in"
    then some not_in
    else if str_eq s "gt"
    then some gt
    else if str_eq s "gte"
    then some gte
    else if str_eq s "lt"
    then some lt
    else if str_eq s "lte"
    then some lte
    else if str_eq s "contains"
    then some contains
    else if str_eq s "starts_with"
    then some starts
    else if str_eq s "time_between"
    then some time_between
    else if str_eq s "date_between"
    then some date_between
    else none

-- `path.split(".")`
unfoldable pub split_dots : String → List String
split_dots String.[] = "" ∷ []
split_dots (String.◌∷◌ c s) =
    let rest = split_dots s in
    if code c == b'.' then "" ∷ rest else elim rest [ [] ↦ [] | w ∷ ws ↦ String.◌∷◌ c w ∷ ws ]

-- One step of `_resolve_path`.
abbrev pub enter : String → Value → Option Value
enter k (obj fs) = get k fs
enter k _ = none

unfoldable pub walk : List String → Value → Value
walk [] v = v
walk (k ∷ ks) v = elim (enter k v) [ none ↦ null | some w ↦ walk ks w ]

-- `_resolve_path`
unfoldable pub resolve_path : Fields → String → Value
unfolding walk split_dots
resolve_path context path = if str_eq path "" then null else walk (split_dots path) (obj context)

-- `_in_operator`
unfoldable pub in_operator : Value → Value → Bool
in_operator left null = false
in_operator left (arr xs) = member left xs
in_operator left (tuple xs) = member left xs
in_operator left right = py_eq left right

abbrev pub none_is_false : Option Bool → Bool
none_is_false none = false
none_is_false (some b) = b

-- `_compare`: `None` has no order, and a `TypeError` is false.
unfoldable pub less_than : Value → Value → Bool
less_than l r = none_is_false (py_lt l r)

unfoldable pub at_most : Value → Value → Bool
at_most l r = elim (py_lt r l) [ none ↦ false | some b ↦ not b ]

abbrev pub or_else : Option ℕ → Option ℕ → Option ℕ
or_else (some t) o = some t
or_else none o = o

-- The window of `_time_between`; it may run over midnight.
unfoldable pub in_window : ℕ → ℕ → ℕ → Bool
in_window start finish v =
    if leb start finish then leb start v && leb v finish else leb start v || leb v finish

abbrev pub within : Option ℕ → Option ℕ → Option ℕ → Bool
within (some s) (some e) (some v) = in_window s e v
within _ _ _ = false

-- `a <= b`: a time with a zone and one without have no order.
abbrev pub instant_le : Instant → Instant → Eval Bool
instant_le (naive a) (naive b) = value (leb a b)
instant_le (aware a) (aware b) = value (leb a b)
instant_le _ _ = type_error

abbrev pub both : Eval Bool → Eval Bool → Eval Bool
both (value true) e = e
both e _ = e

abbrev pub dates_within : Option Instant → Option Instant → Option Instant → Eval Bool
dates_within (some s) (some e) (some v) = both (instant_le s v) (instant_le v e)
dates_within _ _ _ = value false

module _ (h : Host) where
  -- `str(value)`
  abbrev pub text_of : Value → String
  text_of (str s) = s
  text_of v = h.shown v

  -- `_resolve_operand`
  unfoldable pub resolve_operand : Value → Fields → Value
  unfolding resolve_path
  resolve_operand (obj fs) context = elim (get "var" fs) [
    | none ↦ obj fs
    | some v ↦ resolve_path context (text_of v)
  ]
  resolve_operand v context = v

  -- `_resolve_operands`
  unfoldable pub resolve_operands : Value → Fields → Eval (Value × Value)
  unfolding resolve_operand get_or_null
  resolve_operands (arr (cons a (cons b nil))) context =
      value (resolve_operand a context, resolve_operand b context)
  resolve_operands (obj fs) context =
      if is_some (get "field" fs)
      then value (
        resolve_operand (obj (field "var" (get_or_null "field" fs) end)) context,
        resolve_operand (get_or_null "value" fs) context,
      )
      else if is_some (get "left" fs)
      then value (
        resolve_operand (get_or_null "left" fs) context,
        resolve_operand (get_or_null "right" fs) context,
      )
      else invalid comparator_payload
  resolve_operands _ context = invalid comparator_payload

  -- `_contains`
  unfoldable pub contains_op : Value → Value → Bool
  contains_op (str s) right = is_some (find? s (text_of right))
  contains_op (arr xs) right = member right xs
  contains_op (tuple xs) right = member right xs
  contains_op _ right = false

  -- `_starts_with`
  unfoldable pub starts_with_op : Value → Value → Bool
  starts_with_op (str s) null = false
  starts_with_op (str s) right = starts_with s (text_of right)
  starts_with_op _ right = false

  -- `_parse_time`
  unfoldable pub parse_time : Value → Option ℕ
  parse_time (str s) = or_else (h.iso_time s) (or_else (h.strptime_hms s) (h.strptime_hm s))
  parse_time _ = none

  -- `_time_between`
  unfoldable pub time_between_op : Value → Value → Eval Bool
  unfolding parse_time in_window get_or_null
  time_between_op left (obj fs) = value (
      within (parse_time (get_or_null "start" fs)) (parse_time (get_or_null "end" fs))
        (parse_time left))
  time_between_op left _ = invalid expects_start_end

  -- `_parse_datetime`
  unfoldable pub parse_datetime : Value → Option Instant
  parse_datetime (str s) = h.iso_datetime s
  parse_datetime _ = none

  -- `_date_between`
  unfoldable pub date_between_op : Value → Value → Eval Bool
  unfolding parse_datetime get_or_null
  date_between_op left (obj fs) =
      dates_within (parse_datetime (get_or_null "start" fs)) (parse_datetime (get_or_null "end" fs))
        (parse_datetime left)
  date_between_op left _ = invalid expects_start_end
