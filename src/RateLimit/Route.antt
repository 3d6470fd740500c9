-- ===== src/RateLimit/Route.antt =====
-- `route_class_for_path` of nexusrag/apps/api/rate_limit.py.
use text.Mathlib.Text.{starts_with}
use nexus_rag.Prelude.{ℕ, zero, suc, String, str_eq, Bool, true, false, ◌||◌, ◌&&◌, if◌then◌else◌}

-- The request's method, in upper case.
pub data Method : Type 0 where
  post patch delete other_method : Method

-- The `ROUTE_CLASS_*` constants.
pub data RouteClass : Type 0 where
  run mutation read ops : RouteClass

abbrev pub is_write : Method → Bool
is_write other_method = false
is_write _ = true

-- `text[n:]`
unfoldable pub drop_chars : ℕ → String → String
drop_chars zero s = s
drop_chars (suc n) String.[] = String.[]
drop_chars (suc n) (String.◌∷◌ c s) = drop_chars n s

abbrev pub run_weight : ℕ
run_weight = 3

unfoldable pub normalized : String → String
unfolding drop_chars
normalized path = if starts_with path "/v1/" then drop_chars 3 path else path

abbrev pub is_write_path : String → Bool
is_write_path p =
    starts_with p "/documents"
    || starts_with p "/corpora"
    || starts_with p "/audit"
    || starts_with p "/admin"
    || starts_with p "/self-serve"

unfoldable pub class_of : String → Method → RouteClass × ℕ
class_of p m =
    if str_eq p "/run"
    then (run, run_weight)
    else if starts_with p "/ops/"
    then (ops, 1)
    else if starts_with p "/audit/events"
    then (ops, 1)
    else if starts_with p "/ui/"
    then (if is_write m then mutation else read, 1)
    else if is_write m && is_write_path p
    then (mutation, 1)
    else (read, 1)

-- `route_class_for_path`: the class and its weight.
unfoldable pub route_class_for_path : String → Method → RouteClass × ℕ
unfolding normalized class_of
route_class_for_path path m = class_of (normalized path) m

abbrev pub class_name : RouteClass → String
class_name run = "run"
class_name mutation = "mutation"
class_name read = "read"
class_name ops = "ops"
