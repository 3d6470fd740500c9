-- ===== src/Idempotency.antt =====
-- nexusrag/services/idempotency.py and the pruning of its records in
-- nexusrag/services/maintenance.py. Times are seconds since the epoch.
pub mod Replay
mod Examples
use Prim.Native.String.{count}
use nexus_rag.Prelude.{
  ℕ, ◌+◌, ◌*◌, String, str_eq, Bool, true, false, not, ◌&&◌, ◌||◌, Option, none, some, List, [],
  ◌∷◌, ltb, if◌then◌else◌,
}
use nexus_rag.Prelude.Tables.{filter, any}
use nexus_rag.Authz.{Value, Fields, str, obj, get_or_null}

pub record IdempotencyScope : Type 0 where
  pub tenant_id : String
  pub actor_id : String
  pub method : String
  pub path : String
  pub key : String

abbrev pub same_scope : IdempotencyScope → IdempotencyScope → Bool
same_scope s t =
    str_eq s.tenant_id t.tenant_id
    && str_eq s.actor_id t.actor_id
    && str_eq s.method t.method
    && str_eq s.path t.path
    && str_eq s.key t.key

pub record IdempotencyRecord : Type 0 where
  pub scope : IdempotencyScope
  pub request_hash : String
  pub response_status : ℕ
  pub response_body_json : Option Value
  pub expires_at : ℕ

pub record IdempotencyReplay : Type 0 where
  pub status_code : ℕ
  pub body : Option Value
  pub request_id : Option String

pub record IdempotencyContext : Type 0 where
  pub scope : IdempotencyScope
  pub request_hash : String
  pub ttl_hours : ℕ

pub record Settings : Type 0 where
  pub idempotency_enabled : Bool
  pub idempotency_ttl_hours : ℕ
  -- Python's `str.strip` and `str.upper`
  pub strip : String → String
  pub upper : String → String

pub record Request : Type 0 where
  pub is_versioned : Bool
  pub method : String
  pub path : String
  pub header : Option String

-- How `check_idempotency` ends: no idempotency, a context to run in, a stored response, or an
-- `HTTPException`.
pub data Check : Type 0 where
  off invalid_key conflict : Check
  proceed : IdempotencyContext → Check
  replay : IdempotencyReplay → Check

-- `_normalize_key`; `none` is `IDEMPOTENCY_KEY_INVALID`.
unfoldable pub normalize_key : Settings → String → Option String
normalize_key c value =
    let cleaned = c.strip value in
    if str_eq cleaned "" then none else if ltb 128 (count cleaned) then none else some cleaned

-- `_extract_request_id`
abbrev pub text_value : Value → Option String
text_value (str s) = some s
text_value _ = none

abbrev pub id_of_meta : Value → Option String
id_of_meta (obj fs) = text_value (get_or_null "request_id" fs)
id_of_meta _ = none

unfoldable pub extract_request_id : Option Value → Option String
extract_request_id (some (obj fs)) = id_of_meta (get_or_null "meta" fs)
extract_request_id _ = none

-- `key_override or request.headers.get(IDEMPOTENCY_HEADER)`, where it is not empty.
abbrev pub not_empty : Option String → Option String
not_empty none = none
not_empty (some s) = if str_eq s "" then none else some s

abbrev pub or_header : Option String → Option String → Option String
or_header (some s) header = some s
or_header none header = not_empty header

unfoldable pub raw_key : Option String → Request → Option String
raw_key key_override r = or_header (not_empty key_override) r.header

-- The query of the scope; the database keeps one record of a scope.
unfoldable pub find_live : IdempotencyScope → ℕ → List IdempotencyRecord → Option IdempotencyRecord
find_live s now [] = none
find_live s now (r ∷ rs) =
    if same_scope r.scope s && ltb now r.expires_at then some r else find_live s now rs

unfoldable pub answer : IdempotencyContext → Option IdempotencyRecord → Check
answer c none = proceed c
answer c (some r) =
    if not (str_eq r.request_hash c.request_hash)
    then conflict
    else replay (record {
      status_code = r.response_status;
      body = r.response_body_json;
      request_id = extract_request_id r.response_body_json;
    })

-- `check_idempotency`; `db_up` says whether the query works.
unfoldable pub check_idempotency :
    Settings
    → Bool
    → ℕ
    → Request
    → String
    → String
    → String
    → Option String
    → List IdempotencyRecord
    → Check
check_idempotency c db_up now r tenant_id actor_id request_hash key_override rows =
    if not c.idempotency_enabled || not r.is_versioned then off else elim (raw_key key_override r) [
      | none ↦ off
      | some raw ↦ elim (normalize_key c raw) [
        | none ↦ invalid_key
        | some key ↦
            let scope : IdempotencyScope = record {
              tenant_id = tenant_id;
              actor_id = actor_id;
              method = c.upper r.method;
              path = r.path;
              key = key;
            } in
            let context : IdempotencyContext = record {
              scope = scope;
              request_hash = request_hash;
              ttl_hours = c.idempotency_ttl_hours;
            } in
            if db_up then answer context (find_live scope now rows) else proceed context
      ]
    ]

-- `store_idempotency_response`. The table has one record of a scope, also of one that has expired:
-- a second is not written, and neither is one while the database is down.
unfoldable pub store_idempotency_response :
    Bool
    → ℕ
    → Option IdempotencyContext
    → ℕ
    → Option Value
    → List IdempotencyRecord
    → List IdempotencyRecord
store_idempotency_response db_up now none response_status response_body rows = rows
store_idempotency_response db_up now (some c) response_status response_body rows =
    if not db_up || any (λ r. same_scope r.scope c.scope) rows
    then rows
    else record {
      scope = c.scope;
      request_hash = c.request_hash;
      response_status = response_status;
      response_body_json = response_body;
      expires_at = now + c.ttl_hours * 3600;
    }
      ∷ rows

-- `prune_idempotency`
unfoldable pub prune_idempotency : ℕ → List IdempotencyRecord → List IdempotencyRecord
prune_idempotency now rows = filter (λ r. not (ltb r.expires_at now)) rows
