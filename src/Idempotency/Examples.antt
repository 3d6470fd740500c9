-- ===== src/Idempotency/Examples.antt =====
-- A response that is replayed for an hour.
use nexus_rag.Prelude.{◌≡◌, refl, true, none, some, List, [], arith}
use nexus_rag.Prelude.Tables.{any}
use nexus_rag.Authz.{Value, str, obj, field, end, get, get_or_null}
use nexus_rag.Idempotency.{
  IdempotencyScope, IdempotencyRecord, IdempotencyContext, Settings, Request, Check, conflict,
  proceed, replay, normalize_key, raw_key, extract_request_id, find_live, answer, check_idempotency,
  store_idempotency_response,
}
use nexus_rag.Idempotency.Replay.{store-check, expired_key-proceeds}

abbrev settings : Settings
settings = record {
  idempotency_enabled = true;
  idempotency_ttl_hours = 1;
  strip = λ s. s;
  upper = λ s. s;
}

abbrev scope : IdempotencyScope
scope = record { tenant_id = "t1"; actor_id = "a1"; method = "POST"; path = "/v1/run"; key = "k" }

abbrev context : IdempotencyContext
context = record { scope = scope; request_hash = "h1"; ttl_hours = 1 }

abbrev request : Request
request = record { is_versioned = true; method = "POST"; path = "/v1/run"; header = some "k" }

abbrev body : Value
body = obj (field "meta" (obj (field "request_id" (str "r1") end)) end)

abbrev stored : List IdempotencyRecord
stored = store_idempotency_response true 1000 (some context) 200 (some body) []

replayed :
    check_idempotency settings true 2000 request "t1" "a1" "h1" none stored
    ≡ replay (record { status_code = 200; body = some body; request_id = some "r1" })
unfolding check_idempotency raw_key normalize_key answer find_live store_idempotency_response any
    extract_request_id get_or_null get
replayed = refl

other_payload : check_idempotency settings true 2000 request "t1" "a1" "h2" none stored ≡ conflict
unfolding check_idempotency raw_key normalize_key answer find_live store_idempotency_response any
other_payload = refl

no_key :
    check_idempotency settings true 2000
      (record request { header = some "" })
      "t1"
      "a1"
      "h2"
      none
      stored
    ≡ Check.off
unfolding check_idempotency raw_key
no_key = refl

store-check_example :
    answer
      (record context { request_hash = "h2" })
      (find_live scope 2000
        (store_idempotency_response true 1000 (some context) 200 (some body) []))
    ≡ conflict
unfolding any
store-check_example = store-check 1000 2000 context 200 (some body) [] "h2" refl

expired_key-proceeds_example :
    answer context
      (find_live scope 9001 (store_idempotency_response true 9000 (some context) 200 none stored))
    ≡ proceed context
unfolding any find_live store_idempotency_response
expired_key-proceeds_example =
    expired_key-proceeds 9000 9001 context 200 none stored (omega arith) refl refl

abbrev other : IdempotencyScope
other = record scope { key = "k2" }
