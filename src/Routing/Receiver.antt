-- ===== src/Routing/Receiver.antt =====
-- nexusrag/services/notifications/receiver_contract.py: the headers of a delivered notification,
-- its signature and the store of the notifications that were seen. What Python's texts, numbers,
-- times and hashes do is an argument. Times are microseconds since the epoch.
pub mod Verdict
mod Examples
use Prim.Native.String.{count, ◌++◌ as append}
use nexus_rag.Prelude.{
  ℕ, ◌+◌, ◌*◌, ◌-◌, String, str_eq, Bool, true, false, not, ◌&&◌, ◌||◌, Option, none, some, List,
  [], ◌∷◌, ltb, ◌==◌, if◌then◌else◌, inl, inr, ◌⊎◌,
}
use nexus_rag.Prelude.Int.{ℤ, pos, ltb_ℤ}
use nexus_rag.Prelude.Tables.{elem}

-- A time with or without a zone; one with a zone is the instant.
pub data Moment : Type 0 where
  naive : ℕ → Moment
  aware : ℕ → Moment

pub record Python : Type 0 where
  pub strip : String → String
  pub lower : String → String
  -- `partition("=")`, `none` where there is no separator
  pub partition : String → Option (String × String)
  -- whether `int(text, 16)` returns
  pub is_base16 : String → Bool
  pub to_int : String → Option ℤ
  pub zulu_to_offset : String → String
  pub fromisoformat : String → Option Moment
  -- `hmac.new(secret, body, sha256).hexdigest()`
  pub hmac_hex : String → String → String
  pub sha256_hex : String → String

pub record ParsedSignature : Type 0 where
  pub algorithm : String
  pub digest_hex : String

pub record ReceiverHeaders : Type 0 where
  pub notification_id : String
  pub attempt : ℤ
  pub event_type : String
  pub tenant_id : String
  pub signature : Option String
  pub timestamp : Option ℕ

pub data HeaderError : Type 0 where
  missing_required_headers : List String → HeaderError
  invalid_attempt_header invalid_timestamp_header : HeaderError

pub data Reason : Type 0 where
  secret_missing unsigned_allowed missing_signature : Reason
  invalid_signature_format signature_mismatch timestamp_skew ok : Reason

pub record VerificationResult : Type 0 where
  pub accepted : Bool
  pub reason : Reason
  pub payload_sha256 : String
  pub algorithm : Option String
  pub expected_signature : Option String
  pub provided_signature : Option String

-- `InMemoryNotificationDedupeStore.has_seen`
abbrev pub has_seen : String → List String → Bool
has_seen notification_id seen = elem notification_id seen

-- `InMemoryNotificationDedupeStore.mark_seen`: the ids afterwards, and whether the id is new.
unfoldable pub mark_seen : String → List String → List String × Bool
mark_seen notification_id seen =
    if elem notification_id seen then (seen, false) else (notification_id ∷ seen, true)

unfoldable pub get : String → List (String × String) → Option String
get k [] = none
get k ((i, x) ∷ xs) = if str_eq k i then some x else get k xs

unfoldable pub set : String → String → List (String × String) → List (String × String)
set k x [] = (k, x) ∷ []
set k x ((i, y) ∷ ys) = let rest = set k x ys in if str_eq k i then (i, x) ∷ ys else (i, y) ∷ rest

-- `normalized.get(name)` where an empty value counts as none.
abbrev pub non_empty : Option String → Option String
non_empty none = none
non_empty (some s) = if str_eq s "" then none else some s

module _ (py : Python) where
  unfoldable pub normalize_from :
      List (String × String) → List (String × String) → List (String × String)
  normalize_from [] normalized = normalized
  normalize_from ((raw_key, raw_value) ∷ rest) normalized =
      let key = py.lower (py.strip raw_key) in
      normalize_from rest
        (if str_eq key "" then normalized else set key (py.strip raw_value) normalized)

  -- `_normalize_header_mapping`
  abbrev pub normalize_header_mapping : List (String × String) → List (String × String)
  normalize_header_mapping headers = normalize_from headers []

  abbrev pub checked_digest : String → Option ParsedSignature
  checked_digest digest_hex =
      if str_eq digest_hex ""
      then none
      else if not (py.is_base16 digest_hex)
      then none
      else if not (count digest_hex == 64)
      then none
      else some (record { algorithm = "sha256"; digest_hex = digest_hex })

  -- `parse_signature`, `none` for the error `invalid_signature_format`.
  unfoldable pub parse_signature : String → Option ParsedSignature
  parse_signature header_value = elim (py.partition (py.strip header_value)) [
    | none ↦ none
    | some parts ↦
        if not (str_eq (py.lower (py.strip parts.0)) "sha256")
        then none
        else checked_digest (py.lower (py.strip parts.1))
  ]

  unfoldable pub missing_of : List (String × String) → List String → List String
  missing_of normalized [] = []
  missing_of normalized (h ∷ hs) =
      let rest = missing_of normalized hs in
      elim (non_empty (get h normalized)) [ none ↦ h ∷ rest | some v ↦ rest ]

  abbrev pub required_headers : List String
  required_headers =
      "x-notification-id" ∷ "x-notification-attempt" ∷ "x-notification-event-type"
      ∷ "x-notification-tenant-id" ∷ []

  abbrev pub or_empty : Option String → String
  or_empty none = ""
  or_empty (some s) = s

  -- A time without a zone is taken as one of UTC.
  abbrev pub in_utc : Moment → ℕ
  in_utc (naive t) = t
  in_utc (aware t) = t

  abbrev pub timestamp_of : Option String → HeaderError ⊎ Option ℕ
  timestamp_of none = inr none
  timestamp_of (some raw) = elim (py.fromisoformat (py.zulu_to_offset raw)) [
    | none ↦ inl invalid_timestamp_header
    | some m ↦ inr (some (in_utc m))
  ]

  abbrev pub attempt_of : Option String → HeaderError ⊎ ℤ
  attempt_of raw = elim (py.to_int (or_empty raw)) [
    | none ↦ inl invalid_attempt_header
    | some n ↦ if ltb_ℤ n (pos 1) then inl invalid_attempt_header else inr n
  ]

  abbrev pub headers_from :
      List (String × String)
      → HeaderError ⊎ ℤ
      → HeaderError ⊎ Option ℕ
      → HeaderError ⊎ ReceiverHeaders
  headers_from normalized (inl e) timestamp = inl e
  headers_from normalized (inr n) (inl e) = inl e
  headers_from normalized (inr n) (inr t) = inr (record {
    notification_id = or_empty (get "x-notification-id" normalized);
    attempt = n;
    event_type = or_empty (get "x-notification-event-type" normalized);
    tenant_id = or_empty (get "x-notification-tenant-id" normalized);
    signature = non_empty (get "x-notification-signature" normalized);
    timestamp = t;
  })

  abbrev pub present_headers : List (String × String) → List String → HeaderError ⊎ ReceiverHeaders
  present_headers normalized (h ∷ hs) = inl (missing_required_headers (h ∷ hs))
  present_headers normalized [] =
      headers_from normalized (attempt_of (get "x-notification-attempt" normalized))
        (timestamp_of (non_empty (get "x-notification-timestamp" normalized)))

  -- `parse_required_headers`
  unfoldable pub parse_required_headers : List (String × String) → HeaderError ⊎ ReceiverHeaders
  parse_required_headers headers =
      let normalized = normalize_header_mapping headers in
      present_headers normalized (missing_of normalized required_headers)

  -- `compute_signature`
  unfoldable pub compute_signature : String → String → String
  compute_signature raw_body secret = append "sha256=" (py.hmac_hex secret raw_body)

  abbrev pub distance : ℕ → ℕ → ℕ
  distance a b = if ltb a b then b - a else a - b

  -- Whether the time stamp is further away than it may be.
  abbrev pub is_skewed : Option ℕ → ℕ → Option ℕ → Bool
  is_skewed none now timestamp = false
  is_skewed (some limit) now none = false
  is_skewed (some limit) now (some t) = ltb 0 limit && ltb (limit * 1000000) (distance now t)

  -- A result before the digests were compared.
  abbrev pub early : Bool → Reason → String → Option String → VerificationResult
  early accepted reason body provided = record {
    accepted = accepted;
    reason = reason;
    payload_sha256 = py.sha256_hex body;
    algorithm = none;
    expected_signature = none;
    provided_signature = provided;
  }

  abbrev pub compared : Bool → Reason → String → String → ParsedSignature → VerificationResult
  compared accepted reason body expected p = record {
    accepted = accepted;
    reason = reason;
    payload_sha256 = py.sha256_hex body;
    algorithm = some p.algorithm;
    expected_signature = some expected;
    provided_signature = some p.digest_hex;
  }

  -- `compare_digest` raises on a digest that is not ASCII, such as one of full-width digits, which
  -- `int(digest, 16)` reads; here it is a mismatch.
  abbrev pub verify_digest :
      ReceiverHeaders → String → String → Option ℕ → ℕ → ParsedSignature → VerificationResult
  verify_digest h body secret max_skew now p =
      let expected = py.hmac_hex secret body in
      if not (str_eq expected p.digest_hex)
      then compared false signature_mismatch body expected p
      else if is_skewed max_skew now h.timestamp
      then compared false timestamp_skew body expected p
      else compared true ok body expected p

  -- `verify_signature` on parsed headers; `none` and the empty text are no secret.
  unfoldable pub verify_signature :
      ReceiverHeaders → String → Option String → Option ℕ → ℕ → VerificationResult
  verify_signature h body secret max_skew now = elim (non_empty secret) [
    | none ↦ elim (non_empty h.signature) [
      | none ↦ early true unsigned_allowed body none
      | some s ↦ early false secret_missing body (some s)
    ]
    | some key ↦ elim (non_empty h.signature) [
      | none ↦ early false missing_signature body none
      | some s ↦ elim (parse_signature s) [
        | none ↦ early false invalid_signature_format body (some s)
        | some p ↦ verify_digest h body key max_skew now p
      ]
    ]
  ]

  -- `verify_signature_legacy`
  abbrev pub verify_signature_legacy : String → String → Option String → ℕ → Bool × Reason
  verify_signature_legacy secret body header_value now =
      let r =
        verify_signature
          (record {
            notification_id = "legacy";
            attempt = pos 1;
            event_type = "legacy";
            tenant_id = "legacy";
            signature = header_value;
            timestamp = none;
          })
          body (some secret) none now in
      (r.accepted, r.reason)
