-- ===== src/Routing/Receiver/Examples.antt =====
-- A signed notification that is delivered twice.
use nexus_rag.Prelude.{
  ◌≡◌, ◌⊎◌, inl, inr, refl, String, str_eq, true, false, none, some, List, [], ◌∷◌, if◌then◌else◌,
}
use nexus_rag.Prelude.Int.{pos}
use nexus_rag.Routing.Receiver.{
  Python, ReceiverHeaders, missing_required_headers, invalid_attempt_header, parse_signature,
  parse_required_headers, normalize_from, missing_of, get, set, compute_signature, verify_signature,
}
use nexus_rag.Routing.Receiver.Verdict.{
  IsUnsigned, IsSigned, verify_signature-Accepted, compute_signature-verify,
}

-- A digest of 64 digits for the body "a", another for all others.
abbrev digest_a : String
digest_a = "aaaaaaaaaaaaaaaaaaaaaaaaaaaaaaaaaaaaaaaaaaaaaaaaaaaaaaaaaaaaaaaa"

abbrev digest_b : String
digest_b = "bbbbbbbbbbbbbbbbbbbbbbbbbbbbbbbbbbbbbbbbbbbbbbbbbbbbbbbbbbbbbbbb"

abbrev header_a : String
header_a = "sha256=aaaaaaaaaaaaaaaaaaaaaaaaaaaaaaaaaaaaaaaaaaaaaaaaaaaaaaaaaaaaaaaa"

abbrev py : Python
py = record {
  strip = λ s. s;
  lower = λ s. s;
  partition = λ s. if str_eq s header_a then some ("sha256", digest_a) else none;
  is_base16 = λ s. true;
  to_int = λ s. if str_eq s "2" then some (pos 2) else none;
  zulu_to_offset = λ s. s;
  fromisoformat = λ s. none;
  hmac_hex = λ key body. if str_eq body "a" then digest_a else digest_b;
  sha256_hex = λ s. s;
}

abbrev headers : ReceiverHeaders
headers = record {
  notification_id = "n1";
  attempt = pos 2;
  event_type = "e";
  tenant_id = "t1";
  signature = some header_a;
  timestamp = some 1000000;
}

abbrev raw : List (String × String)
raw =
    ("x-notification-id", "n1")
    ∷ ("x-notification-attempt", "2")
    ∷ ("x-notification-event-type", "e")
    ∷ ("x-notification-tenant-id", "t1")
    ∷ []

parsed : parse_required_headers py raw ≡ inr (record headers { signature = none; timestamp = none })
unfolding parse_required_headers normalize_from missing_of get set
parsed = refl

no_tenant :
    parse_required_headers py (("x-notification-id", "n1") ∷ ("x-notification-attempt", "2") ∷ [])
    ≡ inl (missing_required_headers ("x-notification-event-type" ∷ "x-notification-tenant-id" ∷ []))
unfolding parse_required_headers normalize_from missing_of get set
no_tenant = refl

bad_attempt :
    parse_required_headers py (set "x-notification-attempt" "two" raw) ≡ inl invalid_attempt_header
unfolding parse_required_headers normalize_from missing_of get set
bad_attempt = refl

late : (verify_signature py headers "a" (some "k") (some 300) 302000000).accepted ≡ false
unfolding verify_signature parse_signature
late = refl

verify_signature-Accepted_example :
    IsUnsigned headers (some "k") (verify_signature py headers "a" (some "k") (some 300) 300000000)
    ⊎ IsSigned py headers "a"
        (some "k")
        (some 300)
        300000000
        (verify_signature py headers "a" (some "k") (some 300) 300000000)
unfolding verify_signature parse_signature
verify_signature-Accepted_example =
    verify_signature-Accepted py headers "a" (some "k") (some 300) 300000000 refl

compute_signature-verify_example :
    (verify_signature py headers "b" (some "k") (some 300) 300000000).accepted ≡ false
unfolding compute_signature
compute_signature-verify_example =
    compute_signature-verify py headers "a" "b" "k" (some 300) 300000000 (refl, refl, refl, refl)
      (refl, refl, refl, refl, refl) refl refl refl
