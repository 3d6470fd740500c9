-- ===== src/Routing/Receiver/Verdict.antt =====
-- When a receiver accepts a notification, and how often it takes one for new.
use Prim.Native.String.{count, ◌++◌ as append}
use nexus_rag.Prelude.{
  sym, ap, ◌∙◌, ℕ, ◌≡◌, ◌+◌, ◌⊎◌, inl, inr, refl, String, str_eq, true, false, not, ◌&&◌, Option,
  none, some, List, [], ◌∷◌, arith, eq_iff, Bool-cases, Option-cases, if◌then◌else◌,
}
use nexus_rag.Prelude.Tables.{elem}
use nexus_rag.Routing.Receiver.{
  Python, ParsedSignature, ReceiverHeaders, VerificationResult, unsigned_allowed, ok, non_empty,
  parse_signature, is_skewed, verify_signature, verify_digest, compute_signature, has_seen,
  mark_seen,
}

-- No secret is set, and the notification is not signed.
abbrev pub IsUnsigned : ReceiverHeaders → Option String → VerificationResult → Type 0
IsUnsigned h secret r =
    (non_empty secret ≡ none) × (non_empty h.signature ≡ none) × (r.reason ≡ unsigned_allowed)

-- A secret is set, and the signature is well formed and that of the body; the time stamp, if there
-- is one and a limit is set, is near enough.
abbrev pub IsSigned :
    Python → ReceiverHeaders → String → Option String → Option ℕ → ℕ → VerificationResult → Type 0
IsSigned py h body secret max_skew now r =
    (key : String) × (s : String) × (p : ParsedSignature) × (non_empty secret ≡ some key)
    × (non_empty h.signature ≡ some s)
    × (parse_signature py s ≡ some p)
    × (p.digest_hex ≡ py.hmac_hex key body)
    × (is_skewed py max_skew now h.timestamp ≡ false)
    × (r.reason ≡ ok)

verify_digest-Accepts :
    (py : Python) (h : ReceiverHeaders) (body key : String) (max_skew : Option ℕ) (now : ℕ)
    → (p : ParsedSignature) → (verify_digest py h body key max_skew now p).accepted ≡ true
    → (p.digest_hex ≡ py.hmac_hex key body)
      × (is_skewed py max_skew now h.timestamp ≡ false)
      × ((verify_digest py h body key max_skew now p).reason ≡ ok)
verify_digest-Accepts py h body key max_skew now p a =
    elim (Bool-cases (str_eq (py.hmac_hex key body) p.digest_hex)) [
      | inr n ↦ absurd (ground (arith, n, a))
      | inl t ↦ elim (Bool-cases (is_skewed py max_skew now h.timestamp)) [
        | inl y ↦ absurd (ground (arith, rw (t, y) at a))
        | inr y ↦ (ground (arith, eq_iff (py.hmac_hex key body) p.digest_hex), y, rw (t, y) refl)
      ]
    ]

-- A notification is accepted only if no secret is set and it has no signature, or if a secret is
-- set and its signature is well formed, is that of the body under the secret, and its time stamp,
-- where both it and a limit are given, is within the limit; the reason says which.
pub verify_signature-Accepted :
    (py : Python) (h : ReceiverHeaders) (body : String) (secret : Option String)
    → (max_skew : Option ℕ) (now : ℕ)
    → (verify_signature py h body secret max_skew now).accepted ≡ true
    → IsUnsigned h secret (verify_signature py h body secret max_skew now)
      ⊎ IsSigned py h body secret max_skew now (verify_signature py h body secret max_skew now)
unfolding verify_signature
verify_signature-Accepted py h body secret max_skew now a = elim (Option-cases (non_empty secret)) [
  | inl n ↦ elim (Option-cases (non_empty h.signature)) [
    | inl m ↦ inl (n, m, rw (verify_signature, n, m) refl)
    | inr s ↦ absurd (ground (arith, rw (verify_signature, n, s.1) at a))
  ]
  | inr k ↦ elim (Option-cases (non_empty h.signature)) [
    | inl m ↦ absurd (ground (arith, rw (verify_signature, k.1, m) at a))
    | inr s ↦ elim (Option-cases (parse_signature py s.0)) [
      | inl m ↦ absurd (ground (arith, rw (verify_signature, k.1, s.1, m) at a))
      | inr p ↦
          let d =
            verify_digest-Accepts py h body k.0 max_skew now p.0
              (rw (verify_signature, k.1, s.1, p.1) at a) in
          inr (k.0, s.0, p.0, k.1, s.1, p.1, d.0, d.1, rw (verify_signature, k.1, s.1, p.1) d.2)
    ]
  ]
]

-- What Python's texts do with the hexadecimal digest of a hash.
abbrev pub IsHexdigest : Python → String → Type 0
IsHexdigest py d = (py.strip d ≡ d) × (py.lower d ≡ d) × (py.is_base16 d ≡ true) × (count d ≡ 64)

-- What they do with such a digest after its algorithm.
abbrev pub IsSplit : Python → String → Type 0
IsSplit py d =
    (str_eq (append "sha256=" d) "" ≡ false)
    × (py.strip (append "sha256=" d) ≡ append "sha256=" d)
    × (py.partition (append "sha256=" d) ≡ some ("sha256", d))
    × (py.strip "sha256" ≡ "sha256")
    × (py.lower "sha256" ≡ "sha256")

digest_not_empty : (d : String) → count d ≡ 64 → str_eq d "" ≡ false
digest_not_empty d c = elim (Bool-cases (str_eq d "")) [
  | inr n ↦ n
  | inl t ↦ absurd (omega (arith, sym c ∙ ap count ((eq_iff d "").0 t)))
]

parse-compute :
    (py : Python) (body key : String)
    → IsHexdigest py (py.hmac_hex key body)
    → IsSplit py (py.hmac_hex key body)
    → parse_signature py (compute_signature py body key)
      ≡ some (record { algorithm = "sha256"; digest_hex = py.hmac_hex key body })
unfolding parse_signature compute_signature
parse-compute py body key x s =
    rw
      (
        parse_signature,
        compute_signature,
        s.1,
        s.2,
        s.3,
        s.4,
        x.0,
        x.1,
        digest_not_empty (py.hmac_hex key body) x.3,
        x.2,
        x.3,
      )
      refl

-- Where the secret is not empty and the time stamp is near enough, a notification that carries the
-- signature which a sender computes for a body with the secret is accepted with exactly the bodies
-- that have the same digest under the secret, so with that body.
pub compute_signature-verify :
    (py : Python) (h : ReceiverHeaders) (sent body key : String) (max_skew : Option ℕ) (now : ℕ)
    → IsHexdigest py (py.hmac_hex key sent)
    → IsSplit py (py.hmac_hex key sent)
    → h.signature ≡ some (compute_signature py sent key)
    → str_eq key "" ≡ false
    → is_skewed py max_skew now h.timestamp ≡ false
    → (verify_signature py h body (some key) max_skew now).accepted
      ≡ str_eq (py.hmac_hex key body) (py.hmac_hex key sent)
unfolding verify_signature compute_signature
compute_signature-verify py h sent body key max_skew now x s e k n =
    let signed : non_empty h.signature ≡ some (compute_signature py sent key) =
      rw (e, compute_signature, s.0) refl in
    rw (verify_signature, k, signed, parse-compute py sent key x s)
      (elim (Bool-cases (str_eq (py.hmac_hex key body) (py.hmac_hex key sent))) [
        | inl t ↦ rw (t, n) refl
        | inr f ↦ rw f refl
      ])

-- The deliveries of a list of ids that the store takes for new.
unfoldable pub count_new : String → List String → List String → ℕ
count_new k [] seen = 0
count_new k (i ∷ rest_ids) seen =
    let r = mark_seen i seen in
    let rest = count_new k rest_ids r.0 in if str_eq k i && r.1 then 1 + rest else rest

-- Of any sequence of deliveries, a notification is taken for new once if it occurs and was not seen
-- before, and never otherwise.
pub mark_seen-once :
    (k : String) (ids seen : List String)
    → count_new k ids seen ≡ (if elem k ids && not (has_seen k seen) then 1 else 0)
unfolding count_new mark_seen elem
mark_seen-once k [] seen = refl
mark_seen-once k (i ∷ ids) seen = elim (Bool-cases (elem i seen)) [
  | inl t ↦ rw t (ground (arith, mark_seen-once k ids seen, eq_iff k i))
  | inr n ↦ rw n (ground (arith, mark_seen-once k ids (i ∷ seen), eq_iff k i))
]
