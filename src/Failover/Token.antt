-- ===== src/Failover/Token.antt =====
-- `issue_failover_token` and `_consume_token`. The random plaintext, the new row's id and the hash
-- function (`token_hash`) come from outside.
use nexus_rag.Prelude.{
  ℕ, ◌+◌, String, str_eq, Bool, true, false, ◌&&◌, Option, none, some, List, [], ◌∷◌, ltb,
  if◌then◌else◌,
}
use nexus_rag.Failover.{Settings, FailoverToken, Purpose, promote, rollback, World}

abbrev pub same_purpose : Purpose → Purpose → Bool
same_purpose promote promote = true
same_purpose rollback rollback = true
same_purpose _ _ = false

abbrev pub is_unused : Option ℕ → Bool
is_unused none = true
is_unused (some t) = false

-- `issue_failover_token`, for one of the two purposes that it supports.
unfoldable pub issue_failover_token :
    Settings → (String → String) → ℕ → String → String → Purpose → World → World
issue_failover_token c token_hash now id plaintext purpose w = record w {
  tokens =
      record {
        id = id;
        token_hash = token_hash plaintext;
        expires_at = now + c.failover_token_ttl_seconds;
        used_at = none;
        purpose = purpose;
      }
      ∷ w.tokens;
}

-- The `where` clauses of `_consume_token`.
unfoldable pub is_usable : String → ℕ → Purpose → FailoverToken → Bool
is_usable hashed now purpose t =
    str_eq t.token_hash hashed
    && (same_purpose t.purpose purpose && (is_unused t.used_at && ltb now t.expires_at))

-- `_consume_token`: the token found, marked as used, and the table after it.
unfoldable pub consume :
    String → ℕ → Purpose → List FailoverToken → Option (FailoverToken × List FailoverToken)
unfolding is_usable
consume hashed now purpose [] = none
consume hashed now purpose (t ∷ ts) =
    let used = record t { used_at = some now } in
    let rest = consume hashed now purpose ts in
    if is_usable hashed now purpose t
    then some (used, used ∷ ts)
    else elim rest [ none ↦ none | some (u, ts') ↦ some (u, t ∷ ts') ]
