-- ===== src/Entitlements/Rollouts.antt =====
-- nexusrag/services/rollouts.py: kill switches and canary percentages, kept in Redis over the
-- defaults of the settings. Redis is up or down for a whole call. Keys are the names without their
-- prefix.
use nexus_rag.Prelude.{
  ◌≡◌, refl, String, str_eq, Bool, true, false, ◌||◌, Option, none, some, List, [], ◌∷◌, inl, inr,
  Option-cases, if◌then◌else◌,
}
use nexus_rag.Prelude.Int.{ℤ}
use nexus_rag.Entitlements.{get, put, or_else}
use nexus_rag.Entitlements.Effective.{get-put}

-- The texts that a key has, `none` where there is no Redis.
abbrev pub Redis : Type 0
Redis = Option (List (String × String))

-- `redis.get(key)` in a read that fails over to none.
abbrev pub read : String → Redis → Option String
read name none = none
read name (some texts) = get name texts

abbrev pub is_on : (String → String) → String → Bool
is_on lower raw =
    str_eq (lower raw) "1"
    || str_eq (lower raw) "true"
    || str_eq (lower raw) "yes"
    || str_eq (lower raw) "on"

-- `_get_bool`
unfoldable pub get_bool : (String → String) → String → Bool → Redis → Bool
get_bool lower name default redis = elim (read name redis) [
  | none ↦ default
  | some raw ↦ is_on lower raw
]

-- `_get_int`
unfoldable pub get_int : (String → Option ℤ) → String → ℤ → Redis → ℤ
get_int to_int name default redis = elim (read name redis) [
  | none ↦ default
  | some raw ↦ or_else default (to_int raw)
]

abbrev pub switch_text : Bool → String
switch_text b = if b then "true" else "false"

unfoldable pub set_all {ℓ} :
    {A : Type ℓ}
    → (A → String)
    → List (String × A)
    → List (String × String)
    → List (String × String)
set_all text [] texts = texts
set_all text ((name, x) ∷ rest) texts = set_all text rest (put name (text x) texts)

abbrev pub set_in {ℓ} : {A : Type ℓ} → (A → String) → List (String × A) → Redis → Redis
set_in text updates none = none
set_in text updates (some texts) = some (set_all text updates texts)

-- `set_kill_switches`, which answers with the updates.
abbrev pub set_kill_switches : List (String × Bool) → Redis → Redis × List (String × Bool)
set_kill_switches updates redis = (set_in switch_text updates redis, updates)

-- `set_canary_percentages`
abbrev pub set_canary_percentages :
    (ℤ → String) → List (String × ℤ) → Redis → Redis × List (String × ℤ)
set_canary_percentages text updates redis = (set_in text updates redis, updates)

-- The last of the updates of a name, and where there is none, what is there.
unfoldable pub latest {ℓ} : {A : Type ℓ} → String → List (String × A) → Option A → Option A
latest name [] old = old
latest name ((i, x) ∷ rest) old = latest name rest (if str_eq name i then some x else old)

abbrev pub in_text {ℓ} : {A : Type ℓ} → (A → String) → Option A → Option String → Option String
in_text text none old = old
in_text text (some x) old = some (text x)

if-in_text {ℓ} :
    {A : Type ℓ} (text : A → String) (b : Bool) (x : A) (new : Option A) (old : Option String)
    → (if b then some (text x) else in_text text new old)
      ≡ in_text text (if b then some x else new) old
if-in_text text true x new old = refl
if-in_text text false x new old = refl

pub get-set_all {ℓ} :
    {A : Type ℓ} (text : A → String) (name : String) (updates : List (String × A))
    → (texts : List (String × String)) (old : Option String) (new : Option A)
    → get name texts ≡ in_text text new old
    → get name (set_all text updates texts) ≡ in_text text (latest name updates new) old
unfolding set_all latest
get-set_all text name [] texts old new e = e
get-set_all text name ((i, x) ∷ rest) texts old new e =
    get-set_all text name rest (put i (text x) texts) old (if str_eq name i then some x else new)
      (rw (get-put name i (text x) texts, e) (if-in_text text (str_eq name i) x new old))

switch_text_on :
    (lower : String → String)
    → lower "true" ≡ "true"
    → lower "false" ≡ "false"
    → (b : Bool) → is_on lower (switch_text b) ≡ b
switch_text_on lower t f true = rw t refl
switch_text_on lower t f false = rw f refl

-- While Redis is there, a kill switch is read as it was last set by an update, and one that an
-- update does not name as before; without Redis it has its default, whatever was set. Lower case
-- leaves the texts "true" and "false" as they are.
pub set_kill_switches-get :
    (lower : String → String) (name : String) (default : Bool) (updates : List (String × Bool))
    → (texts : List (String × String)) → lower "true" ≡ "true"
    → lower "false" ≡ "false"
    → (get_bool lower name default (set_kill_switches updates (some texts)).0
        ≡ or_else (get_bool lower name default (some texts)) (latest name updates none))
      × (get_bool lower name default (set_kill_switches updates none).0 ≡ default)
unfolding get_bool
set_kill_switches-get lower name default updates texts t f =
    let after = get-set_all switch_text name updates texts (get name texts) none refl in
    elim (Option-cases (latest name updates none)) [
      | inl n ↦ (rw (get_bool, after, n) refl, refl)
      | inr x ↦ (rw (get_bool, after, x.1) (switch_text_on lower t f x.0), refl)
    ]
