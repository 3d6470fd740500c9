-- ===== src/Routing/Kept.antt =====
-- What the loop over the routes keeps.
use nexus_rag.Prelude.{
  ◌≡◌, refl, ap, inl, inr, String, str_eq, eq_iff, Bool, true, false, not, ◌&&◌, none, some, List,
  [], ◌∷◌, ◌++◌, arith, if◌then◌else◌, Bool-cases, Option-cases, All,
}
use nexus_rag.Prelude.Tables.{elem, any, find}
use nexus_rag.Prelude.Tables.Entries.{find-any, All-append}
use nexus_rag.Routing.{
  Texts, NotificationDestination, NotificationRoute, Source, global_default,
  ResolvedNotificationDestination, normalize_destinations_json,
}
use nexus_rag.Routing.Resolve.{
  urls, of_route, add_item, add_items, Notice, route_applies, follow_routes,
}

-- The row that a resolved destination names.
abbrev pub names : ResolvedNotificationDestination → NotificationDestination → Bool
names r d =
    elim r.destination_id [ none ↦ false | some i ↦ str_eq i d.id ]
    && str_eq r.destination_url d.destination_url

abbrev pub is_usable : String → NotificationDestination → Bool
is_usable tenant_id d = str_eq d.tenant_id tenant_id && d.enabled

abbrev pub is_global : Source → Bool
is_global global_default = true
is_global _ = false

-- It is an enabled destination of the tenant; or, where the tenant has none enabled, one of the
-- URLs of the settings, without an id.
abbrev pub is_allowed :
    List String → String → List NotificationDestination → ResolvedNotificationDestination → Bool
is_allowed globals tenant_id ds r =
    if is_global r.source
    then not (any (λ d. is_usable tenant_id d && true) ds)
      && elem r.destination_url globals
      && elim r.destination_id [ none ↦ true | some i ↦ false ]
    else any (λ d. is_usable tenant_id d && names r d) ds

-- The URLs are different.
abbrev pub Distinct : List String → Type 0
Distinct [] = Unit
Distinct (u ∷ us) = (elem u us ≡ false) × Distinct us

-- What the loop over the routes keeps.
abbrev pub Kept : List NotificationDestination → List ResolvedNotificationDestination → Type 0
Kept ds rs =
    All (λ r. (not (is_global r.source) && any (names r) ds) ≡ true) rs × Distinct (urls rs)

pub str_eq_refl : (s : String) → str_eq s s ≡ true
str_eq_refl s = ground (arith, eq_iff s s)

urls-append :
    (rs : List ResolvedNotificationDestination) (x : ResolvedNotificationDestination)
    → urls (rs ++ (x ∷ [])) ≡ urls rs ++ (x.destination_url ∷ [])
unfolding urls
urls-append [] x = refl
urls-append (r ∷ rs) x = ap (λ us. r.destination_url ∷ us) (urls-append rs x)

elem-snoc :
    (u v : String) (us : List String)
    → elem v us ≡ false
    → str_eq v u ≡ false
    → elem v (us ++ (u ∷ [])) ≡ false
unfolding elem
elem-snoc u v [] h n = ground (arith, n)
elem-snoc u v (x ∷ xs) h n = ground (arith, n, elem-snoc u v xs)

snoc-Distinct :
    (u : String) (us : List String) → Distinct us → elem u us ≡ false → Distinct (us ++ (u ∷ []))
unfolding elem
snoc-Distinct u [] d h = (refl, tt)
snoc-Distinct u (x ∷ xs) d h = (
  elem-snoc u x xs d.0 (ground (arith, eq_iff u x, eq_iff x u)),
  snoc-Distinct u xs d.1 (ground arith),
)

add_item-Kept :
    (ds : List NotificationDestination) (r : NotificationRoute)
    → (rs : List ResolvedNotificationDestination) (x : String × Bool) → Kept ds rs
    → Kept ds (add_item ds r rs x)
unfolding add_item urls
add_item-Kept ds r rs (i, false) k = k
add_item-Kept ds r rs (i, true) k =
    elim (Option-cases (find (λ (d : NotificationDestination). d.id) i ds)) [
      | inl n ↦ rw n k
      | inr d ↦ elim (Bool-cases (elem d.0.destination_url (urls rs))) [
        | inl s ↦ rw (d.1, s) k
        | inr s ↦
            rw (d.1, s)
              (
                All-append _ rs (of_route r d.0 ∷ []) k.0 (
                  find-any (λ (e : NotificationDestination). e.id) (names (of_route r d.0)) i ds d.0
                      d.1 (rw (str_eq_refl d.0.id, str_eq_refl d.0.destination_url) refl),
                  tt,
                ),
                rw (urls-append rs (of_route r d.0))
                    (snoc-Distinct d.0.destination_url (urls rs) k.1 s),
              )
      ]
    ]

add_items-Kept :
    (ds : List NotificationDestination) (r : NotificationRoute)
    → (rs : List ResolvedNotificationDestination) (xs : List (String × Bool)) → Kept ds rs
    → Kept ds (add_items ds r rs xs)
unfolding add_items
add_items-Kept ds r rs [] k = k
add_items-Kept ds r rs (x ∷ xs) k =
    add_items-Kept ds r (add_item ds r rs x) xs (add_item-Kept ds r rs x k)

pub follow_routes-Kept :
    (c : Texts) (n : Notice) (ds : List NotificationDestination)
    → (rs : List ResolvedNotificationDestination) (routes : List NotificationRoute) → Kept ds rs
    → Kept ds (follow_routes c n ds rs routes)
unfolding follow_routes
follow_routes-Kept c n ds rs [] k = k
follow_routes-Kept c n ds rs (r ∷ routes) k = elim (Bool-cases (route_applies c n r)) [
  | inl t ↦ rw t (
      follow_routes-Kept c n ds
        (add_items ds r rs (normalize_destinations_json c r.destinations_json)) routes
        (add_items-Kept ds r rs (normalize_destinations_json c r.destinations_json) k))
  | inr f ↦ rw f (follow_routes-Kept c n ds rs routes k)
]
