-- ===== src/Routing/Sound.antt =====
-- Where the resolved destinations come from.
use nexus_rag.Prelude.{
  ◌≡◌, ◌⊎◌, refl, sym, ap, ◌∙◌, inl, inr, String, eq_iff, Bool, true, false, not, ◌&&◌, List, [],
  ◌∷◌, arith, Bool-cases, All,
}
use nexus_rag.Prelude.Tables.{elem, filter, any}
use nexus_rag.Prelude.Tables.Entries.{any-filter, All-map}
use nexus_rag.Prelude.Sorting.{any-sort_by}
use nexus_rag.Routing.{
  Texts, NotificationDestination, NotificationRoute, ResolvedNotificationDestination, distinct_from,
  Settings, global_notification_destinations,
}
use nexus_rag.Routing.Resolve.{
  destination_before, urls, of_url, map_destinations, map_urls, Notice, enabled_destinations,
  enabled_routes, or_fallback, resolve_destinations,
}
use nexus_rag.Routing.Kept.{
  names, is_usable, is_global, is_allowed, Distinct, Kept, str_eq_refl, follow_routes-Kept,
}

map_destinations-All :
    (ds : List NotificationDestination)
    → All (λ r. (not (is_global r.source) && any (names r) ds) ≡ true) (map_destinations ds)
unfolding map_destinations any
map_destinations-All [] = tt
map_destinations-All (d ∷ ds) = (
  rw (str_eq_refl d.id, str_eq_refl d.destination_url) refl,
  All-map _ _ (λ r h. ground (arith, h)) (map_destinations ds) (map_destinations-All ds),
)

distinct_from-seen :
    (v : String) (seen us : List String)
    → elem v seen ≡ true
    → elem v (distinct_from seen us) ≡ false
unfolding distinct_from elem
distinct_from-seen v seen [] h = refl
distinct_from-seen v seen (u ∷ us) h = elim (Bool-cases (elem u seen)) [
  | inl s ↦ rw s (distinct_from-seen v seen us h)
  | inr s ↦
      let rest = distinct_from-seen v (u ∷ seen) us (ground (arith, h)) in
      rw s (ground (arith, eq_iff v u, rest))
]

distinct_from-Distinct : (seen us : List String) → Distinct (distinct_from seen us)
unfolding distinct_from elem
distinct_from-Distinct seen [] = tt
distinct_from-Distinct seen (u ∷ us) = elim (Bool-cases (elem u seen)) [
  | inl s ↦ rw s (distinct_from-Distinct seen us)
  | inr s ↦ rw s (
    distinct_from-seen u (u ∷ seen) us (rw (elem, str_eq_refl u) refl),
    distinct_from-Distinct (u ∷ seen) us,
  )
]

urls-map_urls : (us : List String) → urls (map_urls us) ≡ us
unfolding urls map_urls
urls-map_urls [] = refl
urls-map_urls (u ∷ us) = ap (λ x. u ∷ x) (urls-map_urls us)

map_urls-All :
    (P : ResolvedNotificationDestination → Type 0) (us : List String)
    → ((u : String) → elem u us ≡ true → P (of_url u))
    → All P (map_urls us)
unfolding map_urls elem
map_urls-All P [] f = tt
map_urls-All P (u ∷ us) f =
    (f u (rw (str_eq_refl u) refl), map_urls-All P us (λ v h. f v (ground (arith, h))))

-- The rows of the query, and those of the table.
usable-any :
    (c : Texts) (tenant_id : String) (ds : List NotificationDestination)
    → (Q : NotificationDestination → Bool)
    → any Q (enabled_destinations c tenant_id ds) ≡ any (λ d. is_usable tenant_id d && Q d) ds
unfolding enabled_destinations
usable-any c tenant_id ds Q =
    any-sort_by destination_before Q (filter (is_usable tenant_id) ds)
    ∙ any-filter (is_usable tenant_id) Q ds

found-allowed :
    (c : Texts) (globals : List String) (tenant_id : String) (ds : List NotificationDestination)
    → (r : ResolvedNotificationDestination)
    → (not (is_global r.source) && any (names r) (enabled_destinations c tenant_id ds)) ≡ true
    → is_allowed globals tenant_id ds r ≡ true
found-allowed c globals tenant_id ds r h = ground (arith, h, usable-any c tenant_id ds (names r))

abbrev pub is_nothing : List ResolvedNotificationDestination → Bool
is_nothing [] = true
is_nothing (r ∷ rs) = false

and_false : (b : Bool) → (b && false) ≡ false
and_false true = refl
and_false false = refl

empty_urls : Distinct (urls [])
unfolding urls
empty_urls = tt

module _ (c : Texts) (s : Settings) (n : Notice) (ds : List NotificationDestination) where
  globals : Distinct (global_notification_destinations c s)
  unfolding global_notification_destinations
  globals = distinct_from-Distinct [] _

  Kept-allowed :
      (es : List NotificationDestination) (rs : List ResolvedNotificationDestination)
      → enabled_destinations c n.tenant_id ds ≡ es
      → Kept es rs
      → All (λ r. is_allowed (global_notification_destinations c s) n.tenant_id ds r ≡ true) rs
  Kept-allowed es rs e k =
      All-map _ _
        (λ r h.
          found-allowed c (global_notification_destinations c s) n.tenant_id ds r
            (ap (λ xs. not (is_global r.source) && any (names r) xs) e ∙ h))
        rs k.0

  somebody :
      (d : NotificationDestination) (es : List NotificationDestination)
      → enabled_destinations c n.tenant_id ds ≡ d ∷ es
      → any (λ x. is_usable n.tenant_id x && true) ds ≡ true
  unfolding any
  somebody d es e = sym (usable-any c n.tenant_id ds (λ x. true)) ∙ ap (any (λ x. true)) e

  fallback-allowed :
      (es : List NotificationDestination) (rs : List ResolvedNotificationDestination)
      → enabled_destinations c n.tenant_id ds ≡ es
      → Kept es rs
      → All
          (λ r. is_allowed (global_notification_destinations c s) n.tenant_id ds r ≡ true)
          (or_fallback c s es rs)
        × ((any (λ d. is_usable n.tenant_id d && true) ds && is_nothing (or_fallback c s es rs))
            ≡ false)
        × ((Distinct (urls (or_fallback c s es rs)))
            ⊎ (or_fallback c s es rs ≡ map_destinations es))
        × ((any (λ d. is_usable n.tenant_id d && true) ds ≡ true)
            ⊎ (or_fallback c s es rs ≡ map_urls (global_notification_destinations c s)))
  unfolding any map_destinations
  fallback-allowed [] [] e k =
      let nobody : any (λ d. is_usable n.tenant_id d && true) ds ≡ false =
        sym (usable-any c n.tenant_id ds (λ d. true)) ∙ ap (any (λ d. true)) e in
      (
        map_urls-All _ (global_notification_destinations c s) (λ u h. rw (nobody, h) refl),
        rw nobody refl,
        inl (rw (urls-map_urls (global_notification_destinations c s)) globals),
        inr refl,
      )
  fallback-allowed (d ∷ es) [] e k = (
    All-map _ _
        (λ r h.
          found-allowed c (global_notification_destinations c s) n.tenant_id ds r
            (ap (λ xs. not (is_global r.source) && any (names r) xs) e ∙ h))
        (map_destinations (d ∷ es)) (map_destinations-All (d ∷ es)),
    and_false _,
    inr refl,
    inl (somebody d es e),
  )
  fallback-allowed [] (r ∷ rs) e k = absurd (ground (arith, k.0.0))
  fallback-allowed (d ∷ es) (r ∷ rs) e k =
      (Kept-allowed (d ∷ es) (r ∷ rs) e k, and_false _, inl k.1, inl (somebody d es e))

-- Each destination that a notification goes to is an enabled destination of the tenant, by its id
-- and its URL; only where the tenant has none enabled, the destinations are the URLs of the
-- settings, all of them in their order and without an id. The tenant's
-- enabled destinations are never passed over for nothing. No URL is named twice, except where no
-- route names a destination and all of the tenant's are taken, in their order.
pub resolve-allowed :
    (c : Texts) (s : Settings) (n : Notice) (ds : List NotificationDestination)
    → (routes : List NotificationRoute)
    → All
        (λ r. is_allowed (global_notification_destinations c s) n.tenant_id ds r ≡ true)
        (resolve_destinations c s n ds routes)
      × ((any (λ d. is_usable n.tenant_id d && true) ds
            && is_nothing (resolve_destinations c s n ds routes))
          ≡ false)
      × ((Distinct (urls (resolve_destinations c s n ds routes)))
          ⊎ (resolve_destinations c s n ds routes
              ≡ map_destinations (enabled_destinations c n.tenant_id ds)))
      × ((any (λ d. is_usable n.tenant_id d && true) ds ≡ true)
          ⊎ (resolve_destinations c s n ds routes
              ≡ map_urls (global_notification_destinations c s)))
unfolding resolve_destinations
resolve-allowed c s n ds routes =
    fallback-allowed c s n ds (enabled_destinations c n.tenant_id ds) _ refl (
      follow_routes-Kept c n (enabled_destinations c n.tenant_id ds) []
        (enabled_routes c n.tenant_id routes) (tt, empty_urls))
