-- ===== src/Routing/Resolve.antt =====
-- `resolve_destinations` of nexusrag/services/notifications/routing.py.
use Prim.Native.Nat.{Ordering}
use Prim.Native.String.{compare}
use nexus_rag.Prelude.{
  String, str_eq, Bool, true, false, not, ◌&&◌, ◌||◌, Option, none, some, List, [], ◌∷◌, ◌++◌, ltb,
  ◌==◌, if◌then◌else◌,
}
use nexus_rag.Prelude.Tables.{elem, filter, find}
use nexus_rag.Prelude.Sorting.{sort_by}
use nexus_rag.Routing.{
  Texts, NotificationDestination, NotificationRoute, route, tenant_destination, global_default,
  ResolvedNotificationDestination, matches_route, normalize_destinations_json, Settings,
  global_notification_destinations,
}

abbrev is_lt : Ordering → Bool
is_lt Ordering.lt = true
is_lt _ = false

-- `order_by(created_at, id)`, and with the priority first.
abbrev pub destination_before : NotificationDestination → NotificationDestination → Bool
destination_before a b =
    ltb a.created_at b.created_at || a.created_at == b.created_at && is_lt (compare a.id b.id)

abbrev pub route_before : NotificationRoute → NotificationRoute → Bool
route_before a b =
    ltb a.priority b.priority
    || a.priority == b.priority
      && (ltb a.created_at b.created_at
          || a.created_at == b.created_at && is_lt (compare a.id b.id))

unfoldable pub urls : List ResolvedNotificationDestination → List String
urls [] = []
urls (r ∷ rs) = r.destination_url ∷ urls rs

abbrev pub of_route : NotificationRoute → NotificationDestination → ResolvedNotificationDestination
of_route r d = record {
  destination_id = some d.id;
  destination_url = d.destination_url;
  route_id = some r.id;
  source = route;
}

abbrev pub of_destination : NotificationDestination → ResolvedNotificationDestination
of_destination d = record {
  destination_id = some d.id;
  destination_url = d.destination_url;
  route_id = none;
  source = tenant_destination;
}

abbrev pub of_url : String → ResolvedNotificationDestination
of_url u = record {
  destination_id = none;
  destination_url = u;
  route_id = none;
  source = global_default;
}

-- One item of a matching route, after the destinations resolved so far.
unfoldable pub add_item :
    List NotificationDestination
    → NotificationRoute
    → List ResolvedNotificationDestination
    → String × Bool
    → List ResolvedNotificationDestination
add_item destinations r resolved (i, enabled) =
    if not enabled
    then resolved
    else elim (find (λ (d : NotificationDestination). d.id) i destinations) [
      | none ↦ resolved
      | some d ↦
          if elem d.destination_url (urls resolved)
          then resolved
          else resolved ++ (of_route r d ∷ [])
    ]

unfoldable pub add_items :
    List NotificationDestination
    → NotificationRoute
    → List ResolvedNotificationDestination
    → List (String × Bool)
    → List ResolvedNotificationDestination
add_items destinations r resolved [] = resolved
add_items destinations r resolved (x ∷ xs) =
    add_items destinations r (add_item destinations r resolved x) xs

unfoldable pub map_destinations :
    List NotificationDestination → List ResolvedNotificationDestination
map_destinations [] = []
map_destinations (d ∷ ds) = of_destination d ∷ map_destinations ds

unfoldable pub map_urls : List String → List ResolvedNotificationDestination
map_urls [] = []
map_urls (u ∷ us) = of_url u ∷ map_urls us

pub record Notice : Type 0 where
  pub tenant_id : String
  pub event_type : String
  pub severity : String
  pub source : Option String
  pub category : Option String

module _ (c : Texts) where
  unfoldable pub normalize_severity : String → String
  normalize_severity s =
      let v = c.lower (c.strip s) in
      if str_eq v "low" || str_eq v "medium" || str_eq v "high" || str_eq v "critical"
      then v
      else "low"

  unfoldable pub normalize_optional : Option String → Option String
  normalize_optional none = none
  normalize_optional (some s) = if str_eq (c.strip s) "" then none else some (c.lower (c.strip s))

  abbrev pub route_applies : Notice → NotificationRoute → Bool
  route_applies n r =
      matches_route c r (c.lower (c.strip n.event_type)) (normalize_severity n.severity)
        (normalize_optional n.source) (normalize_optional n.category)

  -- The loop over the routes.
  unfoldable pub follow_routes :
      Notice
      → List NotificationDestination
      → List ResolvedNotificationDestination
      → List NotificationRoute
      → List ResolvedNotificationDestination
  follow_routes n destinations resolved [] = resolved
  follow_routes n destinations resolved (r ∷ rs) =
      follow_routes n destinations
        (if route_applies n r
          then add_items destinations r resolved (normalize_destinations_json c r.destinations_json)
          else resolved)
        rs

  unfoldable pub enabled_destinations :
      String → List NotificationDestination → List NotificationDestination
  enabled_destinations tenant_id ds =
      sort_by destination_before (filter (λ d. str_eq d.tenant_id tenant_id && d.enabled) ds)

  unfoldable pub enabled_routes : String → List NotificationRoute → List NotificationRoute
  enabled_routes tenant_id rs =
      sort_by route_before (filter (λ r. str_eq r.tenant_id tenant_id && r.enabled) rs)

  abbrev pub or_fallback :
      Settings
      → List NotificationDestination
      → List ResolvedNotificationDestination
      → List ResolvedNotificationDestination
  or_fallback s [] [] = map_urls (global_notification_destinations c s)
  or_fallback s (d ∷ ds) [] = map_destinations (d ∷ ds)
  or_fallback s ds (r ∷ rs) = r ∷ rs

  -- `resolve_destinations`
  unfoldable pub resolve_destinations :
      Settings
      → Notice
      → List NotificationDestination
      → List NotificationRoute
      → List ResolvedNotificationDestination
  resolve_destinations s n all_destinations all_routes =
      let destinations = enabled_destinations n.tenant_id all_destinations in
      or_fallback s destinations
        (follow_routes n destinations [] (enabled_routes n.tenant_id all_routes))
