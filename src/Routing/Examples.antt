-- ===== src/Routing/Examples.antt =====
-- A tenant with two destinations and one route.
use nexus_rag.Prelude.{◌≡◌, ◌⊎◌, refl, String, true, false, ◌&&◌, none, some, List, [], ◌∷◌, All}
use nexus_rag.Prelude.Tables.{elem, filter, any, find}
use nexus_rag.Prelude.Sorting.{insert_by, sort_by}
use nexus_rag.Authz.{bool, str, arr, obj, nil, cons, end, field, get, get_or_null}
use nexus_rag.Routing.{
  Texts, NotificationDestination, NotificationRoute, stripped_items, normalize_match_value,
  matches_filter, matches_route, destination_items, normalize_destinations_json, Settings,
  configured_urls, distinct_from, global_notification_destinations,
}
use nexus_rag.Routing.Resolve.{
  urls, add_item, add_items, map_destinations, map_urls, Notice, normalize_severity,
  normalize_optional, follow_routes, enabled_destinations, enabled_routes, resolve_destinations,
}
use nexus_rag.Routing.Kept.{is_usable, is_allowed, Distinct}
use nexus_rag.Routing.Sound.{is_nothing, resolve-allowed}

abbrev same : Texts
same = record { strip = λ s. s; lower = λ s. s }

abbrev settings : Settings
settings = record {
  notify_webhook_urls = some (arr (cons (str "https://a") (cons (str "https://a") nil)));
  ops_notification_adapter = "noop";
  ops_notification_webhook_url = none;
}

abbrev pager : NotificationDestination
pager = record {
  id = "d1";
  tenant_id = "t1";
  destination_url = "https://pager";
  enabled = true;
  created_at = 20;
}

abbrev mail : NotificationDestination
mail = record pager { id = "d2"; destination_url = "https://mail"; created_at = 10 }

abbrev for_critical : NotificationRoute
for_critical = record {
  id = "r1";
  tenant_id = "t1";
  enabled = true;
  priority = 1;
  created_at = 1;
  match_json = obj (field "severity" (str "critical") end);
  destinations_json = arr (
      cons (str "d1") (
        cons (obj (field "destination_id" (str "d2") (field "enabled" (bool false) end)))
          (cons (str "d1") nil)));
}

abbrev notice : String → String → Notice
notice tenant severity = record {
  tenant_id = tenant;
  event_type = "incident.opened";
  severity = severity;
  source = none;
  category = some "latency";
}

abbrev resolved : String → String → List String
resolved tenant severity = urls (
    resolve_destinations same settings (notice tenant severity) (pager ∷ mail ∷ [])
      (for_critical ∷ []))

critical : resolved "t1" "critical" ≡ "https://pager" ∷ []
unfolding resolve_destinations follow_routes enabled_destinations enabled_routes sort_by insert_by
    filter matches_route matches_filter normalize_match_value normalize_severity normalize_optional
    normalize_destinations_json destination_items add_items add_item find elem any urls get
    get_or_null
critical = refl

-- No route matches: all of them, the oldest first.
minor : resolved "t1" "low" ≡ "https://mail" ∷ "https://pager" ∷ []
unfolding resolve_destinations follow_routes enabled_destinations enabled_routes sort_by insert_by
    filter matches_route matches_filter normalize_match_value normalize_severity normalize_optional
    find elem any urls get get_or_null map_destinations
minor = refl

other_tenant : resolved "t2" "low" ≡ "https://a" ∷ []
unfolding resolve_destinations follow_routes enabled_destinations enabled_routes sort_by filter
    global_notification_destinations configured_urls stripped_items distinct_from elem urls map_urls
other_tenant = refl

resolve-allowed_example :
    All
      (λ r.
        is_allowed (global_notification_destinations same settings) "t1" (pager ∷ mail ∷ []) r
        ≡ true)
      (resolve_destinations same settings
        (notice "t1" "critical")
        (pager ∷ mail ∷ [])
        (for_critical ∷ []))
    × ((any (λ d. is_usable "t1" d && true) (pager ∷ mail ∷ [])
          && is_nothing (
              resolve_destinations same settings
                (notice "t1" "critical")
                (pager ∷ mail ∷ [])
                (for_critical ∷ [])))
        ≡ false)
    × ((Distinct (
          urls (
            resolve_destinations same settings
              (notice "t1" "critical")
              (pager ∷ mail ∷ [])
              (for_critical ∷ []))))
        ⊎ (resolve_destinations same settings
              (notice "t1" "critical")
              (pager ∷ mail ∷ [])
              (for_critical ∷ [])
            ≡ map_destinations (enabled_destinations same "t1" (pager ∷ mail ∷ []))))
    × ((any (λ d. is_usable "t1" d && true) (pager ∷ mail ∷ []) ≡ true)
        ⊎ (resolve_destinations same settings
              (notice "t1" "critical")
              (pager ∷ mail ∷ [])
              (for_critical ∷ [])
            ≡ map_urls (global_notification_destinations same settings)))
resolve-allowed_example =
    resolve-allowed same settings (notice "t1" "critical") (pager ∷ mail ∷ []) (for_critical ∷ [])
