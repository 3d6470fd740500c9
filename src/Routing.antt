-- ===== src/Routing.antt =====
-- nexusrag/services/notifications/routing.py: which destinations a notification goes to. Values of
-- JSON are those of the access policies; `Texts` is what Python's `str` does.
pub mod Resolve
pub mod Receiver
pub mod Kept
pub mod Sound
mod Examples
use nexus_rag.Prelude.{
  ℕ, String, str_eq, Bool, true, false, not, ◌&&◌, ◌||◌, Option, none, some, List, [], ◌∷◌, ◌++◌,
  if◌then◌else◌,
}
use nexus_rag.Prelude.Tables.{elem, any}
use nexus_rag.Authz.{
  Value, Items, Fields, null, bool, str, arr, obj, nil, cons, end, field, get, get_or_null,
}
use nexus_rag.Governance.PolicyEngine.{truthy}

pub record Texts : Type 0 where
  pub strip : String → String
  pub lower : String → String

pub record NotificationDestination : Type 0 where
  pub id : String
  pub tenant_id : String
  pub destination_url : String
  pub enabled : Bool
  pub created_at : ℕ

pub record NotificationRoute : Type 0 where
  pub id : String
  pub tenant_id : String
  pub enabled : Bool
  pub priority : ℕ
  pub created_at : ℕ
  pub match_json : Value
  pub destinations_json : Value

pub data Source : Type 0 where
  route tenant_destination global_default : Source

pub record ResolvedNotificationDestination : Type 0 where
  pub destination_id : Option String
  pub destination_url : String
  pub route_id : Option String
  pub source : Source

module _ (c : Texts) where
  abbrev pub is_blank : String → Bool
  is_blank s = str_eq (c.strip s) ""

  unfoldable pub stripped_items : Items → List String
  stripped_items nil = []
  stripped_items (cons v vs) =
      let rest = stripped_items vs in
      elim v [ str s ↦ if is_blank s then rest else c.strip s ∷ rest | _ ↦ rest ]

  -- `_normalize_match_value`
  unfoldable pub normalize_match_value : Value → List String
  normalize_match_value (str s) = if is_blank s then [] else c.strip s ∷ []
  normalize_match_value (arr vs) = stripped_items vs
  normalize_match_value _ = []

  -- `_matches_filter`
  unfoldable pub matches_filter : Value → Option String → Bool → Bool
  matches_filter configured actual wildcard = elim (normalize_match_value configured) [
    | [] ↦ true
    | v ∷ vs ↦ elim actual [
      | none ↦ false
      | some a ↦
          any (λ w. wildcard && str_eq (c.lower w) "*" || str_eq (c.lower w) (c.lower (c.strip a)))
            (v ∷ vs)
    ]
  ]

  abbrev pub or_object : Value → Value
  or_object v = if truthy v then v else obj end

  abbrev pub fields_match : Value → String → String → Option String → Option String → Bool
  fields_match (obj fs) event_type severity source category =
      matches_filter (get_or_null "event_type" fs) (some event_type) true
      && matches_filter (get_or_null "severity" fs) (some severity) false
      && matches_filter (get_or_null "source" fs) source false
      && matches_filter (get_or_null "category" fs) category false
  fields_match _ event_type severity source category = false

  -- `_matches_route`
  unfoldable pub matches_route :
      NotificationRoute → String → String → Option String → Option String → Bool
  matches_route r event_type severity source category =
      fields_match (or_object r.match_json) event_type severity source category

  abbrev pub enabled_of : Option Value → Bool
  enabled_of none = true
  enabled_of (some v) = truthy v

  -- One entry of `_normalize_destinations_json`: the id, and whether it is not switched off.
  abbrev pub destination_item : Value → Option (String × Bool)
  destination_item (str s) = if is_blank s then none else some (c.strip s, true)
  destination_item (obj fs) = elim (get_or_null "destination_id" fs) [
    | str s ↦ if is_blank s then none else some (c.strip s, enabled_of (get "enabled" fs))
    | _ ↦ none
  ]
  destination_item _ = none

  unfoldable pub destination_items : Items → List (String × Bool)
  destination_items nil = []
  destination_items (cons v vs) =
      let rest = destination_items vs in
      elim (destination_item v) [ none ↦ rest | some x ↦ x ∷ rest ]

  -- `_normalize_destinations_json`
  unfoldable pub normalize_destinations_json : Value → List (String × Bool)
  normalize_destinations_json (arr vs) = destination_items vs
  normalize_destinations_json _ = []

-- Entries that were seen are left out.
unfoldable pub distinct_from : List String → List String → List String
distinct_from seen [] = []
distinct_from seen (u ∷ us) =
    let rest = distinct_from (if elem u seen then seen else u ∷ seen) us in
    if elem u seen then rest else u ∷ rest

pub record Settings : Type 0 where
  -- `json.loads(notify_webhook_urls_json)`, `none` where it cannot be read
  pub notify_webhook_urls : Option Value
  pub ops_notification_adapter : String
  pub ops_notification_webhook_url : Option String

unfoldable pub configured_urls : Texts → Option Value → List String
configured_urls c (some (arr vs)) = stripped_items c vs
configured_urls c _ = []

abbrev pub webhook_url : Texts → String → Option String → List String
webhook_url c adapter none = []
webhook_url c adapter (some u) =
    if str_eq adapter "webhook" && not (str_eq u "") then c.strip u ∷ [] else []

abbrev pub or_noop : String → List String → List String
or_noop adapter [] = if str_eq adapter "noop" then "noop://default" ∷ [] else []
or_noop adapter (u ∷ us) = u ∷ us

-- `_global_notification_destinations`
unfoldable pub global_notification_destinations : Texts → Settings → List String
global_notification_destinations c s =
    let adapter = c.lower (c.strip s.ops_notification_adapter) in
    distinct_from [] (
      or_noop adapter (
        configured_urls c s.notify_webhook_urls
        ++ webhook_url c adapter s.ops_notification_webhook_url))
