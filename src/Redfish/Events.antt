-- ===== src/Redfish/Events.antt =====
-- internal/redfish/handler_events.go: the EventService and its subscription table. The fields that
-- s.mu guards are a record of their own; a request that is not valid JSON is `none`.
pub mod Table
pub mod Created
pub mod Delivery
use Prim.Native.String.{String}
use text.Mathlib.Text.{◌==◌ as str_eq}
use qemu_bmc.Base.{
  Result, ok, err, ℕ, ◌+◌, Bytes, Bool, true, false, List, [], ◌∷◌, Option, none, some, not, leb,
  length, if◌then◌else◌, ◌&&◌, ◌||◌,
}
use qemu_bmc.Base.Decimal.{itoa, parse_digits}
use qemu_bmc.Base.Maps.{Map, get, put, remove}
use qemu_bmc.Redfish.Http.{
  Code, malformed_json, property_missing, property_value_format_error, property_value_not_in_list,
  resource_already_exists, resource_not_found, action_parameter_missing,
  action_parameter_value_type, Link, subscription_link, Reply, document, created_at, failure,
  no_content,
}

pub record EventDestination : Type 0 where
  pub odata_id : Link
  pub id : Bytes
  pub destination : String
  pub context : String
  pub protocol : String
  pub subscription_type : String
  pub event_format_type : String
  pub delivery_retry_policy : String
  pub event_types : List String
  pub registry_prefixes : List String
  pub resource_types : List String

pub record CreateEventDestinationRequest : Type 0 where
  pub destination : String
  pub context : String
  pub protocol : String
  pub subscription_type : String
  pub event_format_type : String
  pub delivery_retry_policy : String
  pub event_types : List String
  pub registry_prefixes : List String
  pub resource_types : List String

pub record EventTable : Type 0 where
  pub subscriptions : Map EventDestination
  pub next_subscription_id : ℕ
  pub next_event_id : ℕ

-- What the handlers read of url.Parse's result.
pub record Url : Type 0 where
  pub scheme : String
  pub host : String

-- slices.Contains
abbrev pub contains : List String → String → Bool
contains [] t = false
contains (x ∷ xs) t = str_eq x t || contains xs t

abbrev pub event_format_types : List String
event_format_types = "Event" ∷ "MetricReport" ∷ []

abbrev pub delivery_retry_policies : List String
delivery_retry_policies =
    "TerminateAfterRetries" ∷ "SuspendRetries" ∷ "RetryForever" ∷ "RetryForeverWithBackoff" ∷ []

abbrev pub deprecated_event_types : List String
deprecated_event_types =
    "StatusChange" ∷ "ResourceUpdated" ∷ "ResourceAdded" ∷ "ResourceRemoved" ∷ "Alert"
    ∷ "MetricReport" ∷ "Other" ∷ []

abbrev pub all_contained : List String → List String → Bool
all_contained allowed [] = true
all_contained allowed (t ∷ ts) = contains allowed t && all_contained allowed ts

-- The default for an absent field.
abbrev pub or_default : String → String → String
or_default t d = if str_eq t "" then d else t

abbrev pub is_http_uri : Option Url → Bool
is_http_uri none = false
is_http_uri (some u) = (str_eq u.scheme "http" || str_eq u.scheme "https") && not (str_eq u.host "")

abbrev pub with_defaults : CreateEventDestinationRequest → CreateEventDestinationRequest
with_defaults req = record req {
  protocol = or_default req.protocol "Redfish";
  subscription_type = or_default req.subscription_type "RedfishEvent";
  event_format_type = or_default req.event_format_type "Event";
}

-- validateSubscription: the request with its defaults, or the message id. `parse_url` is url.Parse.
unfoldable pub validate_subscription :
    (String → Option Url)
    → CreateEventDestinationRequest
    → Result Code CreateEventDestinationRequest
validate_subscription parse_url req =
    let full = with_defaults req in
    if str_eq req.destination ""
    then err property_missing
    else if not (is_http_uri (parse_url req.destination))
    then err property_value_format_error
    else if not (str_eq full.protocol "Redfish")
    then err property_value_not_in_list
    else if not (str_eq full.subscription_type "RedfishEvent")
    then err property_value_not_in_list
    else if not (contains event_format_types full.event_format_type)
    then err property_value_not_in_list
    else if not (str_eq req.delivery_retry_policy "")
        && not (contains delivery_retry_policies req.delivery_retry_policy)
    then err property_value_not_in_list
    else if not (all_contained deprecated_event_types req.event_types)
    then err property_value_not_in_list
    else ok full

-- The test of the loop over the subscriptions.
abbrev pub is_same_target : String → String → EventDestination → Bool
is_same_target destination format sub =
    str_eq sub.destination destination && str_eq sub.event_format_type format

unfoldable pub has_target : String → String → Map EventDestination → Bool
has_target destination format [] = false
has_target destination format ((k, sub) ∷ subs) =
    is_same_target destination format sub || has_target destination format subs

unfoldable pub new_subscription : Bytes → CreateEventDestinationRequest → EventDestination
new_subscription id req = record {
  odata_id = subscription_link id;
  id = id;
  destination = req.destination;
  context = req.context;
  protocol = req.protocol;
  subscription_type = req.subscription_type;
  event_format_type = req.event_format_type;
  delivery_retry_policy = req.delivery_retry_policy;
  event_types = req.event_types;
  registry_prefixes = req.registry_prefixes;
  resource_types = req.resource_types;
}

-- What is done under the lock for a request that passed the checks.
unfoldable pub add_subscription :
    CreateEventDestinationRequest → EventTable → EventTable × Reply EventDestination
add_subscription req t =
    let id = itoa (t.next_subscription_id + 1) in
    if has_target req.destination req.event_format_type t.subscriptions
    then (t, failure 409 resource_already_exists)
    else (
      record t {
        next_subscription_id = t.next_subscription_id + 1;
        subscriptions = put id (new_subscription id req) t.subscriptions;
      },
      created_at (subscription_link id) (new_subscription id req),
    )

unfoldable pub handle_create_subscription :
    (String → Option Url)
    → Option CreateEventDestinationRequest
    → EventTable
    → EventTable × Reply EventDestination
handle_create_subscription parse_url none t = (t, failure 400 malformed_json)
handle_create_subscription parse_url (some req) t = elim (validate_subscription parse_url req) [
  | err code ↦ (t, failure 400 code)
  | ok full ↦ add_subscription full t
]

unfoldable pub handle_get_subscription : Bytes → EventTable → Reply EventDestination
handle_get_subscription id t = elim (get id t.subscriptions) [
  | none ↦ failure 404 resource_not_found
  | some sub ↦ document 200 sub
]

unfoldable pub handle_delete_subscription : Bytes → EventTable → EventTable × Reply EventDestination
handle_delete_subscription id t =
    let t' : EventTable = record t { subscriptions = remove id t.subscriptions } in
    elim (get id t.subscriptions) [
      | none ↦ (t', failure 404 resource_not_found)
      | some sub ↦ (t', no_content)
    ]
