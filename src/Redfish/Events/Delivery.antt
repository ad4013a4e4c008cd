-- ===== src/Redfish/Events/Delivery.antt =====
-- internal/redfish/handler_events.go: the sorted list of subscriptions and the test event, which goes
-- to every subscription for the Event format.
pub mod Recipients
use Prim.Native.String.{String}
use text.Mathlib.Text.{◌==◌ as str_eq}
use qemu_bmc.Base.{ℕ, ◌+◌, Bytes, List, [], ◌∷◌, Option, none, some, leb, length, if◌then◌else◌}
use qemu_bmc.Base.Decimal.{itoa, parse_digits}
use qemu_bmc.Base.Maps.{Map}
use qemu_bmc.Redfish.Events.{EventDestination, EventTable}
use qemu_bmc.Redfish.Http.{
  Link, Reply, document, failure, no_content, malformed_json, action_parameter_missing,
  action_parameter_value_type,
}

pub record Event : Type 0 where
  pub member_id : String
  pub event_id : Bytes
  pub event_timestamp : String
  pub severity : String
  pub message_severity : String
  pub message : String
  pub message_id : String
  pub message_args : List String
  pub origin_of_condition : Option String

pub record Payload : Type 0 where
  pub id : Bytes
  pub context : String
  pub events : List Event

-- A raw JSON value: absent or null, a text, an object with an @odata.id, or anything else.
pub data RawJson : Type 0 where
  absent other_value : RawJson
  json_text json_link : String → RawJson

pub record SubmitTestEventRequest : Type 0 where
  pub event_id : Bytes
  pub event_timestamp : String
  pub severity : String
  pub message_severity : String
  pub message : String
  pub message_id : String
  pub message_args : List String
  pub origin_of_condition : RawJson

-- strconv.Atoi on the id of a subscription, 0 on an error.
abbrev pub number_of : EventDestination → ℕ
number_of sub = elim (parse_digits 0 sub.id) [ none ↦ 0 | some n ↦ n ]

abbrev pub values : Map EventDestination → List EventDestination
values [] = []
values ((k, sub) ∷ subs) = sub ∷ values subs

-- sort.Slice by the number of the id.
unfoldable pub insert_by_number : EventDestination → List EventDestination → List EventDestination
insert_by_number sub [] = sub ∷ []
insert_by_number sub (x ∷ xs) =
    let rest = insert_by_number sub xs in
    if leb (number_of sub) (number_of x) then sub ∷ x ∷ xs else x ∷ rest

unfoldable pub sort_by_number : List EventDestination → List EventDestination
sort_by_number [] = []
sort_by_number (x ∷ xs) = insert_by_number x (sort_by_number xs)

unfoldable pub list_subscriptions : EventTable → List EventDestination
list_subscriptions t = sort_by_number (values t.subscriptions)

abbrev pub links : List EventDestination → List Link
links [] = []
links (sub ∷ subs) = sub.odata_id ∷ links subs

pub record SubscriptionCollection : Type 0 where
  pub members_count : ℕ
  pub members : List Link

unfoldable pub handle_subscription_collection : EventTable → Reply SubscriptionCollection
handle_subscription_collection t = document 200 (record {
  members_count = length (links (list_subscriptions t));
  members = links (list_subscriptions t);
})

unfoldable pub parse_origin_of_condition : RawJson → Option String
parse_origin_of_condition absent = some ""
parse_origin_of_condition (json_text uri) = some uri
parse_origin_of_condition (json_link uri) = some uri
parse_origin_of_condition other_value = none

-- The event with the fields that the request leaves out; `now` is the formatted time.
unfoldable pub test_event : String → Bytes → String → SubmitTestEventRequest → Event
test_event now payload_id origin req = record {
  member_id = "0";
  event_id = elim (req.event_id) [ [] ↦ payload_id | c ∷ cs ↦ c ∷ cs ];
  event_timestamp = if str_eq req.event_timestamp "" then now else req.event_timestamp;
  severity = req.severity;
  message_severity = req.message_severity;
  message = req.message;
  message_id = req.message_id;
  message_args = req.message_args;
  origin_of_condition = if str_eq origin "" then none else some origin;
}

-- The loop over the subscriptions: what is sent, and where to.
unfoldable pub sends : Bytes → Event → List EventDestination → List (String × Payload)
sends payload_id ev [] = []
sends payload_id ev (sub ∷ subs) =
    let rest = sends payload_id ev subs in
    if str_eq sub.event_format_type "Event"
    then (sub.destination, record { id = payload_id; context = sub.context; events = ev ∷ [] })
      ∷ rest
    else rest

-- What follows the checks: the counter, and the payloads handed to the dispatcher.
unfoldable pub submit_event :
    String
    → String
    → SubmitTestEventRequest
    → EventTable
    → EventTable × Reply Event × List (String × Payload)
submit_event now origin req t =
    let payload_id = itoa (t.next_event_id + 1) in
    (
      record t { next_event_id = t.next_event_id + 1 },
      no_content,
      sends payload_id (test_event now payload_id origin req) (list_subscriptions t),
    )

unfoldable pub handle_submit_test_event :
    String
    → Option SubmitTestEventRequest
    → EventTable
    → EventTable × Reply Event × List (String × Payload)
handle_submit_test_event now none t = (t, failure 400 malformed_json, [])
handle_submit_test_event now (some req) t =
    if str_eq req.message_id ""
    then (t, failure 400 action_parameter_missing, [])
    else elim (parse_origin_of_condition req.origin_of_condition) [
      | none ↦ (t, failure 400 action_parameter_value_type, [])
      | some origin ↦ submit_event now origin req t
    ]
