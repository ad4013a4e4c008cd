-- ===== src/Tests/Events.antt =====
-- The event service on small inputs.
use Prim.Native.String.{String}
use qemu_bmc.Base.{◌≡◌, refl, Bytes, List, [], ◌∷◌, Option, some, ◌≢◌}
use qemu_bmc.Base.Decimal.{ascii, itoa, itoa_rounds}
use qemu_bmc.Base.Maps.{get, put}
use qemu_bmc.Redfish.Events.{
  CreateEventDestinationRequest, EventTable, EventDestination, Url, handle_create_subscription,
  handle_get_subscription, validate_subscription, add_subscription, has_target, new_subscription,
}
use qemu_bmc.Redfish.Events.Delivery.{Payload, SubmitTestEventRequest, absent, sends, test_event}
use qemu_bmc.Redfish.Events.Created.{get-created_subscription}
use qemu_bmc.Redfish.Events.Table.{
  IsConsistent, EventCall, post_subscription, delete_subscription, run_event_calls,
  run_event_calls-IsConsistent,
}
use qemu_bmc.Redfish.Http.{document, failure, subscription_link, resource_not_found}

abbrev listener : CreateEventDestinationRequest
listener = record {
  destination = "http://listener/";
  context = "";
  protocol = "";
  subscription_type = "";
  event_format_type = "";
  delivery_retry_policy = "";
  event_types = [];
  registry_prefixes = [];
  resource_types = [];
}

abbrev no_subscriptions : EventTable
no_subscriptions = record { subscriptions = []; next_subscription_id = 0; next_event_id = 0 }

no_subscriptions-IsConsistent : IsConsistent no_subscriptions
unfolding get
no_subscriptions-IsConsistent = record { apart = λ j k a b ea eb d f. cc; numbered = λ k a e. cc }

abbrev parse_url : String → Option Url
parse_url uri = some (record { scheme = "http"; host = "listener" })

abbrev event_calls : List EventCall
event_calls =
    post_subscription (some listener)
    ∷ post_subscription (some listener)
    ∷ delete_subscription (ascii "1")
    ∷ []

run_event_calls-IsConsistent_example :
    IsConsistent (run_event_calls parse_url event_calls no_subscriptions)
run_event_calls-IsConsistent_example =
    run_event_calls-IsConsistent parse_url event_calls no_subscriptions
      no_subscriptions-IsConsistent

abbrev with_listener : EventTable
with_listener = (handle_create_subscription parse_url (some listener) no_subscriptions).0

abbrev subscribed : EventDestination
subscribed = record {
  odata_id = subscription_link (ascii "1");
  id = ascii "1";
  destination = "http://listener/";
  context = "";
  protocol = "Redfish";
  subscription_type = "RedfishEvent";
  event_format_type = "Event";
  delivery_retry_policy = "";
  event_types = [];
  registry_prefixes = [];
  resource_types = [];
}

get-created_subscription_example :
    (handle_get_subscription (ascii "1") with_listener ≡ document 200 subscribed)
    × (handle_get_subscription (ascii "1") no_subscriptions ≡ failure 404 resource_not_found)
    × ((other : Bytes)
        → other ≢ ascii "1"
        → handle_get_subscription other with_listener
          ≡ handle_get_subscription other no_subscriptions)
unfolding handle_create_subscription validate_subscription add_subscription has_target
    new_subscription put itoa itoa_rounds
get-created_subscription_example =
    get-created_subscription parse_url listener no_subscriptions with_listener (ascii "1")
      subscribed no_subscriptions-IsConsistent refl

abbrev test_request : SubmitTestEventRequest
test_request = record {
  event_id = [];
  event_timestamp = "";
  severity = "OK";
  message_severity = "OK";
  message = "test";
  message_id = "Base.1.0.Success";
  message_args = [];
  origin_of_condition = absent;
}

abbrev listening : EventTable
listening = record no_subscriptions { subscriptions = (ascii "1", subscribed) ∷ [] }

abbrev sent : List (String × Payload)
sent = sends (ascii "1") (test_event "12:00" (ascii "1") "" test_request) (subscribed ∷ [])
