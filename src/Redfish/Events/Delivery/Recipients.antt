-- ===== src/Redfish/Events/Delivery/Recipients.antt =====
-- Who gets a test event.
use Prim.Native.String.{String}
use text.Mathlib.Text.{◌==◌ as str_eq}
use qemu_bmc.Base.{ℕ, suc, ◌≡◌, ◌≢◌, ◌⊎◌, Bytes, Bool, List, [], ◌∷◌, some, if◌then◌else◌}
use qemu_bmc.Redfish.Events.{EventDestination}
use qemu_bmc.Redfish.Events.Delivery.{Event, Payload, SubmitTestEventRequest, json_text, json_link}

-- What a subscription for the Event format is sent: its destination, and the one event in its context.
abbrev pub gets_event : EventDestination → Bool
gets_event sub = str_eq sub.event_format_type "Event"

abbrev pub payload_for : Bytes → Event → EventDestination → String × Payload
payload_for id ev sub =
    (sub.destination, record { id = id; context = sub.context; events = ev ∷ [] })

-- The event of a request: what it leaves out is the number of the payload, the time, and no origin.
pub record AsRequested (now : String) (id : Bytes) (req : SubmitTestEventRequest) (ev : Event)
    : Type 0 where
  pub severity : ev.severity ≡ req.severity
  pub message_severity : ev.message_severity ≡ req.message_severity
  pub message : ev.message ≡ req.message
  pub message_id : ev.message_id ≡ req.message_id
  pub message_args : ev.message_args ≡ req.message_args
  pub event_id :
      (req.event_id ≡ [] → ev.event_id ≡ id) × (req.event_id ≢ [] → ev.event_id ≡ req.event_id)
  pub timestamp :
      (req.event_timestamp ≡ "" → ev.event_timestamp ≡ now)
      × (req.event_timestamp ≢ "" → ev.event_timestamp ≡ req.event_timestamp)
  pub origin :
      (uri : String)
      → uri ≢ ""
      → (req.origin_of_condition ≡ json_text uri) ⊎ (req.origin_of_condition ≡ json_link uri)
      → ev.origin_of_condition ≡ some uri

-- How many elements pass a test.
unfoldable pub count {ℓ} : {A : Type ℓ} → (A → Bool) → List A → ℕ
count p [] = 0
count p (x ∷ xs) = let rest = count p xs in if p x then suc rest else rest
