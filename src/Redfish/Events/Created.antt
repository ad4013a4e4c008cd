-- ===== src/Redfish/Events/Created.antt =====
-- A created subscription is found again under its id, and nothing else has changed.
use Prim.Native.String.{String}
use qemu_bmc.Base.{
  ◌+◌, ◌≡◌, ◌≢◌, refl, ◌∙◌, Bytes, false, Option, none, some, Bool-cases, Result-cases, ap, inl,
  inr, bytes_eq, bytes_eq_refl,
}
use qemu_bmc.Bmc.Accounts.Create.{bytes_eq-false}
use qemu_bmc.Base.Decimal.{itoa}
use qemu_bmc.Base.Maps.{get, put, get-put}
use qemu_bmc.Redfish.Http.{
  Reply, subscription_link, document, created_at, failure, resource_not_found,
}
use qemu_bmc.Redfish.Events.{
  EventDestination, CreateEventDestinationRequest, EventTable, Url, has_target, new_subscription,
  add_subscription, validate_subscription, handle_create_subscription, handle_get_subscription,
}
use qemu_bmc.Redfish.Events.Table.{IsConsistent, fresh_id}

-- A stored subscription is found under the id of the answer, which was free before.
added :
    (req : CreateEventDestinationRequest) (t t' : EventTable) (id : Bytes) (sub : EventDestination)
    → IsConsistent t
    → add_subscription req t ≡ (t', created_at (subscription_link id) sub)
    → (get id t'.subscriptions ≡ some sub)
      × (get id t.subscriptions ≡ none)
      × ((other : Bytes) → other ≢ id → get other t'.subscriptions ≡ get other t.subscriptions)
unfolding add_subscription
added req t t' id sub c e =
    elim (Bool-cases (has_target req.destination req.event_format_type t.subscriptions)) [
      | inl taken ↦ let p = rw (taken) at e in cc
      | inr new ↦
          let p = rw (new) at e in
          let next = itoa (t.next_subscription_id + 1) in
          let made = new_subscription next req in
          let key : next ≡ id = cc in
          let doc : made ≡ sub = cc in
          let table : put next made t.subscriptions ≡ t'.subscriptions =
            ap (λ (q : EventTable × Reply EventDestination). q.0.subscriptions) p in
          (
            rw (← table, ← key, ← doc, get-put next next made t.subscriptions, bytes_eq_refl next),
            rw (← key) (fresh_id t c),
            λ other ne.
                let differ : bytes_eq other next ≡ false =
                  bytes_eq-false other next (λ q. ne (q ∙ key)) in
                rw (← table, get-put next other made t.subscriptions, differ),
          )
    ]

-- After a POST creates a subscription, GET of its id answers with what the POST answered, and every
-- subscription that was there before, none of which had that id, is found as it was.
pub get-created_subscription :
    (parse_url : String → Option Url) (req : CreateEventDestinationRequest) (t t' : EventTable)
    (id : Bytes) (sub : EventDestination)
    → IsConsistent t
    → handle_create_subscription parse_url (some req) t
      ≡ (t', created_at (subscription_link id) sub)
    → (handle_get_subscription id t' ≡ document 200 sub)
      × (handle_get_subscription id t ≡ failure 404 resource_not_found)
      × ((other : Bytes)
          → other ≢ id
          → handle_get_subscription other t' ≡ handle_get_subscription other t)
unfolding handle_create_subscription handle_get_subscription
get-created_subscription parse_url req t t' id sub c e =
    elim (Result-cases (validate_subscription parse_url req)) [
      | inl (code, bad) ↦ let p = rw (handle_create_subscription, bad) at e in cc
      | inr (full, good) ↦
          let (found, free, kept) =
            added full t t' id sub c (rw (handle_create_subscription, good) at e) in
          (
            rw (handle_get_subscription, found),
            rw (handle_get_subscription, free),
            λ other ne. rw (handle_get_subscription, kept other ne) refl,
          )
    ]
