-- ===== src/Redfish/Events/Table.antt =====
-- The subscription table: no two subscriptions for one destination and format, and fresh ids.
use Prim.Native.String.{String}
use text.Mathlib.TextEquality.{eq_iff}
use qemu_bmc.Base.{
  ℕ, ◌+◌, ◌≤◌, ◌≡◌, refl, sym, ◌∙◌, Bytes, true, false, List, [], ◌∷◌, Option, none, some, arith,
  Bool-cases, Option-cases, Result-cases, inl, inr, bytes_eq, bytes_eq→eq,
}
use qemu_bmc.Base.Decimal.{itoa, itoa_injective}
use qemu_bmc.Base.Maps.{Map, get, put, remove, get-put, get-remove}
use qemu_bmc.Redfish.Http.{Reply}
use qemu_bmc.Redfish.Events.{
  EventDestination, CreateEventDestinationRequest, EventTable, Url, has_target, is_same_target,
  new_subscription, add_subscription, validate_subscription, handle_create_subscription,
  handle_delete_subscription,
}

pub record IsConsistent (t : EventTable) : Type 0 where
  pub apart :
      (j k : Bytes) (a b : EventDestination)
      → get j t.subscriptions ≡ some a
      → get k t.subscriptions ≡ some b
      → a.destination ≡ b.destination
      → a.event_format_type ≡ b.event_format_type
      → j ≡ k
  pub numbered :
      (k : Bytes) (a : EventDestination)
      → get k t.subscriptions ≡ some a
      → (n : ℕ) × (n ≤ t.next_subscription_id) × (k ≡ itoa n) × (a.id ≡ k)

-- The loop over the subscriptions finds every one with the destination and the format.
has_target-get :
    (m : Map EventDestination) (k : Bytes) (a : EventDestination)
    → get k m ≡ some a
    → has_target a.destination a.event_format_type m ≡ true
unfolding get has_target
has_target-get [] k a e = cc
has_target-get ((j, b) ∷ m) k a e = elim (Bool-cases (bytes_eq k j)) [
  | inl here ↦
      let same : b ≡ a = ground arith in
      rw (
        same,
        (eq_iff a.destination a.destination).1 refl,
        (eq_iff a.event_format_type a.event_format_type).1 refl,
      )
  | inr there ↦
      let later : has_target a.destination a.event_format_type m ≡ true =
        has_target-get m k a (ground arith) in
      elim (Bool-cases (is_same_target a.destination a.event_format_type b)) [
        | inl hit ↦ rw (hit)
        | inr miss ↦ rw (miss) later
      ]
]

-- The id of a new subscription is in no use.
pub fresh_id :
    (t : EventTable)
    → IsConsistent t
    → get (itoa (t.next_subscription_id + 1)) t.subscriptions ≡ none
fresh_id t c = elim (Option-cases (get (itoa (t.next_subscription_id + 1)) t.subscriptions)) [
  | inl free ↦ free
  | inr (a, e) ↦
      let (n, small, key, named) = c.numbered _ a e in
      absurd (omega (arith, small, itoa_injective (t.next_subscription_id + 1) n key))
]

-- Storing a subscription whose target is new under the next id.
stored-IsConsistent :
    (req : CreateEventDestinationRequest) (t : EventTable)
    → has_target req.destination req.event_format_type t.subscriptions ≡ false
    → IsConsistent t
    → let id = itoa (t.next_subscription_id + 1) in
      IsConsistent (record t {
        next_subscription_id = t.next_subscription_id + 1;
        subscriptions = put id (new_subscription id req) t.subscriptions;
      })
unfolding new_subscription
stored-IsConsistent req t new c =
    let id = itoa (t.next_subscription_id + 1) in
    let sub = new_subscription id req in
    record {
      apart = λ j k a b ea eb d f. elim (Bool-cases (bytes_eq j id)) [
        | inl jn ↦ elim (Bool-cases (bytes_eq k id)) [
          | inl kn ↦ bytes_eq→eq j id jn ∙ sym (bytes_eq→eq k id kn)
          | inr ko ↦ absurd (clash b k (new_at j a jn ea) (old_at k b ko eb) (sym d) (sym f))
        ]
        | inr jo ↦ elim (Bool-cases (bytes_eq k id)) [
          | inl kn ↦ absurd (clash a j (new_at k b kn eb) (old_at j a jo ea) d f)
          | inr ko ↦ c.apart j k a b (old_at j a jo ea) (old_at k b ko eb) d f
        ]
      ];
      numbered = λ k a e. elim (Bool-cases (bytes_eq k id)) [
        | inl kn ↦
            let at : k ≡ id = bytes_eq→eq k id kn in
            let which : sub ≡ a = new_at k a kn e in
            (t.next_subscription_id + 1, omega arith, at, rw (← which, at) refl)
        | inr ko ↦
            let (n, small, key, named) = c.numbered k a (old_at k a ko e) in
            (n, omega (arith, small), key, named)
      ];
    }
  where
    at_new : Bytes
    at_new = itoa (t.next_subscription_id + 1)

    stored : Map EventDestination
    stored = put at_new (new_subscription at_new req) t.subscriptions

    new_at :
        (k : Bytes) (a : EventDestination)
        → bytes_eq k at_new ≡ true
        → get k stored ≡ some a
        → new_subscription at_new req ≡ a
    new_at k a same e =
        let p = rw (get-put at_new k (new_subscription at_new req) t.subscriptions, same) at e in cc

    old_at :
        (k : Bytes) (a : EventDestination)
        → bytes_eq k at_new ≡ false
        → get k stored ≡ some a
        → get k t.subscriptions ≡ some a
    old_at k a other e =
        rw (get-put at_new k (new_subscription at_new req) t.subscriptions, other) at e

    clash :
        (old : EventDestination) (k : Bytes) {a : EventDestination}
        → new_subscription at_new req ≡ a
        → get k t.subscriptions ≡ some old
        → old.destination ≡ a.destination
        → old.event_format_type ≡ a.event_format_type
        → ⊥
    clash old k n e d f =
        let hit = has_target-get t.subscriptions k old e in
        let d' : old.destination ≡ req.destination = rw (← n) at d in
        let f' : old.event_format_type ≡ req.event_format_type = rw (← n) at f in
        let p = rw (d', f') at hit in cc

add_subscription-IsConsistent :
    (req : CreateEventDestinationRequest) (t : EventTable)
    → IsConsistent t
    → IsConsistent (add_subscription req t).0
unfolding add_subscription
add_subscription-IsConsistent req t c =
    elim (Bool-cases (has_target req.destination req.event_format_type t.subscriptions)) [
      | inl taken ↦ rw (taken) c
      | inr new ↦ rw (new) (stored-IsConsistent req t new c)
    ]

delete-IsConsistent :
    (id : Bytes) (t : EventTable)
    → IsConsistent t
    → IsConsistent (record t { subscriptions = remove id t.subscriptions })
delete-IsConsistent id t c = record {
  apart = λ j k a b ea eb d f. c.apart j k a b (kept j a ea) (kept k b eb) d f;
  numbered = λ k a e. c.numbered k a (kept k a e);
}
  where
    kept :
        (k : Bytes) (a : EventDestination)
        → get k (remove id t.subscriptions) ≡ some a
        → get k t.subscriptions ≡ some a
    kept k a e = elim (Bool-cases (bytes_eq k id)) [
      | inl same ↦ let p = rw (get-remove id k t.subscriptions, same) at e in cc
      | inr other ↦ rw (get-remove id k t.subscriptions, other) at e
    ]

-- The requests that change the table.
pub data EventCall : Type 0 where
  post_subscription : Option CreateEventDestinationRequest → EventCall
  delete_subscription : Bytes → EventCall

module _ (parse_url : String → Option Url) where
  unfoldable pub serve_event : EventCall → EventTable → EventTable × Reply EventDestination
  serve_event (post_subscription body) t = handle_create_subscription parse_url body t
  serve_event (delete_subscription id) t = handle_delete_subscription id t

  pub run_event_calls : List EventCall → EventTable → EventTable
  run_event_calls [] t = t
  run_event_calls (c ∷ cs) t = run_event_calls cs (serve_event c t).0

  serve_event-IsConsistent :
      (call : EventCall) (t : EventTable) → IsConsistent t → IsConsistent (serve_event call t).0
  unfolding serve_event handle_create_subscription handle_delete_subscription
  serve_event-IsConsistent (post_subscription none) t c = c
  serve_event-IsConsistent (post_subscription (some req)) t c =
      elim (Result-cases (validate_subscription parse_url req)) [
        | inl (code, bad) ↦ rw (serve_event, handle_create_subscription, bad) c
        | inr (full, good) ↦
            rw (serve_event, handle_create_subscription, good)
              (add_subscription-IsConsistent full t c)
      ]
  serve_event-IsConsistent (delete_subscription id) t c =
      elim (Option-cases (get id t.subscriptions)) [
        | inl missing ↦
            rw (serve_event, handle_delete_subscription, missing) (delete-IsConsistent id t c)
        | inr (a, found) ↦
            rw (serve_event, handle_delete_subscription, found) (delete-IsConsistent id t c)
      ]

  -- Whatever subscriptions are requested and deleted in whatever order, no two subscriptions have
  -- one destination and one format, each is stored under its own id, and no id is above the counter.
  pub run_event_calls-IsConsistent :
      (cs : List EventCall) (t : EventTable) → IsConsistent t → IsConsistent (run_event_calls cs t)
  unfolding run_event_calls
  run_event_calls-IsConsistent [] t c = c
  run_event_calls-IsConsistent (call ∷ cs) t c =
      run_event_calls-IsConsistent cs (serve_event call t).0 (serve_event-IsConsistent call t c)
