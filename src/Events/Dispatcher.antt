-- ===== src/Events/Dispatcher.antt =====
-- internal/events/dispatcher.go: Deliver, which retries a POST. `W` is the outside world; marshalling,
-- the HTTP client and the select between cancellation and the timer are its operations.
pub mod Retries
use Prim.Native.String.{String}
use qemu_bmc.Base.{ℕ, zero, suc, ◌+◌, ◌-◌, Bool, Option, none, some, ltb, if◌then◌else◌}

-- The errors of post and of Deliver, without their texts.
pub data PostError : Type 0 where
  transport_error request_error : PostError
  unexpected_status : ℕ → PostError

pub data DeliveryError : Type 0 where
  marshal_error cancelled : DeliveryError
  gave_up : ℕ → Option PostError → DeliveryError

-- `do_request` is client.Do: the status of the response, or `none` for an error. `wait` is the
-- select: `true` when the context is done before the retry interval is over.
pub record Network (W B : Type 0) : Type 0 where
  pub is_valid_request : String → Bool
  pub do_request : String → B → W → W × Option ℕ
  pub wait : W → W × Bool

pub record Dispatcher : Type 0 where
  pub attempts : ℕ

-- NewDispatcher: at least one attempt.
unfoldable pub new_dispatcher : ℕ → Dispatcher
new_dispatcher attempts = record { attempts = if ltb attempts 1 then 1 else attempts }

module _ {W B : Type 0} (net : Network W B) where
  -- A 2xx response is `none`.
  unfoldable pub post : String → B → W → W × Option PostError
  post destination body w =
      let (w', response) = net.do_request destination body w in
      if net.is_valid_request destination
      then elim response [
        | none ↦ (w', some transport_error)
        | some status ↦
            if ltb status 200
            then (w', some (unexpected_status status))
            else if ltb 299 status
            then (w', some (unexpected_status status))
            else (w', none)
      ]
      else (w, some request_error)

  -- The rounds of the loop behind the first attempt, and the error so far.
  unfoldable pub retry : ℕ → ℕ → String → B → Option PostError → W → W × Option DeliveryError
  retry attempts zero destination body last w = (w, some (gave_up attempts last))
  retry attempts (suc rounds) destination body last w =
      let (w1, is_done) = net.wait w in
      let (w2, e) = post destination body w1 in
      let again = retry attempts rounds destination body e w2 in
      if is_done then (w1, some cancelled) else elim e [ none ↦ (w2, none) | some x ↦ again ]

  -- The loop from its first attempt on; a dispatcher has one at least.
  unfoldable pub deliver_body : ℕ → String → B → W → W × Option DeliveryError
  deliver_body zero destination body w = (w, some (gave_up 0 none))
  deliver_body (suc rounds) destination body w =
      let (w1, e) = post destination body w in
      let again = retry (suc rounds) rounds destination body e w1 in
      elim e [ none ↦ (w1, none) | some x ↦ again ]

  -- Deliver: `none` for a payload that json.Marshal refuses.
  unfoldable pub deliver : Dispatcher → String → Option B → W → W × Option DeliveryError
  deliver d destination none w = (w, some marshal_error)
  deliver d destination (some body) w = deliver_body d.attempts destination body w
