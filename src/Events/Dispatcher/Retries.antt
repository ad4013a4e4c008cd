-- ===== src/Events/Dispatcher/Retries.antt =====
-- What Deliver does, told by the attempts: it stops at the first that succeeds, and makes no more
-- than the dispatcher has.
use Prim.Native.String.{String}
use qemu_bmc.Base.{
  ℕ, zero, suc, ◌+◌, ◌≡◌, ◌≤◌, ◌<◌, refl, true, false, Option, none, some, arith, Bool-cases,
  Option-cases, inl, inr, ◌⊎◌, ltb, ltb-false,
}
use qemu_bmc.Events.Dispatcher.{
  Network, DeliveryError, cancelled, gave_up, PostError, new_dispatcher, post, retry, deliver_body,
  deliver,
}

-- The attempts of a dispatcher that is made with a number: one for zero.
abbrev pub allowed : ℕ → ℕ
allowed zero = 1
allowed (suc n) = suc n

module _ {W B : Type 0} (net : Network W B) (destination : String) (body : B) where
  -- The world before the attempt with an index, when those before it failed.
  unfoldable pub before : ℕ → W → W
  before zero w = w
  before (suc k) w = (net.wait (post net destination body (before k w)).0).0

  unfoldable pub attempt : ℕ → W → W × Option PostError
  attempt k w = post net destination body (before k w)

  -- The attempt with an index sends a request, and its answer is a status from 200 to 299.
  pub record Succeeds (k : ℕ) (w : W) : Type 0 where
    pub is_sent : net.is_valid_request destination ≡ true
    pub status : ℕ
    pub answer : (net.do_request destination body (before k w)).1 ≡ some status
    pub at_least : 200 ≤ status
    pub at_most : status ≤ 299

  abbrev pub AllFail : ℕ → W → Type 0
  AllFail n w = (j : ℕ) → j < n → ¬ (Succeeds j w)

  -- The ways in which a delivery with a number of attempts may end.
  pub data DeliveryOutcome (n : ℕ) (w : W) : W × Option DeliveryError → Type 0 where
    delivered :
        (k : ℕ) → k < n → AllFail k w → Succeeds k w → DeliveryOutcome n w ((attempt k w).0, none)
    stopped :
        (k : ℕ)
        → k + 1 < n
        → AllFail (k + 1) w
        → (net.wait (attempt k w).0).1 ≡ true
        → DeliveryOutcome n w ((net.wait (attempt k w).0).0, some cancelled)
    exhausted :
        (k : ℕ)
        → k + 1 ≡ n
        → AllFail n w
        → DeliveryOutcome n w ((attempt k w).0, some (gave_up n (attempt k w).1))

  attempt_good : (k : ℕ) (w : W) → (attempt k w).1 ≡ none → Succeeds k w
  unfolding attempt post
  attempt_good k w e = elim (Bool-cases (net.is_valid_request destination)) [
    | inr bad ↦ let p = rw (attempt, post, bad) at e in cc
    | inl valid ↦ elim (Option-cases (net.do_request destination body (before k w)).1) [
      | inl lost ↦ let p = rw (attempt, post, valid, lost) at e in cc
      | inr (status, answer) ↦ record {
        is_sent = valid;
        status = status;
        answer = answer;
        at_least = ground (arith, valid, answer, e);
        at_most = ground (arith, valid, answer, e);
      }
    ]
  ]

  attempt_bad : (k : ℕ) (w : W) {x : PostError} → (attempt k w).1 ≡ some x → ¬ (Succeeds k w)
  unfolding attempt post
  attempt_bad k w e good =
      let low : ltb good.status 200 ≡ false = ltb-false good.status 200 good.at_least in
      let high : ltb 299 good.status ≡ false = ltb-false 299 good.status good.at_most in
      let p = rw (attempt, post, good.is_sent, good.answer, low, high) at e in cc

  before_or_at : (j k : ℕ) → j < k + 1 → (j < k) ⊎ (j ≡ k)
  before_or_at j k lt = ground arith

  fail_more :
      (k : ℕ) (w : W) {x : PostError} → AllFail k w → (attempt k w).1 ≡ some x → AllFail (k + 1) w
  fail_more k w before_k here j lt = elim (before_or_at j k lt) [
    | inl earlier ↦ before_k j earlier
    | inr same ↦ rw same (attempt_bad k w here)
  ]

  -- The rounds that are left after attempt `k` has failed.
  retry_outcome :
      (n rounds k : ℕ) (w : W)
      → k + 1 + rounds ≡ n
      → AllFail (k + 1) w
      → DeliveryOutcome n w (retry net n rounds destination body (attempt k w).1 (attempt k w).0)
  unfolding retry before attempt
  retry_outcome n zero k w e fails = exhausted k (omega arith) (λ j lt. fails j (omega arith))
  retry_outcome n (suc rounds) k w e fails = elim (Bool-cases (net.wait (attempt k w).0).1) [
    | inl is_done ↦ rw (is_done) (stopped k (omega arith) fails is_done)
    | inr goes_on ↦ elim (Option-cases (attempt (suc k) w).1) [
      | inl good ↦
          rw (goes_on, good)
            (delivered (suc k) (omega arith) (λ j lt. fails j (omega arith))
              (attempt_good (suc k) w good))
      | inr (x, bad) ↦
          rw (goes_on, bad)
            (retry_outcome n rounds (suc k) w (omega arith)
              (fail_more (suc k) w (λ j lt. fails j (omega arith)) bad))
    ]
  ]

  deliver_body_outcome :
      (n : ℕ) (w : W) → 1 ≤ n → DeliveryOutcome n w (deliver_body net n destination body w)
  unfolding deliver_body before attempt
  deliver_body_outcome zero w some_rounds = absurd (omega arith)
  deliver_body_outcome (suc rounds) w some_rounds = elim (Option-cases (attempt zero w).1) [
    | inl good ↦
        rw (deliver_body, good)
          (delivered zero (omega arith) (λ j lt. absurd (omega arith)) (attempt_good zero w good))
    | inr (x, bad) ↦
        rw (deliver_body, bad)
          (retry_outcome (suc rounds) rounds zero w (omega arith)
            (fail_more zero w (λ j lt. absurd (omega arith)) bad))
  ]

  attempts-new_dispatcher : (attempts : ℕ) → (new_dispatcher attempts).attempts ≡ allowed attempts
  unfolding new_dispatcher
  attempts-new_dispatcher zero = refl
  attempts-new_dispatcher (suc n) = ground arith

  at_least_one : (attempts : ℕ) → 1 ≤ allowed attempts
  at_least_one zero = omega arith
  at_least_one (suc n) = omega arith

  -- A dispatcher that NewDispatcher made with a number, or with one attempt for zero, delivers with
  -- the first attempt that is answered with a status from 200 to 299, stops when the context is done
  -- between two attempts, and gives up with the last error after that number of attempts failed.
  pub deliver_outcome :
      (attempts : ℕ) (w : W)
      → DeliveryOutcome
          (allowed attempts)
          w
          (deliver net (new_dispatcher attempts) destination (some body) w)
  unfolding deliver
  deliver_outcome attempts w =
      rw (attempts-new_dispatcher attempts)
        (deliver_body_outcome (allowed attempts) w (at_least_one attempts))
