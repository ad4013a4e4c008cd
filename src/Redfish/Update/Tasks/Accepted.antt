-- ===== src/Redfish/Update/Tasks/Accepted.antt =====
-- An accepted SimpleUpdate: its task is new, under an id of its own, and the goroutine settles it.
use Prim.Native.String.{String, ◌++◌ as append}
use qemu_bmc.Base.{
  ℕ, zero, suc, ◌+◌, ◌-◌, ◌≡◌, ◌≢◌, ◌≤◌, refl, sym, ap, ◌∙◌, Bytes, ◌++◌, Option, none, some, arith,
  Option-cases, Result-cases, inl, inr, bytes_eq, bytes_eq_refl, bytes_eq→eq, Bool-cases, replicate,
  length, drop,
}
use qemu_bmc.Base.Decimal.{itoa, parse_digits, parse_digits-itoa}
use qemu_bmc.Base.Maps.{get, get-put}
use qemu_bmc.Bmc.Accounts.Create.{bytes_eq-false}
use qemu_bmc.Firmware.{Client, UpdateRequest}
use qemu_bmc.Redfish.Http.{Link, Reply, accepted_at}
use qemu_bmc.Redfish.Server.{Server, Task, new}
use qemu_bmc.Redfish.Update.{TextOps, SimpleUpdateRequest, check_simple_update}
use qemu_bmc.Redfish.Update.Tasks.{
  job_id, new_task, create_task, handle_simple_update, run_firmware_update,
}
use qemu_bmc.Redfish.Update.Tasks.Settled.{Settled, run_firmware_update_settles}

-- Leading zeros do not change a number.
parse_digits-zeros :
    (k : ℕ) (xs : Bytes) → parse_digits 0 (replicate k 48 ++ xs) ≡ parse_digits 0 xs
unfolding parse_digits
parse_digits-zeros zero xs = refl
parse_digits-zeros (suc k) xs = parse_digits-zeros k xs

-- The number that a job id stands for.
abbrev number_in : Bytes → Option ℕ
number_in id = parse_digits 0 (drop 4 id)

number_in-job_id : (n : ℕ) → number_in (job_id n) ≡ some n
unfolding job_id
number_in-job_id n = parse_digits-zeros (12 - length (itoa n)) (itoa n) ∙ parse_digits-itoa n

pub job_id_injective : (m n : ℕ) → job_id m ≡ job_id n → m ≡ n
job_id_injective m n e =
    let p : some m ≡ some n = sym (number_in-job_id m) ∙ ap number_in e ∙ number_in-job_id n in cc

module _ {M V : Type 0} where
  -- Every task stands under the id of a number that the counter has passed.
  abbrev pub AreNumbered : Server M V → Type 0
  AreNumbered s =
      (k : Bytes) (t : Task)
      → get k s.tasks ≡ some t
      → (n : ℕ) × (n ≤ s.next_task_id) × (k ≡ job_id n)

  fresh_job : (s : Server M V) → AreNumbered s → get (job_id (s.next_task_id + 1)) s.tasks ≡ none
  fresh_job s numbered = elim (Option-cases (get (job_id (s.next_task_id + 1)) s.tasks)) [
    | inl free ↦ free
    | inr (t, e) ↦
        let (n, small, key) = numbered _ t e in
        absurd (omega (arith, small, job_id_injective (s.next_task_id + 1) n key))
  ]

  -- What an accepted request leaves: a new task under an id that was free, and the others as they were.
  pub record IsAccepted (s s' : Server M V) (id : Bytes) (t : Task) : Type 0 where
    pub stored : get id s'.tasks ≡ some t
    pub free : get id s.tasks ≡ none
    pub is_new : t.state ≡ new
    pub at_zero : t.percent_complete ≡ 0
    pub others : (k : Bytes) → k ≢ id → get k s'.tasks ≡ get k s.tasks

  created-IsAccepted :
      (now name : String) (s : Server M V)
      → AreNumbered s
      → let (s', t) = create_task now name s in IsAccepted s s' (job_id (s.next_task_id + 1)) t
  unfolding create_task new_task
  created-IsAccepted now name s numbered =
      let id = job_id (s.next_task_id + 1) in
      record {
        stored = rw (get-put id id (new_task now id name) s.tasks, bytes_eq_refl id);
        free = fresh_job s numbered;
        is_new = refl;
        at_zero = refl;
        others =
            λ k ne. rw (get-put id k (new_task now id name) s.tasks, bytes_eq-false k id ne) refl;
      }

  created-AreNumbered :
      (now name : String) (s : Server M V) → AreNumbered s → AreNumbered (create_task now name s).0
  unfolding create_task
  created-AreNumbered now name s numbered k t e =
      elim (Bool-cases (bytes_eq k (job_id (s.next_task_id + 1)))) [
        | inl same ↦ (s.next_task_id + 1, omega arith, bytes_eq→eq _ _ same)
        | inr other ↦
            let old = rw (get-put (job_id (s.next_task_id + 1)) k _ s.tasks, other) at e in
            let (n, small, key) = numbered k t old in (n, omega (arith, small), key)
      ]

module _ {W M V : Type 0} (client : Client W) where
  -- When SimpleUpdate accepts a request, with tasks that stand under ids of numbers up to the
  -- counter, it adds a new task under an id that was free and leaves the other tasks; the update
  -- that it starts settles that task: completed with the version staged that stands in the package
  -- which the server of its image answered with, or in exception with nothing staged.
  pub simple_update_settles :
      (now later : String) (ops : TextOps) (body : Option SimpleUpdateRequest) (w : W)
      (s s' : Server M V) (l : Link) (t : Task) (id : Bytes) (req : UpdateRequest)
      → AreNumbered s
      → handle_simple_update now ops body s ≡ (s', accepted_at l t, some (id, req))
      → IsAccepted s s' id t
        × AreNumbered s'
        × Settled client id later req w t s' (run_firmware_update client later id req w s').1
  unfolding handle_simple_update
  simple_update_settles now later ops body w s s' l t id req numbered e =
      elim (Result-cases (check_simple_update ops body)) [
        | inl (code, bad) ↦ let p = rw (handle_simple_update, bad) at e in cc
        | inr (update, good) ↦
            let p = rw (handle_simple_update, good) at e in
            let name = append "Firmware Update: " update.image_uri in
            let state : (create_task now name s).0 ≡ s' =
              ap (λ (q : Server M V × Reply Task × Option (Bytes × UpdateRequest)). q.0) p in
            let key : job_id (s.next_task_id + 1) ≡ id = unfold create_task new_task in cc in
            let task : (create_task now name s).1 ≡ t = cc in
            let accepted : IsAccepted s s' id t =
              rw (← state, ← key, ← task) (created-IsAccepted now name s numbered) in
            (
              accepted,
              rw (← state) (created-AreNumbered now name s numbered),
              run_firmware_update_settles client id later req w s' t accepted.stored accepted.is_new
                  accepted.at_zero,
            )
      ]
