-- ===== src/Qemu/Process.antt =====
-- internal/qemu/process.go: the process manager as a step relation over its fields, the exit channels
-- that Start makes, and the monitor goroutines. Each critical section of p.mu is one step.
pub mod Channels
use Prim.Native.String.{String}
use qemu_bmc.Base.{
  ℕ, zero, suc, ◌+◌, ◌-◌, Bool, true, false, List, [], ◌∷◌, Option, none, some, ◌==◌, ltb, ◌≡◌, ◌<◌,
  if◌then◌else◌,
}
use qemu_bmc.Qemu.Boot.{apply_boot_override, apply_media}

-- The states of an exit channel: open, read by a monitor that is about to close it, and closed.
pub data Channel : Type 0 where
  is_open closing closed : Channel

-- `waiting` counts the monitors in cmd.Wait; channels are numbered in the order of their making, and
-- the manager holds the last one. `args` are the arguments of the last command.
pub record ProcessState : Type 0 where
  pub running : Bool
  pub media : String
  pub base_args : List String
  pub args : List String
  pub channel : ℕ
  pub channels : ℕ → Channel
  pub waiting : ℕ

unfoldable pub new_process_manager : List String → ProcessState
new_process_manager base_args = record {
  running = false;
  media = "";
  base_args = base_args;
  args = [];
  channel = 0;
  channels = λ c. is_open;
  waiting = 0;
}

abbrev pub put_channel : ℕ → Channel → (ℕ → Channel) → ℕ → Channel
put_channel c x channels d = if d == c then x else channels d

unfoldable pub set_media : String → ProcessState → ProcessState
set_media image p = record p { media = image }

-- The arguments of a cold start.
abbrev pub start_args : String → ProcessState → List String
start_args target p = apply_media (apply_boot_override p.base_args target) p.media

-- Start; `launches` is whether cmd.Start succeeds. The error is `true`.
unfoldable pub start : String → Bool → ProcessState → ProcessState × Bool
start target launches p =
    if p.running
    then (p, false)
    else if launches
    then (
      record p {
        args = start_args target p;
        running = true;
        channel = p.channel + 1;
        waiting = p.waiting + 1;
      },
      false,
    )
    else (record p { args = start_args target p }, true)

-- The monitor's critical section, once cmd.Wait has returned.
unfoldable pub note_exit : ProcessState → ProcessState
note_exit p = record p {
  running = false;
  waiting = p.waiting - 1;
  channels = put_channel p.channel closing p.channels;
}

-- close(ch) of a monitor.
unfoldable pub close_channel : ℕ → ProcessState → ProcessState
close_channel c p = record p { channels = put_channel c closed p.channels }

-- The steps of the callers and the monitors, in any order.
pub data ProcessStep : ProcessState → ProcessState → Type 0 where
  started :
      {p : ProcessState} (target : String) (launches : Bool)
      → ProcessStep p (start target launches p).0
  media_set : {p : ProcessState} (image : String) → ProcessStep p (set_media image p)
  exited : {p : ProcessState} → 0 < p.waiting → ProcessStep p (note_exit p)
  closed_by :
      {p : ProcessState} (c : ℕ) → p.channels c ≡ closing → ProcessStep p (close_channel c p)

pub data ProcessReach (base_args : List String) : ProcessState → Type 0 where
  fresh : ProcessReach base_args (new_process_manager base_args)
  then_step :
      {p q : ProcessState} → ProcessReach base_args p → ProcessStep p q → ProcessReach base_args q
