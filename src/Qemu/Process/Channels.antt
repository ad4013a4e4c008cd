-- ===== src/Qemu/Process/Channels.antt =====
-- The exit channels of the process manager: none is closed twice, and a waiter is let go.
use Prim.Native.String.{String}
use qemu_bmc.Base.{
  ℕ, ◌+◌, ◌≡◌, ◌≢◌, ◌<◌, ◌==◌, ◌⊎◌, refl, sym, ◌∙◌, Bool, true, false, List, inl, inr, arith,
  Bool-cases,
}
use qemu_bmc.Qemu.Process.{
  Channel, is_open, closing, closed, ProcessState, new_process_manager, start, set_media, note_exit,
  close_channel, put_channel, ProcessStep, started, media_set, exited, closed_by, ProcessReach,
  fresh, then_step,
}

-- A running process has one monitor and an open channel; a process that is not has no monitor in
-- Wait; and the channels that are still to be made are open.
pub record IsMonitored (p : ProcessState) : Type 0 where
  pub on : p.running ≡ true → (p.waiting ≡ 1) × (p.channels p.channel ≡ is_open)
  pub off : p.running ≡ false → p.waiting ≡ 0
  pub unmade : (c : ℕ) → p.channel < c → p.channels c ≡ is_open
  -- The channel of a process that has exited is not open any more.
  pub left : p.running ≡ false → 0 < p.channel → p.channels p.channel ≢ is_open

-- A write to one channel, at that channel and at another.
channel_here : (c : ℕ) (x : Channel) (f : ℕ → Channel) → put_channel c x f c ≡ x
channel_here c x f = ground arith

channel_there : (c d : ℕ) (x : Channel) (f : ℕ → Channel) → d ≢ c → put_channel c x f d ≡ f d
channel_there c d x f ne = ground arith

busy_is_running : (p : ProcessState) → IsMonitored p → 0 < p.waiting → p.running ≡ true
busy_is_running p i busy = elim (Bool-cases p.running) [
  | inl on ↦ on
  | inr off ↦ absurd (omega (arith, i.off off))
]

start-IsMonitored :
    (target : String) (launches : Bool) (p : ProcessState)
    → IsMonitored p
    → IsMonitored (start target launches p).0
unfolding start
start-IsMonitored target launches p i = elim (Bool-cases p.running) [
  | inl on ↦ simp (start, on) i
  | inr off ↦ elim (Bool-cases launches) [
    | inl good ↦
        rw (start, off, good)
          (record {
            on = λ e. (omega (arith, i.off off), i.unmade (p.channel + 1) (omega arith));
            off = λ e. cc;
            unmade = λ c lt. i.unmade c (omega arith);
            left = λ e made. cc;
          })
    | inr bad ↦
        rw (start, off, bad)
          (record { on = λ e. cc; off = λ e. i.off off; unmade = i.unmade; left = λ e. i.left off })
  ]
]

exit-IsMonitored : (p : ProcessState) → 0 < p.waiting → IsMonitored p → IsMonitored (note_exit p)
unfolding note_exit
exit-IsMonitored p busy i =
    let one = (i.on (busy_is_running p i busy)).0 in
    record {
      on = λ e. cc;
      off = λ e. omega (arith, one);
      unmade =
          λ c lt. rw (channel_there p.channel c closing p.channels (omega arith)) (i.unmade c lt);
      left = λ e made same. let here = channel_here p.channel closing p.channels in cc;
    }

close-IsMonitored :
    (p : ProcessState) (c : ℕ)
    → p.channels c ≡ closing
    → IsMonitored p
    → IsMonitored (close_channel c p)
unfolding close_channel
close-IsMonitored p c e i = record {
  on = λ run. (
    (i.on run).0,
    channel_there c p.channel closed p.channels (λ same. clash p.channel same (i.on run).1)
        ∙ (i.on run).1,
  );
  off = i.off;
  unmade = λ d lt.
      channel_there c d closed p.channels (λ same. clash d same (i.unmade d lt)) ∙ i.unmade d lt;
  left = λ run made still. elim (Bool-cases (p.channel == c)) [
    | inl same ↦
        let at : p.channel ≡ c = ground arith in
        let here : put_channel c closed p.channels p.channel ≡ closed =
          rw (at) (channel_here c closed p.channels) in
        cc
    | inr differs ↦
        let there = channel_there c p.channel closed p.channels (λ at. ground arith) in
        i.left run made (sym there ∙ still)
  ];
}
  where
    clash : (d : ℕ) → d ≡ c → p.channels d ≡ is_open → ⊥
    clash d same o = let q = rw (same) at o in cc

step-IsMonitored : {p q : ProcessState} → ProcessStep p q → IsMonitored p → IsMonitored q
unfolding set_media
step-IsMonitored {p} (started target launches) i = start-IsMonitored target launches p i
step-IsMonitored {p} (media_set image) i = record {
  on = i.on;
  off = i.off;
  unmade = i.unmade;
  left = i.left;
}
step-IsMonitored {p} (exited busy) i = exit-IsMonitored p busy i
step-IsMonitored {p} (closed_by c e) i = close-IsMonitored p c e i

fresh-IsMonitored : (base_args : List String) → IsMonitored (new_process_manager base_args)
unfolding new_process_manager
fresh-IsMonitored base_args = record {
  on = λ e. cc;
  off = λ e. refl;
  unmade = λ c lt. refl;
  left = λ e made. absurd (omega arith);
}

reached-IsMonitored :
    {base_args : List String} {p : ProcessState} → ProcessReach base_args p → IsMonitored p
reached-IsMonitored {base_args} fresh = fresh-IsMonitored base_args
reached-IsMonitored (then_step r s) = step-IsMonitored s (reached-IsMonitored r)

-- In every state that starts, exits and closes lead to, in any order: a monitor whose process exits
-- finds the channel that the manager holds open, so no channel is closed twice; and once a started
-- process has exited, its channel is closed or a monitor is about to close it.
pub channels_close_once :
    (base_args : List String) (p : ProcessState)
    → ProcessReach base_args p
    → (0 < p.waiting → p.channels p.channel ≡ is_open)
      × (p.running ≡ false
          → 0 < p.channel
          → (p.channels p.channel ≡ closing) ⊎ (p.channels p.channel ≡ closed))
channels_close_once base_args p r =
    let i = reached-IsMonitored r in
    (
      λ busy. (i.on (busy_is_running p i busy)).1,
      λ off made. ended (p.channels p.channel) (i.left off made),
    )
  where
    ended : (x : Channel) → x ≢ is_open → (x ≡ closing) ⊎ (x ≡ closed)
    ended is_open ne = absurd (ne refl)
    ended closing ne = inl refl
    ended closed ne = inr refl
