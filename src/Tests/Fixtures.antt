-- ===== src/Tests/Fixtures.antt =====
-- A platform that keeps the laws, a machine in a small world, and a BMC with its default user.
use qemu_bmc.Base.{
  ℕ, ◌+◌, refl, sym, ap, ◌∙◌, Bytes, [], ◌∷◌, ◌++◌, Option, none, some, length, length-append,
  length-replicate, length-take, take, replicate, arith, Result,
}
use qemu_bmc.Bmc.State.{State, new_state}
use qemu_bmc.Ipmi.Env.{Platform, PlatformLaws, MachineInterface, Ctx}
use qemu_bmc.Ipmi.RmcpPlus.Wrap.{ServerState}
use qemu_bmc.Ipmi.Session.{Session, empty_session, put_session}
use qemu_bmc.Machine.Boot.{new_machine}
use qemu_bmc.Machine.Host.{Host, ClockLaws, Machine, returns}
use qemu_bmc.Machine.Interface.{machine_interface}
use qemu_bmc.Machine.Types.{running, qmp_error}

abbrev pub admin : Bytes
admin = 97 ∷ 100 ∷ 109 ∷ []

abbrev pub secret : Bytes
secret = 112 ∷ 119 ∷ []

abbrev pub bmc : State
bmc = new_state admin secret

-- A keyed code of 20 bytes, a cipher that changes nothing, and a generator that never fails.
abbrev pub platform : Platform
platform = record {
  hmac_sha1 = λ key msg. take 20 (key ++ (msg ++ replicate 20 0));
  md5 = λ bs. replicate 16 0;
  aes_cbc_encrypt = λ key iv bs. bs;
  aes_cbc_decrypt = λ key iv bs. bs;
  random = λ i n. some (replicate n 7);
}

drawn_length : Option Bytes → ℕ
drawn_length none = 0
drawn_length (some bs) = length bs

pub platform-Laws : PlatformLaws platform
unfolding drawn_length
platform-Laws = record {
  length-hmac_sha1 = λ key msg. omega (
    arith,
    length-take 20 (key ++ (msg ++ replicate 20 0)),
    length-append key (msg ++ replicate 20 0),
    length-append msg (replicate 20 0),
  );
  length-random = λ i n bs e. sym (ap drawn_length e) ∙ length-replicate n 7;
  length-aes_cbc_encrypt = λ key iv bs h. refl;
  decrypt-encrypt = λ key iv bs h. refl;
}

-- The world is a clock; QMP never connects.
abbrev pub silent_host : Host ℕ
silent_host = record {
  qmp = record {
    connect = λ w. (w + 5, returns (some qmp_error));
    query_status = λ w. (w, Result.ok running);
    system_powerdown = λ w. (w, none);
    system_reset = λ w. (w, none);
    stop = λ w. (w, none);
    cont = λ w. (w, none);
    quit = λ w. (w, none);
    blockdev_change_medium = λ device file w. (w, none);
    blockdev_remove_medium = λ device w. (w, none);
  };
  process = none;
  graceful_shutdown_timeout = 120000;
  now = λ w. w;
  sleep = λ d w. w + d;
  download = λ url w. (w, none);
  remove_file = λ path w. w;
}

pub silent_host-Laws : ClockLaws silent_host
silent_host-Laws = record {
  sleep_advances = λ d w. omega arith;
  connect_monotone = λ w. omega arith;
}

abbrev pub machine : Machine ℕ
machine = new_machine 1000

abbrev pub mi : MachineInterface (Machine ℕ)
mi = machine_interface silent_host

abbrev pub ctx : Ctx (Machine ℕ)
ctx = record {
  machine = machine;
  bmc = bmc;
  v15 = record { temp_session_id = 0; challenge = []; active_session_id = 0 };
  draws = 0;
}

-- The session with the number 258, opened and not authenticated yet.
abbrev pub fresh : Session
fresh = empty_session 5 258 (replicate 16 7) (replicate 16 7)

abbrev pub server : ServerState (Machine ℕ)
server = record { ctx = ctx; sessions = put_session 258 fresh [] }
