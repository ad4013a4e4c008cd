-- ===== src/Qmp/Replies.antt =====
-- Replies behind events, the life of a connection, and the error that QueryStatus does not see.
use Prim.Native.String.{String}
use text.Mathlib.Text.{◌==◌ as str_eq}
use qemu_bmc.Base.{ok, ◌≡◌, refl, true, false, List, [], ◌∷◌, ◌++◌, none, some, All}
use qemu_bmc.Machine.Types.{other}
use qemu_bmc.Qmp.{
  QmpResponse, Line, Command, ClientState, read_reply, exchange, execute_locked, execute,
  qmp_query_status, qmp_error, query_status,
}

-- An asynchronous event.
pub data IsEvent : Line → Type 0 where
  an_event :
      {l : Line} (r : QmpResponse) → l.response ≡ some r → str_eq r.event "" ≡ false → IsEvent l

-- The reply that follows any number of events.
read-events :
    (events rest : List Line) (l : Line) (r : QmpResponse)
    → All IsEvent events
    → l.response ≡ some r
    → str_eq r.event "" ≡ true
    → read_reply (events ++ l ∷ rest) ≡ (rest, ok (l, r))
unfolding read_reply
read-events [] rest l r evs e plain = simp (read_reply, e, plain)
read-events (x ∷ events) rest l r (an_event q d named, evs) e plain =
    rw (d, named) (read-events events rest l r evs e plain)

-- A client with an open socket on which events and then a reply are waiting.
abbrev pub waiting : List Command → List Line → List Line → Line → ClientState
waiting sent events rest l = record {
  conn = some (record { takes_writes = true; sent = sent; lines = events ++ l ∷ rest });
  connected = true;
}

abbrev pub after : List Command → Command → List Line → ClientState
after sent command rest = record {
  conn = some (record { takes_writes = true; sent = sent ++ (command ∷ []); lines = rest });
  connected = true;
}

-- A command on a connected client is written once, skips the events that come before its reply,
-- reads the reply and nothing behind it, and fails exactly when the reply has an error.
pub execute_skips_events :
    (command : Command) (sent : List Command) (events rest : List Line) (l : Line) (r : QmpResponse)
    → All IsEvent events
    → l.response ≡ some r
    → str_eq r.event "" ≡ true
    → execute command (waiting sent events rest l)
      ≡ (after sent command rest, elim r.failure [ none ↦ none | some t ↦ some (qmp_error t) ])
unfolding execute execute_locked exchange
execute_skips_events command sent events rest l r evs e plain =
    rw (read-events events rest l r evs e plain) refl

-- When QEMU answers query-status with an error, QueryStatus reports none and the empty status: the
-- reply has no status to read.
pub query_status_hides_error :
    (sent : List Command) (events rest : List Line) (l : Line) (r : QmpResponse) (text : String)
    → All IsEvent events
    → l.response ≡ some r
    → str_eq r.event "" ≡ true
    → r.failure ≡ some text
    → l.status_text ≡ some ""
    → qmp_query_status (waiting sent events rest l) ≡ (after sent query_status rest, ok (other ""))
unfolding qmp_query_status exchange
query_status_hides_error sent events rest l r text evs e plain failed empty =
    rw (read-events events rest l r evs e plain, empty) refl
