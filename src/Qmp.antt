-- ===== src/Qmp.antt =====
-- internal/qmp/client.go: the QMP client on one socket. What the peer will send is the list of lines
-- that the scanner is still to give; a line is what json.Unmarshal makes of it for each target type.
pub mod Replies
pub mod Connection
pub mod Interface
use Prim.Native.String.{String}
use text.Mathlib.Text.{◌==◌ as str_eq}
use qemu_bmc.Base.{
  Result, ok, err, ℕ, Bool, true, false, List, [], ◌∷◌, ◌++◌, Option, none, some, not,
  if◌then◌else◌,
}
use qemu_bmc.Machine.Types.{Status, running, shutdown, paused, other}

pub data QmpFailure : Type 0 where
  not_connected dial_error write_error connection_closed : QmpFailure
  bad_greeting bad_response bad_status : QmpFailure
  qmp_error : String → QmpFailure

-- qmpResponse: the event, empty when there is none, and the class of an error.
pub record QmpResponse : Type 0 where
  pub event : String
  pub failure : Option String

pub record Line : Type 0 where
  pub is_greeting : Bool
  pub response : Option QmpResponse
  pub status_text : Option String

-- The commands with their arguments.
pub data Command : Type 0 where
  qmp_capabilities query_status system_powerdown system_reset stop cont quit : Command
  blockdev_change_medium : String → String → Command
  blockdev_remove_medium : String → Command

-- A socket: whether it takes writes, what was written, and what is still to be read.
pub record Conn : Type 0 where
  pub takes_writes : Bool
  pub sent : List Command
  pub lines : List Line

-- The struct qmpClient; `conn` is `none` for nil, the scanner is part of it.
pub record ClientState : Type 0 where
  pub conn : Option Conn
  pub connected : Bool

abbrev pub new_disconnected_client : ClientState
new_disconnected_client = record { conn = none; connected = false }

-- The loop that reads up to the first line that is no event.
unfoldable pub read_reply : List Line → List Line × Result QmpFailure (Line × QmpResponse)
read_reply [] = ([], err connection_closed)
read_reply (l ∷ ls) =
    let rest = read_reply ls in
    elim (l.response) [
      | none ↦ (ls, err bad_response)
      | some r ↦ if not (str_eq r.event "") then rest else (ls, ok (l, r))
    ]

-- The write and the loop, which executeLocked and executeWithResponse share.
unfoldable pub exchange : Command → Conn → Conn × Result QmpFailure (Line × QmpResponse)
exchange command c =
    let (ls, reply) = read_reply c.lines in
    if not c.takes_writes
    then (c, err write_error)
    else (record c { sent = c.sent ++ (command ∷ []); lines = ls }, reply)

-- `resp.Error != nil`
abbrev pub reply_error : Result QmpFailure (Line × QmpResponse) → Option QmpFailure
reply_error (err e) = some e
reply_error (ok (l, r)) = elim (r.failure) [ none ↦ none | some text ↦ some (qmp_error text) ]

unfoldable pub execute_locked : Command → Conn → Conn × Option QmpFailure
execute_locked command c = let (c', reply) = exchange command c in (c', reply_error reply)

-- A connection that a failure closes again is nil.
abbrev pub disconnected : QmpFailure → ClientState × Option QmpFailure
disconnected e = (new_disconnected_client, some e)

-- The negotiation on a new socket, behind the greeting.
unfoldable pub negotiate : Conn → ClientState × Option QmpFailure
negotiate c =
    let (c', e) = execute_locked qmp_capabilities c in
    elim e [ some x ↦ disconnected x | none ↦ (record { conn = some c'; connected = true }, none) ]

unfoldable pub greet : Bool → List Line → ClientState × Option QmpFailure
greet takes_writes [] = disconnected connection_closed
greet takes_writes (l ∷ ls) =
    if not l.is_greeting
    then disconnected bad_greeting
    else negotiate (record { takes_writes = takes_writes; sent = []; lines = ls })

-- Connect, with the socket that net.Dial gives, `none` for an error.
unfoldable pub connect : Option Conn → ClientState → ClientState × Option QmpFailure
connect none c = disconnected dial_error
connect (some fresh) c = greet fresh.takes_writes fresh.lines

-- A method on a client: the check, and the command on its socket, which a connected client has.
unfoldable pub execute : Command → ClientState → ClientState × Option QmpFailure
execute command c = if not c.connected then (c, some not_connected) else elim (c.conn) [
  | none ↦ (c, some not_connected)
  | some socket ↦
      let (socket', e) = execute_locked command socket in (record c { conn = some socket' }, e)
]

abbrev pub status_of : String → Status
status_of t =
    if str_eq t "running"
    then running
    else if str_eq t "shutdown"
    then shutdown
    else if str_eq t "paused"
    then paused
    else other t

-- executeWithResponse does not look at the error of the reply.
abbrev pub status_reply : Result QmpFailure (Line × QmpResponse) → Result QmpFailure Status
status_reply (err e) = err e
status_reply (ok (l, r)) = elim (l.status_text) [
  | none ↦ err bad_status
  | some t ↦ ok (status_of t)
]

unfoldable pub qmp_query_status : ClientState → ClientState × Result QmpFailure Status
qmp_query_status c = if not c.connected then (c, err not_connected) else elim (c.conn) [
  | none ↦ (c, err not_connected)
  | some socket ↦
      let (socket', reply) = exchange query_status socket in
      (record c { conn = some socket' }, status_reply reply)
]

-- Close leaves the closed socket in place.
unfoldable pub close : ClientState → ClientState
close c = record c { connected = false }
