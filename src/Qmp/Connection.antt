-- ===== src/Qmp/Connection.antt =====
-- The life of a connection: a client that says it is connected has a socket to write to.
use qemu_bmc.Base.{
  ◌≡◌, ◌≢◌, Bool, true, List, [], ◌∷◌, Option, none, some, Bool-cases, Option-cases, inl, inr,
}
use qemu_bmc.Qmp.{
  Line, Command, Conn, ClientState, execute_locked, negotiate, qmp_capabilities, greet, connect,
  execute, qmp_query_status, close,
}

-- The calls on a client.
pub data QmpCall : Type 0 where
  dial : Option Conn → QmpCall
  send : Command → QmpCall
  ask_status hang_up : QmpCall

unfoldable pub call : QmpCall → ClientState → ClientState
call (dial socket) c = (connect socket c).0
call (send command) c = (execute command c).0
call ask_status c = (qmp_query_status c).0
call hang_up c = close c

unfoldable pub calls : List QmpCall → ClientState → ClientState
calls [] c = c
calls (x ∷ xs) c = calls xs (call x c)

pub HasSocket : ClientState → Type 0
HasSocket c = c.connected ≡ true → c.conn ≢ none

negotiate-HasSocket : (c : Conn) → HasSocket (negotiate c).0
unfolding HasSocket negotiate
negotiate-HasSocket c = elim (Option-cases (execute_locked qmp_capabilities c).1) [
  | inl good ↦ rw (negotiate, good) (λ on p. cc)
  | inr (x, bad) ↦ rw (negotiate, bad) (λ on p. cc)
]

greet-HasSocket : (writes : Bool) (ls : List Line) → HasSocket (greet writes ls).0
unfolding HasSocket greet
greet-HasSocket writes [] = λ on p. cc
greet-HasSocket writes (l ∷ ls) = elim (Bool-cases l.is_greeting) [
  | inl yes_greeting ↦ rw (greet, yes_greeting) (negotiate-HasSocket _)
  | inr none_such ↦ rw (greet, none_such) (λ on p. cc)
]

call-HasSocket : (x : QmpCall) (c : ClientState) → HasSocket c → HasSocket (call x c)
unfolding HasSocket call connect execute qmp_query_status close
call-HasSocket (dial none) c h = λ on p. cc
call-HasSocket (dial (some fresh)) c h = greet-HasSocket fresh.takes_writes fresh.lines
call-HasSocket (send command) c h = elim (Bool-cases c.connected) [
  | inr off ↦ rw (call, execute, off) (λ on p. cc)
  | inl on ↦ elim (Option-cases c.conn) [
    | inl missing ↦ absurd (h on missing)
    | inr (socket, e) ↦ rw (call, execute, on, e) (λ still p. cc)
  ]
]
call-HasSocket ask_status c h = elim (Bool-cases c.connected) [
  | inr off ↦ rw (call, qmp_query_status, off) (λ on p. cc)
  | inl on ↦ elim (Option-cases c.conn) [
    | inl missing ↦ absurd (h on missing)
    | inr (socket, e) ↦ rw (call, qmp_query_status, on, e) (λ still p. cc)
  ]
]
call-HasSocket hang_up c h = λ on p. cc

-- A client that has a socket whenever it says it is connected, as a new one does, stays one,
-- whatever is called on it and whatever the peer sends: no command reaches a nil connection.
pub calls-HasSocket : (xs : List QmpCall) (c : ClientState) → HasSocket c → HasSocket (calls xs c)
unfolding calls
calls-HasSocket [] c h = h
calls-HasSocket (x ∷ xs) c h = calls-HasSocket xs (call x c) (call-HasSocket x c h)
