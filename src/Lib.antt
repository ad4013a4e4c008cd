-- ===== src/Lib.antt =====
-- Verification of qemu-bmc, a BMC for QEMU virtual machines: its IPMI and Redfish sides, the account
-- state that both share, the machine layer under both, and the arguments that QEMU is started with.
--
-- A console talks RMCP over UDP to the LAN server, or QEMU's own IPMI device talks the VM protocol
-- over TCP to the VM server. Both hand a message to one command dispatcher, which works on the BMC
-- state and on the machine; the machine drives QEMU over QMP and a process manager.
--
-- The files, and the code that each is about:
--   Bmc: internal/bmc/state.go. Bmc/State has the types and NewState, Bmc/Slots the searches in the
--     user table, Bmc/Users the IPMI user methods, Bmc/Accounts the account methods, Bmc/Config the
--     LAN and channel settings, Bmc/Invariant the well-formedness of a state.
--   Machine: internal/machine/machine.go. Machine/Host has the Go interfaces that it calls as
--     parameters, Machine/Power the power state, Machine/Reset Reset in its two modes with
--     waitForQMP, Machine/Boot the boot override, Machine/Media virtual media, Machine/Validity the
--     machines that calls of all of these lead to. Machine/Interface makes it the MachineInterface of
--     internal/ipmi/types.go.
--   Ipmi: internal/ipmi. Ipmi/Wire is rmcp.go, Ipmi/Session session.go, Ipmi/RmcpPlus and
--     Ipmi/Padding rmcp_plus.go, Ipmi/Server server.go, Ipmi/VmProtocol vm_protocol.go,
--     Ipmi/VmServer vm_server.go, and Ipmi/App, User, Channel, Lan and Chassis are the handler files
--     of these names. Ipmi/Dispatch is handleIPMICommand, Ipmi/Types the constants.
--   Redfish: internal/redfish. Redfish/Server is the Server struct with its accessors, Redfish/Http the
--     answers of the handlers, Redfish/Middleware middleware.go, and Redfish/Accounts, Bios, Actions,
--     Managers, Systems, Events and Update are the handler files of these names. Redfish/Machine makes
--     the machine of internal/machine the MachineInterface of server.go. Redfish/Update/Tasks is the
--     goroutine that runs an update as a task.
--   Events: internal/events/dispatcher.go. Firmware: internal/firmware/firmware.go;
--     Firmware/Download is the package that an update ends with.
--   Qmp: internal/qmp/client.go, with the lines that the peer sends as a list; Qmp/Interface makes it
--     the qmp.Client of the machine layer.
--   Qemu: internal/qemu/args.go, and internal/qemu/process.go: applyMedia in Qemu/Boot, Start, SetMedia
--     and the monitor goroutine in Qemu/Process.
--   Config: internal/config/config.go; Config/Fallback is what Load makes of a text it cannot read.
--   Base: lists, bytes and Boolean tests that all parts share. Tests: runs on concrete inputs.
--
-- Names are those of the source in snake case. A method that changes its receiver takes the state
-- and returns the new one. A slice of bytes, and a Go string that comes from the wire, is a list of
-- numbers; a mask of low bits is `%`, a right shift is `/`, one bit is `bit_set`, and uint8 and
-- uint32 wrap around by `%` where the source computes in them. A write through a *Session pointer is
-- written back to the session map. Errors are constructors without the texts, which are only
-- logged. `Outcome` also has `panic`, for `key[:16]` on a short key. A mutex makes each method
-- one step; the goroutines' interleaving within a method is not modelled.
--
-- Parameters: Go's HMAC-SHA1, MD5, AES-CBC and crypto/rand are the record `Platform`, with
-- `PlatformLaws` for the sizes of their results and for decryption undoing encryption. The QMP
-- client, the process manager, the clock and the download are the record `Host`, with `ClockLaws`:
-- a sleep takes its time and the clock does not run backwards. Connect of the QMP client may block,
-- `blocks`; the polling is then `blocked`, and a reset that polls has the error `never_returns`,
-- which is no error of the source. The other calls are taken to return. For Redfish: url.Parse, the
-- changes of case, SHA-256 and the formatted time are arguments, the HTTP client of the dispatcher is
-- the record `Network`, that of the updater `Client`. JSON decoding stands outside: a handler gets its request
-- as an option, `none` for a body that is not decoded, and answers with the record of the fields of
-- its document that vary; a path under a collection is a `Link`. For the configuration: os.Getenv and
-- the parsers of numbers and durations.
--
-- Fuel: `poll_qmp` has 302 rounds, since a round sleeps 100 ms and the deadline is at most 30 s away.
-- `handle_connection` takes fuel, of which a round for each byte of input and one more is enough,
-- since each round reads a terminator. The other loops are structural recursion.
--
-- Not modelled: the route table, static resources and the JSON encoding of the Redfish server,
-- the noVNC proxy, the signals that Stop and Kill send to QEMU, sockets and
-- listeners, which are I/O or library calls or stand outside this library so far. The BMC state is
-- never nil, as in cmd/qemu-bmc/main.go.
pub mod Base
pub mod Bmc
pub mod Machine
pub mod Ipmi
pub mod Qemu
pub mod Redfish
pub mod Events
pub mod Firmware
pub mod Qmp
pub mod Config
pub mod Tests
