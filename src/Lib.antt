-- ===== src/Lib.antt =====
-- A model of the native PipeWire client: the wire framing, the client-node session, identifiers,
-- POD values.
--
-- The program sends and receives protocol messages in frames over a Unix stream socket
-- (protocol/src/native/frame), with file descriptors as ancillary data. A node that takes part in
-- the audio graph (node/src/session) imports shared memory by the descriptors that arrive, checks
-- and maps parts of it, and then runs cycles: another participant triggers the node's activation
-- record, the node claims the cycle, its application fills the output buffer that the shared IO
-- record names, the buffer is published, the activation is finished, and the downstream peers are
-- triggered. The client library (pipewire/src) keeps its objects by small identifiers.
-- Parameters and formats travel as PODs (spa/src/pod). The owner of a session applies the server's
-- commands, binds what they describe when its memory has arrived, and runs the cycles.
--
-- Files:
--   Prelude: names of the libraries, tests and lists over the native numbers, `Result`, the bounds
--     of the machine's integers, signed integers.
--   Frame/Limits, Frame/Header, Frame/Fds: frame/mod.rs and frame/header.rs.
--   Frame/Send: frame/send.rs. `flush` takes the list of the kernel's answers to its `sendmsg`
--     calls; `accepts n` takes the first n bytes offered, or all if they are fewer.
--   Frame/Recv: frame/recv.rs. `receive` takes the list of the `recv_once` calls that it makes,
--     each a function of its two sizes. The contract of a stream socket, `IsHonest`, is that no
--     more bytes arrive than were asked for, that they are bytes, and that descriptors arrive with
--     at least one byte. An end of the stream that brings descriptors, against which the source has
--     a debug assertion, drops them.
--   Frame/Control: the parser of ancillary data in frame/recv.rs; a read outside its buffer and the
--     end of the fuel, one round for each byte and one more, are results that do not occur.
--     Frame/Control/Message: the message that `send_once` of frame/send.rs lays out for it.
--   Session/Activation: node/src/session/activation.rs; the record's fields stand for the bytes at
--     their ABI offsets. An operation maps the record as it is found to the record as it is left.
--     Foreign changes between a read and a compare-and-swap are functions on the record.
--     Session/Activation/Atomic: the same operations in their single accesses, which any number of
--     participants can interleave.
--   Session/Transport, Session/Peer: node/src/session/transport.rs and peer.rs, the operations that
--     run in a cycle.
--   Session/Owner: node/src/session/owner.rs and the descriptors of config.rs. A step takes the
--     session and returns it with a result, whether it succeeds or fails. Bind holds the bindings of
--     transport.rs, peer.rs and output.rs, Effect the owner's private operations, Install the
--     bindings that it makes and tries again, Apply its commands, Wake its wakes, NodeMap the maps by node. Invariant, Reachable and Settled hold what keeps.
--     `World` and `Surroundings` are what a session meets: the kernel, the contents of shared
--     records, eventfds, the callback and the clock.
--   Session/Shm: node/src/shm/memfd.rs; the system calls are a record of functions, `Kernel`.
--   Session/Memory: node/src/session/memory/mod.rs; the hash map is an association list. An `Arc`
--     of an entry is the entry, which never changes.
--   Session/Port: node/src/session/port/mod.rs.
--   Session/Cycle: node/src/session/cycle.rs, and the cycle in node/src/session/output.rs.
--   IdMap: pipewire/src/id_map.rs.
--   Pod: spa/src/pod/mod.rs and types.rs. A buffer is the list of its bytes; `encode` returns it as
--     it is left. Text stands for strings and byte arrays, with `String::from_utf8_lossy` as a
--     parameter; a float is its bits.
--   The modules called Examples hold concrete runs.
--
-- Conventions: a file descriptor is its number, an address is a number, a Rust panic is a result of
-- its own. Unsigned integers are natural numbers with the wrap-around or the check written out; a
-- subtraction that stops at 0 stands only where the invariant or a guard keeps it exact. The target
-- is x86_64-unknown-linux-gnu, little-endian, with 64-bit `usize`. A disjunction of numbers without
-- a common bit is their sum.
--
-- Loops over the socket recurse on the list of the kernel's answers; the results on termination
-- say how many answers are enough. The loop of compare-and-swaps recurses on the list of foreign
-- changes. Limits below `usize::MAX` are a hypothesis where the source adds with saturation, since
-- a limit of that value is never exceeded.
--
-- Not modelled: the calls of the socket (`recv_once`, `send_once`), media bytes, the translation of
-- wire events into session commands, the runtime's task around the session owner, an output
-- publication that is aborted after the finish clock panics, the deactivation of a transport's
-- candidate that is dropped because its mapping overlaps or the old one does not stop (a foreign
-- write of the model does the same to its record), the POD structs and objects with their
-- builder and parser, PODs that are optional, raw or pointers, the marshalling of the client
-- library, the test server and the tools around them.
pub mod Prelude
pub mod Frame
pub mod Session
pub mod IdMap
pub mod Pod
