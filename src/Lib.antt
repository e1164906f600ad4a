-- ===== src/Lib.antt =====
-- vNet is a virtual network: agents connect to switches, a conductor assigns agents to switches.
-- This library models the parts of the program that decide, keep state and move bytes.
--
-- The packet engine of a switch (src/blackbox, include/vnet/blackbox) decides what happens to each
-- IPv4 packet. BlackBox.Engine is `BlackBox` of blackbox.cpp: `process` for packets from agents,
-- from other switches and from the internet device, and the hooks of the control plane. It uses
--   BlackBox.Ipv4: `ipv4_parse` of ipv4.cpp;
--   BlackBox.AgentRegistry: `AgentRegistry` of agent_registry.cpp, whose entries stand on a heap of
--   addresses and whose three indices hold addresses;
--   BlackBox.RoutingTable: `RoutingTable` of routing_table.cpp;
--   BlackBox.Config: `Config` of config.cpp, with the text side of `load` in Config.Lexer.
-- Protocol.Header is the packet header of src/protocol/header.cpp and types.cpp, Protocol.Dispatch
-- the choice of the virtual method in src/protocol/dispatch.cpp, Protocol.Mip the messages of
-- proto/mip.proto.
--
-- The event queue (src/netqueue) moves packets over non-blocking descriptors. NetQueue.Element is
-- one descriptor with its buffers, NetQueue.Process the loop `NetQueue::process` that reads a
-- descriptor and calls the handlers, NetQueue.Write the functions `send`, `send_heartbeat` and
-- `flush_write_buffer`; NetQueue.Transfer puts both ends together. NetQueue.Kernel and the scripts
-- of NetQueue.Write stand for the operating system: what `read` and `write` return next is any
-- script.
--
-- NetQueue.Queue is the table of descriptors with `put`, `close` and the destructor.
-- NetQueue.Queue.Send are the functions that send, by descriptor: each looks its element up in the
-- table and calls NetQueue.Write on it. NetQueue.Queue.Turn is `wait_and_process`, which calls
-- NetQueue.Process and `flush_write_buffer` on the elements of that table and the handlers of a
-- program. NetQueue.Process.Relate and NetQueue.Process.Follow compare the loop of one descriptor
-- under two handlers, and NetQueue.Queue.Turn.Keep is about handlers that leave the table alone.
--
-- The programs. Switch is the state and the handlers of src/switch/setup.cpp, Switch.Run its event
-- loop as a sequence of steps, Switch.Join what `main` does before the loop, and Switch.Program the
-- handlers on the event queue, with the calls of the queue performed on its table. Conductor is the
-- state and the handlers of src/conductor/setup.cpp, Conductor.Run its event loop as a sequence of
-- steps, Conductor.Pick its choice of a switch, Conductor.Announce what an agent and its switch are to
-- be told, Conductor.Dump the contents of its state file, and Conductor.Program the handlers on the
-- event queue. Agent is src/agent/setup.cpp: the calls up to
-- the event loop with their early returns, and the handlers; Agent.Program is its event loop on the
-- event queue. Sockets is src/common/socket_utils.cpp, with which the programs move whole packets
-- over one socket, and Sockets.Connect what agent and switch do alike to connect. Handshake puts
-- conductor, agent and switch together, Handshake.Register a switch and the conductor.
--
-- How the code is modelled. `Option` is the result of code that may fault: `none` is undefined
-- behaviour, such as a use of a deleted object or a write past an array. An object on the heap is
-- an address in an association list, an `unordered_map` is an association list (Base.Map), a
-- `vector` of pointers a list of addresses (Base.Pointers). Integers are natural numbers, reduced
-- modulo 2 ^ w where the code does so; descriptors are integers with a sign. The byte order of the
-- host and `htons` and its like are an interface (Host.ByteOrder) with a big-endian and a
-- little-endian instance. `new` gives the address that the caller names, or none. `inet_pton` and
-- `inet_ntop` are parameters, and so are the coders of the protobuf messages, the random tokens, the
-- clock, and what `connect`, `getpeername` and `epoll_wait` give.
--
-- Fuel. `NetQueue.Process.process` models `while (1)` on fuel and tells a loop that is unfinished
-- from one that has ended; four rounds for a byte of the input and two more are enough for
-- a stream of frames. `wait_and_process` hands that fuel on. `read_protobuf_packet` has fuel for the
-- packets it reads in its loop over heartbeats: one more than there are heartbeats is enough. No
-- other function is on fuel: the loops that read or write use up one entry of their script in each
-- turn, or wait when it has ended.
--
-- Not modelled: logging and the writing of the conductor's state file; the mutex of the event
-- queue, as each program runs one thread; the system's bookkeeping of `epoll_ctl`, of which only the
-- results are seen; the command lines, environment variables, signals and socket options of the
-- main functions, and the conductor's listening socket. In Switch and Conductor a handler's call of
-- the queue is a value; Switch.Program, Conductor.Program and Agent.Program perform these calls.
pub mod Base
pub mod Host
pub mod BlackBox
pub mod Protocol
pub mod NetQueue
pub mod Switch
pub mod Sockets
pub mod Conductor
pub mod Agent
pub mod Handshake
