-- ===== src/Lib.antt =====
-- The sara server: a node accepts clients over TCP and websockets, reads packets (JSON texts that
-- end with the byte 1), opens a session for the client that logs in, routes packets between the
-- sessions of all nodes, and keeps in Redis which sessions exist and which messages wait.
--
-- The parts and their files:
-- - Common: what the modules share. Bytes and strings are lists of numbers; Go's maps are
--   association lists; a step of the program is a function on a state that returns or panics
--   (`Exec`), with the changes that were made before a panic kept.
-- - Jid, Packet: core/types/packet.go and core/types/defines.go. `new_jid` is `NewJID`,
--   `new_packet` is `NewPacket`, and so on. Jid.Parse and Jid.Keys hold the lemmas on addresses.
-- - Decoder: core/decoder.go. Decoder.Pieces has `frames`, the framing byte by byte that the
--   decoder is compared with in Decoder.Frames; Decoder.Stream does the same for a stream in chunks.
-- - Conn: core/conn_tcp.go and core/conn_ws.go, the read loops and what is written. Conn.Buffer is
--   about the size of the read buffer, Conn.Stream about packets on the wire. Conn.Socket and
--   Conn.Websocket have the connections with their sockets, which are parameters, and the counters
--   of core/measure.go.
-- - Cache: core/cache.go.
-- - Redis, Database: saradb/interface.go and saradb/database.go. Redis is a parameter. The two write
--   channels are lists in the state; Database.Worker has the goroutines that empty them, as steps at
--   events, and `Close`. Database.Writes, Database.Shutdown and Database.Sessions hold the theorems.
--   Database.Consumers has the workers of a channel side by side, each of which takes a write and
--   then makes it, as a step relation: its module Order is about what they make, each once,
--   Progress about their end, Survival about a deletion that is overtaken. Database.Opening has
--   what opens a database, Database.Channel the channel over Redis of saradb/channel.go.
-- - Session: core/session.go, with `Route` and the queue of node/router.go. Session.State has the
--   state and the parameter `Env` for what a session uses of libraries and services, and for the order in which Go
--   ranges over the packets of a buffer; `with_services`
--   of Session.Services gives it the services of external/. Session.Group,
--   .Actions, .Login and .Handler have the methods. Session.Progress (the status as a state machine),
--   .Opened, .Delivery, .Members and .Payload hold the theorems, .Forwarding what becomes of a chat
--   packet up to the queue, .Offline the messages of a client that was away, .Unacknowledged and
--   .Relogin the end of a session with the database of saradb/, and .Stays, .Authorized,
--   .Entry and .Services what it takes to be logged in. Session.Wire joins a session with the read
--   loop of its connection, over Session.Blind, by which a session does not see its read deadline.
--   Session.Socket is the loop on a socket that the session closes. Session.Kept is about the packets
--   that a client does not acknowledge, Session.Authentic about whose packets a session sends.
-- - Node: node/sessionmap.go, the workers of node/router.go, and of node/node.go what comes from
--   other nodes, the cleaning and the start in the store. Node.Sessions and Node.Routing hold the
--   theorems; Node.Chat joins the session of a sender, the router and the session of a recipient;
--   Node.Remote joins the RPC server, the data channel and a session, and says what becomes of a
--   packet for another node; Node.Workers has the workers of the router side by side, as a step
--   relation; Node.Stop closes the sessions at the end of `Wait`. Node.Lifecycle has
--   the accepting loops and `Wait` as a step relation, from the connection to the end of its session:
--   its module Accounts says where a connection can be, Closing which sessions a stop closes, and
--   Races what the order of the last steps allows.
-- - Config: config/config.go. Config.Load has the theorems on the file, Config.Context the settings
--   of the command line, Config.Template the file that the program writes.
-- - Flags: utils/flags.go, with the command of main.go that starts the benchmark.
-- - Http: utils/httpclient.go, over a parameter for the HTTP library; Clock: utils/dateutils.go.
-- - External: external/, the calls of the callback service; JSON is the parameter `Web`.
--   External.Answers says when a client is let in.
-- - Service: service/emsg_service.go and the test of the token in service/server.go, with the theorems
--   in Service.Calls; Service.Registry has service/registry.go and what `StartRPC` starts.
-- - Rpc: sararpc/, the messages from node to node; Thrift is a parameter. Rpc.Clients is about the
--   pool of clients and the data channel of a node, Rpc.Server about the server that other nodes call
--   and the loop that reads the channel.
-- - Start: the command of main.go that runs the server, with `New` and the listeners of node/node.go,
--   as a trace of actions; the machine's answers are the parameter `Machine`. Start.Emits and
--   Start.Order have what the steps of a start do, Start.FromFile a start from a configuration file,
--   Start.Missing one with no database.
-- - Commands: what else main.go does: the file with the process id, the commands that send signals,
--   the handling of signals and the profiles, over the record `Host`, and the command that writes the
--   configuration file of Config.Template. Commands.Pid, .Signals and .Setup hold the theorems,
--   Commands.App the table of commands.
-- The modules named Tests apply the theorems at concrete inputs: a Redis with texts and hashes
-- (Database.Tests), a node with a registered client and a group (Session.Tests, Session.EndTests,
-- Node.RemoteTests).
--
-- A session takes the database by its interface, the record `Database`; `sara_database` is the
-- implementation. Loops follow lists (pieces of a chunk, reads of a
-- connection, packets of a read, events of a worker), but for the loops of Conn.Socket and
-- Conn.Websocket, which do at most a given number of rounds: one for each chunk and one more are
-- enough. Numbers are natural numbers, but
-- for settings and for what Redis counts, which are integers; subtractions are in the buffer size,
-- which never falls below 0, in the count of workers, and in the length of a node's entry, behind a
-- test. Go's `int` is wide enough for the sizes here, so it does not wrap around.
--
-- Sessions, workers and the router run at the same time in the program. Here one method call is one
-- step, and what other goroutines do in between is an event of a worker, or a change of the shared
-- state between steps; locks and channel capacities of the database are left out.
--
-- Not modelled: the sockets of node/node.go, sararpc/ and service/, the choice of a command by
-- urfave/cli and the clock, which are calls of libraries; benchmark/, a load generator; what is
-- commented out in the source; logging, but for the writer of a log file that cannot be opened, in Start.
mod Common
pub mod Jid
pub mod Packet
pub mod Decoder
pub mod Conn
pub mod Cache
pub mod Redis
pub mod Database
pub mod Session
pub mod Config
pub mod Node
pub mod Http
pub mod Clock
pub mod External
pub mod Service
pub mod Rpc
pub mod Start
pub mod Flags
pub mod Commands
