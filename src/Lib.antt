-- ===== src/Lib.antt =====
-- GRIMOIRE is a distributed game server: clients hold a TCP connection (and may send datagrams) to a
-- gateway, the gateway forwards requests to one of three game services over a bridge and delivers their
-- pushes, and a registry tells which nodes run a service. This library models the server's own logic and
-- proves what makes it correct; the theorems that name a bug state what the code does instead.
--
-- The files and what they model (paths from the repository's root):
--   Prelude and its parts: lists, maps, texts, and handlers that may panic (no code of the repository).
--   Common: crates/grimoire-common/src/lib.rs, message numbers and connection numbers.
--   Net: crates/grimoire-net/src/lib.rs, `encode`, `FrameCodec::decode` (decode) and the datagrams
--     (Net/Udp: peer_packet, parse_peer_packet, push_datagram, parse_push_datagram).
--   Bridge: proto/messages.proto, what a gateway and a service exchange.
--   Registry: crates/grimoire-registry/src/memory_backend.rs and the handlers of main.rs over it.
--     Registry/Etcd is etcd_backend.rs (register, heartbeat, discover, unregister; keeper is one turn of
--     `spawn_keeper`), Registry/Handlers the handlers over whichever backend was chosen.
--     Registry/Ownership, Registering, Renewing and Places have what the calls leave of both tables,
--     Registry/Listing, Agreement, Discovery, Time and Backends the two backends against each other (a
--     lease that runs out is the store's `lapse`, the sweeper's round is `sweep`), and
--     Registry/Store is a store in memory that keeps the laws of the etcd client.
--   Card: crates/grimoire-card-svc/src/main.rs. Card has the game, Card/Service the state and `start`,
--     Card/Play the moves, the query and `leave`, Card/Bridge `process` and the bridge's handlers.
--   Battle: crates/grimoire-battle-svc/src/main.rs. Battle has one battle and its frames, Battle/Service
--     the state, `join`, `input` (app_input), `resync` (app_resync), `leave` and `tick`, Battle/Bridge
--     `process`.
--     Battle/History runs a battle through joining, leaving, inputs and ticks.
--   Room: crates/grimoire-room-svc/src/main.rs. Room has the state, Room/Service `login`, the rooms and the
--     grace period, Room/Bridge `process` and what a connection's coming and going does.
--   Gateway: crates/grimoire-gateway/src/session.rs, with `route_push` and `kick` of main.rs. Gateway has
--     sessions and pushes, Gateway/Serving a connection's life and the frames that the gateway answers;
--     Gateway/Streams is stream.rs, the requests that wait for a reply (`pending`) among it;
--     Gateway/Forwarding `try_matchmake`, `session_target_node`, `invalidate_session` and the steps of
--     `forward_request`, Gateway/Requests the whole of it and its end (start_request, finish_request,
--     fail_request), `handle_udp_datagram`, `forward_udp` and `notify_disconnected` (notify_service).
--     Gateway/Kcp is kcp.rs with `handle_kcp_datagram` and the choice of a datagram's channel in main.rs.
--   Discovery: crates/grimoire-gateway/src/discovery.rs. Discovery/Ring has FNV-1a and `ConsistentHash`
--     (build, pick), Discovery the cache, `resolve`, `resolve_by_node_id` and `channel_for`;
--     Discovery/Owner says, without a ring, which node owns a key, and Discovery/Standard is a sort and a
--     search that keep the promises which the ring relies on.
--   Svcfw: crates/grimoire-svcfw/src. Svcfw/Pusher is pusher.rs, Svcfw/Registration reg.rs,
--     Svcfw/Profiles profile.rs and Svcfw/Directory session_dir.rs; Svcfw/Memory and Svcfw/Cells have
--     databases in memory that keep the interfaces' laws.
--   Sim: crates/grimoire-sim/src/client.rs, the client that the tests use. Sim/Client is `Client`, whose
--     `request` is start_request up to its wait and finish_request after it; Sim/Client/Datagrams has the
--     packets of UdpBattle and UdpKcp; Sim/Agreement runs the client against the gateway.
--
-- How the code is read. A handler is a function of the service's state to an outcome (a value or a
-- panic) and the state after it; what was written before a panic stays written. Pushes, datagrams and
-- calls of the session directory and of the profile store, whose results the code ignores, are appended
-- to a list in the state. Handlers run one after another; where the code releases its locks between
-- two steps that belong together, the steps are functions of their own, and the files named Race run
-- other requests between them. A concurrent map is a function from its keys, or a list of entries where
-- its order shows; where the code iterates over a map, or shuffles, the order is an argument. Time is an
-- argument. Tasks that wait for a time are a list in the state (Room) or the step that they end in. A
-- session of the gateway is shared by several tables, so the tables hold references to a store.
--
-- Numbers are naturals; the counters and the fields of a fixed width wrap as the code's do (`% 2 ^ w`),
-- and the theorems say which counters have not run out. Single-precision numbers are an interface
-- (Float32), since no theorem here depends on how they round. Loops are recursion on the list that they
-- go through, so there is no fuel, except that the loop which empties a KCP session (drain) has one round
-- more than the session has messages queued, which is as many as the loop can take; numerals are printed with at most ten decimal or eight hexadecimal
-- digits, which is what 32 bits need.
--
-- Arguments that stand for code outside the repository: the protobuf coding of payloads (Codec), the
-- profile store's answers (ProfileStore, over its type of 64-bit integers), `String::from_utf8_lossy`,
-- whether a socket's task or a KCP session takes a packet, and the standard library's unstable sort and
-- binary search (Slices, with what their documentation promises; the choice among equal points is free).
-- The clients of Postgres and Redis, the JSON coding and 64-bit integers are interfaces with laws
-- (Postgres, Redis, Json, Integers of Svcfw/Profiles, Server of Svcfw/Directory), and so are the client
-- of etcd and its JSON coding (Client, Json of Registry/Etcd) and the KCP library (Kcp of Gateway/Kcp).
-- What the registry, the
-- session directory, the clock and the network answer during a call of the gateway or of a pusher are
-- arguments as well (World, Outside, Network): a request is modelled up to its wait for the reply and
-- from there on, and other requests and replies come in between.
--
-- Not modelled: command lines, listeners and start-up of the processes; TLS; the settings of KCP
-- sessions; the connecting of the clients of databases, etcd and services; the generated protocol code
-- (crates/grimoire-pb); of the test client its sockets, its KCP task and the scenarios of its main.rs,
-- which measure and print.
pub mod Prelude
pub mod Common
pub mod Net
pub mod Bridge
pub mod Registry
pub mod Card
pub mod Battle
pub mod Room
pub mod Discovery
pub mod Gateway
pub mod Svcfw
pub mod Sim
