-- ===== src/Lib.antt =====
-- Midscale, a control plane for a WireGuard mesh: a backend that plans who connects to whom and keeps
-- the sessions of NAT traversal and relaying, a relay server, and a daemon on each node.
--
-- The parts and the files that model them:
--   Endpoints     backend/app/models/endpoint.py: the rows of `device_endpoints`, which
--                 Scoring, Topology and Traversal share.
--   Scoring       backend/app/services/endpoint_scoring.py: `compute_endpoint_score`,
--                 `select_best_endpoint`, `sort_endpoint_candidates`.
--   Topology      backend/app/services/topology.py: the pure types, `_best_endpoint`, and one module
--                 for the `generate_plan` of each generator (Star, Mesh, Hybrid).
--   Relay         backend/app/services/relay.py: the table `relay_sessions` with its gauge and
--                 counters as a record World, one function per method; Relay/Run makes requests of
--                 them.
--   Frames        the byte framing of backend/app/services/relay_server.py, which
--                 midscaled/daemon/relay_client.py shares: `_send_message`, `data_received`.
--   RelayServer   backend/app/services/relay_server.py: the registry of RelayServer, and in
--                 RelayServer/Protocol the handlers of RelayProtocol; RelayServer/Watch has the steps
--                 that the server can take.
--   Traversal     backend/app/services/nat.py: sessions, candidate pairs, the promotion of an
--                 endpoint (Promote), the result of a punch and the validation of a path (Sessions,
--                 Results).
--   WgAdapter     backend/app/services/wg_models.py and the mock adapter of
--                 backend/app/services/wg_adapter.py behind the interface `Adapter`.
--   Controller    backend/app/services/wg_controller.py: `_compute_peer_diff`, the desired peers and
--                 the clean-up; Controller/Reconcile has `_reconcile_interface` on any adapter.
--   RateLimiter   backend/app/services/rate_limiter.py: the limiter in memory.
--   Acl           backend/app/services/acl.py: `check_device_access`.
--   WsManager     backend/app/services/ws_manager.py: the registry of WebSockets.
--   Ipam          backend/app/services/ipam.py: the allocation of addresses.
--   Stun          backend/app/services/stun_server.py and midscaled/daemon/stun_client.py: the server's
--                 handler and the client's request and parser on bytes; Stun/Packing has `struct`.
--   Api           the handlers that write: backend/app/api/deps.py and backend/app/core/security.py
--                 (Auth), backend/app/api/v1/routes.py (Routes) and
--                 backend/app/services/route_validation.py (Prefix), backend/app/api/v1/devices.py
--                 (Devices, Admission), and the rows of backend/app/models/ that they share. RouteRequests
--                 and DeviceRequests put the handlers in sequence.
--   Config        backend/app/services/network_state.py, and in Config/Build `build_config_v2` of
--                 backend/app/services/wireguard.py with the schemas of Config/Answer.
--   Daemon        backend/app/services/daemon.py: heartbeats, endpoint reports, probe results.
--   WgRuntime     midscaled/daemon/wg_runtime.py: the commands that an application of a configuration
--                 starts, in order, up to one that raises.
--   Node          midscaled/daemon/reconciler.py with the cache of midscaled/daemon/state_store.py;
--                 Node/Puncher has midscaled/daemon/hole_puncher.py.
--   Events        the event types and the log of what has been published.
--   Prelude       lists, tests, integers, dictionaries and the stable sort that the parts share.
--
-- How they interact: Topology and Traversal choose endpoints with Scoring. A failed punch of Traversal
-- makes a session of Relay and admits its token to RelayServer. Controller works on any `Adapter`, of
-- which the mock is one. Relay, Traversal and Controller publish on the event bus, which is the list of
-- events in their World. Config builds the state of a network from the tables of Api, plans with
-- Topology and marks candidates with Scoring. Api/Admission takes addresses from Ipam, and a revocation
-- of Api/Devices builds a configuration. Node reads the answer that Config/Build makes
-- and applies it through WgRuntime. The table of
-- endpoints is shared by Config, Daemon and Traversal.
--
-- Conventions. A table is the list of its rows, a UUID is a number, a time is a number of whole
-- seconds and an argument. A method returns its result with the new World; what it leaves unwritten
-- when it raises is said where it can raise. Numbers that may be negative are ℤ of Prelude/Int.
-- Python's `sorted` is a stable insertion sort. A handler of Api and Daemon answers, refuses with a
-- status, or crashes; the last two leave the tables as they were, since the session is rolled back.
-- Fuel occurs twice: in `Frames.drain` with the length of the buffer, where each round takes at least
-- the four bytes of a header, and in `Stun.scan` with the announced length and one more, where each
-- round takes at least the four bytes of an attribute's header. That many rounds are enough.
--
-- Not modelled: HTTP, WebSocket and socket I/O, the ORM's queries beyond the rows that they select,
-- Redis, subprocess calls, key material, JWT and user sessions, rendering of texts, timers and
-- background loops, the frontend. Concurrent requests are sequences of whole method calls. The JSON
-- library, the decoder of texts, ipaddress (the hosts of a subnet, packed addresses, networks and
-- their overlap), password hashing, the texts of numbers and of UUIDs, the random shuffle, the hash
-- of a configuration, the parser of INI texts, what `wg` and `ip` do and list and which of them
-- raises, for Traversal `build_config_v2`, and what the ORM does with a write into a JSON dict are
-- arguments of the definitions that use them.
pub mod Prelude
pub mod Events
pub mod Relay
pub mod Endpoints
pub mod Scoring
pub mod Topology
pub mod Frames
pub mod RelayServer
pub mod Traversal
pub mod WgAdapter
pub mod Controller
pub mod RateLimiter
pub mod Acl
pub mod Stun
pub mod Api
pub mod Config
pub mod Daemon
pub mod WgRuntime
pub mod Node
pub mod WsManager
pub mod Ipam
