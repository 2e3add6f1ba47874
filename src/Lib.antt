-- ===== src/Lib.antt =====
-- Hawal: the control panel of a set of tunnels, in Python.
--
-- The panel (app/) keeps nodes and tunnels in a SQLite file. Its HTTP server answers the dashboard,
-- which creates and changes them, and the agents of the nodes, which send a heartbeat and fetch what
-- they have to run. A tunnel runs on two nodes, and one of four cores carries it: Hawal, Backhaul,
-- Paqet or GOST. The modules follow the files of the program:
--
--   Db          app/db.py. The record `Db` holds the rows of the four tables; Db/Nodes, Db/Tunnels,
--               Db/Logs and Db/Pings have one function for each function of the file, under its name.
--               A function that can raise returns a `Result`; its caller rolls back. Db/Valid has the
--               invariant of the tables, Db/Ops the writing functions as steps and Db/Ops/Reach their
--               runs.
--   Settings    app/config.py: the defaults, the settings file and the merge on loading.
--   Backhaul    app/backhaul.py: the check of a tunnel's port and the texts of the Backhaul core.
--               Backhaul/Clash has the predicate that no two tunnels share a port on a node.
--   Engine      The other cores: Engine/Gost (app/gost_engine.py), Engine/Paqet (app/paqet_engine.py),
--               Engine/Core (app/hawal_engine.py); Engine/Ports has the ports that app/server.py reads
--               from the rules of a tunnel.
--   Geoip       app/geoip.py with its cache.
--   Ping        `run_ping` of app/ping_tool.py, from the end of the process to the result; Ping/Loss has
--               which number it takes for the loss.
--   Item        One entry of the answer to a sync.
--   Server      app/server.py. `World` holds the database, the cache, the settings file, the replies
--               and the events for the dashboards; a handler is an action on it, which keeps what it
--               wrote before an exception. Server/Nodes, Tunnels, Logs, Settings, Agents, Sync and
--               Files have one function for each route; Server/Route has `route_request`, its tests
--               of method and path in Server/Route/Dispatch. Server/Client is `handle_client`, which
--               reads a request off its connection; Server/Client/Limits has what it lets through and
--               Server/Client/Named which header lines count. Server/Collector is one pass of the
--               background task, Server/Frames the frames of the dashboard's WebSocket, Server/Dashboards
--               the set of connected dashboards and what is written to each. Server/Panel
--               has the server at work: connections and the turns of the background task as the steps
--               of a relation, with what holds in all its runs (Safety, Calm), its turns alone
--               (Pass), and what a disturbance costs (Lost). Server/Keeps
--               has the rules by which an action keeps a property of the database; Server/Route/Kept,
--               Created and Walk apply them to each handler, and Server/Route/Safety draws the
--               conclusions.
--   Agent       app/static/js/agent.py, the agent that the installer fetches. `Host` holds what its
--               machine answers. Agent/Running stops and starts processes, Agent/Apply brings them in
--               line with the panel's list, Agent/Firewall has the rules of Paqet servers, Agent/Nonce
--               the restarts of the agent itself, Agent/Counters the reading of the byte counters,
--               Agent/Traffic their reports, Agent/Reports the log reports, Agent/Run the daemon's loop
--               and its end, Agent/Binaries the installation of the cores, Agent/Machine what is read of
--               the routes and the memory, Agent/Start the settings the agent starts with.
--               Agent/Apply/Laws has what a round keeps, Agent/Apply/Settled and Round
--               what it achieves where the machine works. Agent/Old is the older agent,
--               agent/agent.py, with Agent/Old/Simulated and Rounds, which compare it with the newer
--               one; what the two files share is modelled once, from the newer one.
--   Fleet       The panel and the agent of one node together: what the panel tells the agent
--               (Fleet/Told), what the agent then runs (Fleet/Runs), how a restart that is requested
--               on the panel gets through (Fleet/Restart), and the way of the logs (Fleet/Logs).
--   Text, Base  What the code uses of Python: texts, `str` and `int`, lists, integers, tables.
--   Tests       Runs at concrete inputs.
--
-- Python's integers have no bound, and the model's have none; what SQLite does with one beyond 64
-- bits is in Db/Sqlite: a parameter raises, and a sum of counters becomes a double. Times are
-- microseconds and percentages tenths, as numbers. Loops are recursions on their lists; the
-- printing of a number recurs on fuel above the number, which is enough since a round divides it by
-- ten, the rounding of a double on the number itself, which is enough since a round halves it, and
-- the removal of an iptables rule on the number of rules, which is enough since a round removes
-- one. The loops that never end of themselves, the collector's and the daemon's, are runs of steps
-- and recursions on what the outside does, of any length. A request is one step, though its handler
-- may wait in the middle; a text stands for bytes, one character for each. Random tokens, the
-- clock, the answers of ip-api.com, what ping prints, copies and downloads, and the contents of
-- files are arguments of the definitions.
--
-- Not modelled: the event loop and the sockets, the bytes of replies, `run_tcp_ping`, which nothing
-- calls, and the probes behind /test; the patterns for the agent's addresses, the processor's load
-- and the uptime, which is a float; the agent's writes of files that fail; bodies of requests with
-- values of other types than the routes expect, nulls among them but for those of a tunnel; the
-- masks of the frames that the server reads and throws away; the start of the panel; the core in
-- Go, the dashboard's page and script, and the installation scripts.
pub mod Base
pub mod Text
pub mod Db
pub mod Backhaul
pub mod Engine
pub mod Fleet
pub mod Geoip
pub mod Settings
pub mod Item
pub mod Ping
pub mod Server
pub mod Agent
pub mod Tests
