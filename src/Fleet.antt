-- ===== src/Fleet.antt =====
-- The panel and the agent of one node together: what `GET /api/agent/sync` of app/server.py tells
-- the agent of app/static/js/agent.py, and what the agent then runs.
pub mod Told
pub mod Runs
pub mod Restart
pub mod Logs
use hawal.Base.{String, Bool, false, ◌&&◌, ◌||◌, Option, none, some}
use hawal.Base.Eq.{◌==◌, string_eq}
use hawal.Base.Dict.{lookup}
use hawal.Db.{Db, Tunnel}
use hawal.Db.Tunnels.{list_tunnels}
use hawal.Server.Sync.{node_configs}
use hawal.Agent.{Agent, Host}
use hawal.Agent.Apply.{is_running, apply_configs}

-- A sync that succeeds: the panel's answer to a node, applied by its agent.
abbrev pub sync_round : Host → String → Db → Agent → Agent
sync_round h node_id db a = apply_configs h (node_configs db node_id (list_tunnels db)) a

-- The view of a tunnel that the dashboard promises: it runs at its two ends.
abbrev pub wanted : String → Option Tunnel → Bool
wanted node_id none = false
wanted node_id (some t) =
    t.status == "running" && (t.server_node_id == node_id || t.client_node_id == node_id)

abbrev pub runs : Host → String → Agent → Bool
runs h tunnel_id a = is_running h (lookup tunnel_id a.processes)
