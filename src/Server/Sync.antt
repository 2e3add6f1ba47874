-- ===== src/Server/Sync.antt =====
-- `GET /api/agent/sync` of app/server.py: what a node has to run.
pub mod Roles
use hawal.Base.{ℕ, String, Bool, true, false, Option, none, some, List, [], ◌∷◌}
use hawal.Base.Tests.{if◌then◌else◌}
use hawal.Base.Eq.{◌==◌, string_eq}
use hawal.Db.{Db, Node, Tunnel}
use hawal.Db.Nodes.{get_node, get_node_by_token}
use hawal.Db.Tunnels.{TunnelRow, list_tunnels}
use hawal.Backhaul.{generate_server_config, generate_client_config}
use hawal.Engine.Core.{generate_hawal_core_server_config, generate_hawal_core_client_config}
use hawal.Engine.Gost.{generate_gost_server_command, generate_gost_client_command}
use hawal.Engine.Paqet.{generate_paqet_server_config, generate_paqet_client_config}
use hawal.Item.{Role, server, client, Payload, Item}
use hawal.Server.{Action, Body, ◌>>=◌, ◌>>◌, gets, send_json}
use hawal.Server.Logs.{with_node}
use hawal.Server.Agents.{Headers, sync_token, ip_or_local, cons_some}

abbrev pub item : Tunnel → Role → Payload → Item
item t role payload = record {
  tunnel_id = t.id;
  role = role;
  payload = payload;
  restart_nonce = t.restart_nonce;
}

-- The branch of the Paqet core: the roles are swapped.
unfoldable pub paqet_item : Db → String → Tunnel → Option Item
paqet_item db node_id t =
    if t.client_node_id == node_id
    then some (item t server (Payload.paqet t.core_port [] (generate_paqet_server_config t)))
    else if t.server_node_id == node_id
    then some (
        item t client (
          Payload.paqet t.core_port t.ports
            (generate_paqet_client_config t (ip_or_local (get_node t.client_node_id db)))))
    else none

-- The branch of the GOST core: swapped too.
unfoldable pub gost_item : Db → String → Tunnel → Option Item
gost_item db node_id t =
    if t.client_node_id == node_id
    then some (item t server (Payload.gost (generate_gost_server_command t)))
    else if t.server_node_id == node_id
    then some (
        item t client (
          Payload.gost
            (generate_gost_client_command t (ip_or_local (get_node t.client_node_id db)))))
    else none

-- The two other cores.
unfoldable pub plain_item : Db → String → Tunnel → Option Item
plain_item db node_id t =
    if t.server_node_id == node_id
    then some (
        item t server (
          if t.core_type == "hawal"
          then Payload.core (generate_hawal_core_server_config t)
          else Payload.backhaul (generate_server_config t "0.0.0.0")))
    else if t.client_node_id == node_id
    then some (
        item t client (
          let ip = ip_or_local (get_node t.server_node_id db) in
          if t.core_type == "hawal"
          then Payload.core (generate_hawal_core_client_config t ip)
          else Payload.backhaul (generate_client_config t ip)))
    else none

-- One round of the loop.
unfoldable pub sync_item : Db → String → Tunnel → Option Item
unfolding paqet_item gost_item plain_item
sync_item db node_id t =
    if t.status == "running"
    then (if t.core_type == "paqet"
        then paqet_item db node_id t
        else if t.core_type == "gost"
        then gost_item db node_id t
        else plain_item db node_id t)
    else none

unfoldable pub node_configs : Db → String → List TunnelRow → List Item
unfolding sync_item
node_configs db node_id [] = []
node_configs db node_id (t ∷ ts) =
    cons_some (sync_item db node_id t.tunnel) (node_configs db node_id ts)

-- `GET /api/agent/sync`
unfoldable pub get_sync : Headers → Action Unit
unfolding node_configs
get_sync h = do
  found ← gets (get_node_by_token (sync_token h))
  with_node found "unauthorized" λ node. do
    configs ← gets (λ db. node_configs db node.id (list_tunnels db))
    send_json 200 (Body.sync configs node.agent_restart_nonce)
