-- ===== src/Server/Agents.antt =====
-- How app/server.py tells a node by its token, and `POST /api/agent/heartbeat`.
pub mod Laws
use hawal.Base.{ℕ, String, ◌≡◌, Bool, true, false, Option, none, some, List, [], ◌∷◌}
use hawal.Base.Tests.{if◌then◌else◌}
use hawal.Base.Eq.{◌==◌, string_eq}
use hawal.Base.Rows.{find_row}
use hawal.Text.{strip, replace}
use hawal.Db.{Db, Node, Tunnel}
use hawal.Db.Nodes.{Metrics, get_node, get_node_by_token, update_node_heartbeat}
use hawal.Db.Tunnels.{TunnelRow, list_tunnels}
use hawal.Backhaul.{generate_server_config, generate_client_config}
use hawal.Item.{Role, server, client}
use hawal.Server.{Action, Body, Event, ◌>>=◌, ◌>>◌, gets, modify, parsed, send_json, broadcast}
use hawal.Server.Logs.{with_node}

-- The headers of a request, their names in lower case.
abbrev pub Headers : Type 0
Headers = List (String × String)

abbrev pub name_of : String × String → String
name_of h = h.0

abbrev pub text_of : Option (String × String) → Option String
text_of none = none
text_of (some h) = some h.1

-- `headers.get(name)`
unfoldable pub header : String → Headers → Option String
unfolding find_row
header name h = text_of (find_row name_of name h)

abbrev pub or_empty : Option String → String
or_empty none = ""
or_empty (some s) = s

-- `a or b` for texts
abbrev pub or_else : String → String → String
or_else a b = if a == "" then b else a

-- `auth_header.replace("Bearer ", "").strip()`; no header is named "Authorization", since the names
-- are in lower case.
unfoldable pub bearer : Headers → String
unfolding header replace strip
bearer h = strip (replace "Bearer " "" (or_empty (header "authorization" h)))

unfoldable pub node_token : Headers → Option String
unfolding bearer header
node_token h = if bearer h == "" then header "x-node-token" h else some (bearer h)

-- The same in `GET /api/agent/sync`, with the empty text where there is no header.
unfoldable pub sync_token : Headers → String
unfolding bearer header
sync_token h = if bearer h == "" then or_empty (header "x-node-token" h) else bearer h

-- `WHERE token = NULL` finds no row.
abbrev pub by_token : Option String → Db → Option Node
by_token none db = none
by_token (some token) db = get_node_by_token token db

pub record HeartbeatBody : Type 0 where
  pub metrics : Metrics
  pub public_ip : Option String

-- `server_node["ip"] if server_node else "127.0.0.1"`
abbrev pub ip_or_local : Option Node → String
ip_or_local none = "127.0.0.1"
ip_or_local (some n) = n.ip

-- What the heartbeat answers for one tunnel: always a configuration of the Backhaul core.
unfoldable pub heartbeat_config : Db → String → Tunnel → Option (String × Role × String × ℕ)
heartbeat_config db node_id t =
    if t.status == "running"
    then (if t.server_node_id == node_id
        then some (t.id, server, generate_server_config t "0.0.0.0", t.restart_nonce)
        else if t.client_node_id == node_id
        then some (
          t.id,
          client,
          generate_client_config t (ip_or_local (get_node t.server_node_id db)),
          t.restart_nonce,
        )
        else none)
    else none

abbrev pub cons_some {ℓ} : {A : Type ℓ} → Option A → List A → List A
cons_some none xs = xs
cons_some (some x) xs = x ∷ xs

unfoldable pub heartbeat_configs : Db → String → List TunnelRow → List (String × Role × String × ℕ)
unfolding heartbeat_config
heartbeat_configs db node_id [] = []
heartbeat_configs db node_id (t ∷ ts) =
    cons_some (heartbeat_config db node_id t.tunnel) (heartbeat_configs db node_id ts)

abbrev pub client_ip : Headers → HeartbeatBody → String → String
client_ip h b peer =
    or_else (or_empty (header "x-forwarded-for" h)) (or_else (or_empty b.public_ip) peer)

-- `POST /api/agent/heartbeat`; `peer` is the address of the connection.
unfoldable pub post_heartbeat : ℕ → String → Headers → Option HeartbeatBody → Action Unit
unfolding node_token
post_heartbeat now peer h body = do
  found ← gets (by_token (node_token h))
  with_node found "Unauthorized node token" λ node. do
    b ← parsed body
    modify (update_node_heartbeat node.id (client_ip h b peer) b.metrics none now)
    configs ← gets (λ db. heartbeat_configs db node.id (list_tunnels db))
    send_json 200 (Body.heartbeat_ok configs)
    broadcast (Event.node_heartbeat node.id)
