-- ===== src/Server/Route.antt =====
-- `route_request` of app/server.py: which handler a method and a path lead to, tried in the order
-- of the code, and the handler's run. Files, the installer's page and the network tests of
-- `/test` and `/api/ping` are what the outside answers.
pub mod Dispatch
pub mod Kept
pub mod Created
pub mod Walk
pub mod Safety
use hawal.Base.{ℕ, zero, suc, String, Bool, true, false, ◌&&◌, Option, none, some, List, [], ◌∷◌}
use hawal.Base.Tests.{if◌then◌else◌}
use hawal.Base.Eq.{◌==◌, string_eq}
use hawal.Base.Int.{ℤ}
use hawal.Base.Result.{Raised}
use hawal.Text.{begins, ends, occurs, replace, split, last_piece}
use hawal.Db.{PingRow, Tunnel}
use hawal.Db.Nodes.{get_node}
use hawal.Db.Tunnels.{get_tunnel}
use hawal.Db.Pings.{record_ping, get_latest_pings}
use hawal.Engine.Ports.{test_port}
use hawal.Geoip.{Answer}
use hawal.Settings.{Dict}
use hawal.Server.{
  World, Action, Body, Event, Reply, ◌>>=◌, ◌>>◌, gets, modify, pure, raise, parsed, send_json,
  broadcast, guarded, or_default,
}
use hawal.Server.Nodes.{NodeBody, get_nodes, post_node, delete_node_route, restart_agents}
use hawal.Server.Logs.{Snapshots, get_logs, delete_logs, post_agent_logs}
use hawal.Server.Tunnels.{
  TunnelBody, Report, with_tunnel, get_tunnels, post_tunnel, put_tunnel, get_docker, post_traffic,
  post_restart, delete_tunnel_route, post_status,
}
use hawal.Server.Settings.{get_settings, post_settings}
use hawal.Server.Agents.{Headers, HeartbeatBody, bearer, header, post_heartbeat}
use hawal.Server.Sync.{get_sync}
use hawal.Server.Files.{static_path, serve_node_installer}
use hawal.Ping.{Ran, PingResult, run_ping}
use hawal.Server.Route.Dispatch.{Target, target_of}

-- What `/api/ping` reads from its body.
pub record PingBody : Type 0 where
  pub target_ip : Option String
  pub source_node_id : Option String
  pub target_node_id : Option String

-- The body of a request as each route reads it; none where it is no JSON.
pub record Reading : Type 0 where
  pub node : Option NodeBody
  pub tunnel : Option TunnelBody
  pub reports : Option (List Report)
  pub status : Option (Option String)
  pub settings : Option Dict
  pub snapshots : Option Snapshots
  pub heartbeat : Option HeartbeatBody
  pub ping : Option PingBody

pub record Request : Type 0 where
  pub method : String
  pub path : String
  pub query : Headers
  pub headers : Headers
  pub peer : String
  pub reading : Reading

-- What the outside supplies to one request.
pub record Outside : Type 0 where
  pub now : ℕ
  pub serial : String
  pub token : String
  pub service : String → Option Answer
  pub page : String → Reply
  pub file : String → Reply
  pub static_dir : String
  pub port : ℤ
  pub ping : Option String → Ran
  pub measure : Option String → ℤ → Reply

-- The key `key` of the query, `query.get(key, [""])[0]`.
abbrev pub query_text : String → Headers → String
query_text key q = or_default (header key q) ""

abbrev pub with_id : Option String → (String → Action Unit) → Action Unit
with_id none k = raise Raised.index_error
with_id (some i) k = k i

abbrev pub ping_row : PingBody → PingResult → ℕ → PingRow
ping_row b r now = record {
  source_node_id = or_default b.source_node_id "panel";
  target_node_id = or_default b.target_node_id "target";
  latency_avg_ms = r.avg_ms;
  latency_min_ms = r.min_ms;
  latency_max_ms = r.max_ms;
  packet_loss = r.packet_loss;
  created_at = now;
}

abbrev pub answer : Reply → Action Unit
answer r = send_json r.status r.body

-- `POST /api/ping`: a ping that succeeds is recorded.
unfoldable pub post_ping :
    (Option String → Ran) → (PingResult → Body) → ℕ → Option PingBody → Action Unit
unfolding run_ping
post_ping run show now body = do
  b ← parsed body
  let r = run_ping b.target_ip (run b.target_ip)
  modify (λ db. if r.success then record_ping (ping_row b r now) db else db)
  send_json 200 (show r)
  broadcast (Event.ping_completed r)

-- `POST /api/tunnels/<id>/test`: the address and the port that are tried.
unfoldable pub post_test : (Option String → ℤ → Reply) → String → Action Unit
unfolding test_port
post_test measure tunnel_id = do
  found ← gets (get_tunnel tunnel_id)
  with_tunnel found λ t. do
    node ← gets (get_node t.client_node_id)
    let r = measure (elim node [ none ↦ none | some n ↦ some n.ip ]) (test_port t.ports t.core_port)
    send_json r.status r.body

module _ (o : Outside) (show : PingResult → Body) where
  unfoldable pub run_target : Target → Request → Action Unit
  run_target Target.index r = answer (o.page "index.html")
  run_target (Target.static_file path) r = answer (o.file (static_path o.static_dir path))
  run_target Target.install r = serve_node_installer o.token o.port r.query r.headers
  run_target Target.list_nodes r = get_nodes o.now
  run_target Target.list_logs r =
      get_logs (query_text "node_id" r.query) (query_text "source" r.query)
  run_target Target.delete_logs r =
      delete_logs (query_text "node_id" r.query) (query_text "source" r.query)
  run_target Target.agent_logs r = post_agent_logs o.now (bearer r.headers) r.reading.snapshots
  run_target Target.create_node r = post_node o.service o.now o.serial o.token r.reading.node
  run_target (Target.delete_node i) r = delete_node_route i
  run_target Target.list_tunnels r = get_tunnels
  run_target Target.create_tunnel r = post_tunnel o.now o.serial o.token r.reading.tunnel
  run_target (Target.docker i) r = with_id i get_docker
  run_target Target.read_settings r = get_settings o.token
  run_target Target.write_settings r = post_settings o.token r.reading.settings
  run_target (Target.change_tunnel i) r = with_id i (λ k. put_tunnel k r.reading.tunnel)
  run_target Target.report_traffic r = post_traffic r.reading.reports
  run_target (Target.restart_tunnel i) r = with_id i post_restart
  run_target Target.restart_agents r = restart_agents
  run_target (Target.test_tunnel i) r = with_id i (post_test o.measure)
  run_target (Target.delete_tunnel i) r = delete_tunnel_route i
  run_target (Target.set_status i) r = with_id i (λ k. post_status k r.reading.status)
  run_target Target.ping r = post_ping o.ping show o.now r.reading.ping
  run_target Target.latest_pings r = do
    rows ← gets get_latest_pings
    send_json 200 (Body.pings rows)
  run_target Target.heartbeat r = post_heartbeat o.now r.peer r.headers r.reading.heartbeat
  run_target Target.sync r = get_sync r.headers
  run_target Target.not_found r = send_json 404 (Body.error "Not Found")

  -- `route_request`, under the `except` of `handle_client`.
  unfoldable pub route_request : Request → World → World
  unfolding run_target target_of
  route_request r = guarded (run_target (target_of r.method r.path) r)
