-- ===== src/Tests/Data.antt =====
-- A panel with two nodes and two tunnels on one of them.
use hawal.Base.{ℕ, String, Option, none, some, [], ◌∷◌}
use hawal.Base.Int.{pos}
use hawal.Db.{Node, Tunnel, Db, Snapshot}
use hawal.Db.Nodes.{Geo, Metrics}
use hawal.Db.Tunnels.{TunnelArgs}
use hawal.Server.{World, Reply, Body}
use hawal.Settings.{ConfigFile}
use hawal.Server.Tunnels.{TunnelBody, Number}
use hawal.Server.Route.{Request, Reading, Outside}
use hawal.Ping.{Ran, PingResult}

abbrev pub node : String → String → String → Node
node id ip token = record {
  id = id;
  name = id;
  ip = ip;
  role = "kharej";
  country_code = "DE";
  country_name = "Germany";
  flag = "x";
  city = "Berlin";
  token = token;
  status = "online";
  last_seen = 0;
  cpu_percent = 0;
  ram_used_mb = 0;
  ram_total_mb = 0;
  uptime_seconds = 0;
  created_at = 0;
  agent_restart_nonce = 0;
}

abbrev pub tunnel : String → ℕ → String → Tunnel
tunnel id port core = record {
  id = id;
  name = id;
  core_type = core;
  server_node_id = "iran";
  client_node_id = "abroad";
  core_port = pos port;
  transport = "tls";
  ports = "443=127.0.0.1:443" ∷ [];
  token = "secret";
  status = "running";
  nodelay = 1;
  snappy = 1;
  mux_con = 8;
  keepalive = 75;
  channel_size = 2048;
  restart_nonce = 0;
  bytes_in = pos 0;
  bytes_out = pos 0;
  created_at = 0;
}

abbrev pub iran : Node
iran = node "iran" "5.6.7.8" "token_iran"

abbrev pub abroad : Node
abroad = node "abroad" "9.8.7.6" "token_abroad"

abbrev pub first : Tunnel
first = tunnel "first" 3090 "gost"

abbrev pub second : Tunnel
second = tunnel "second" 3091 "hawal"

abbrev pub log : Snapshot
log = record { node_id = "iran"; source = "agent"; content = "ready"; updated_at = 1 }

abbrev pub panel : Db
panel = record {
  nodes = iran ∷ abroad ∷ [];
  tunnels = first ∷ second ∷ [];
  ping_history = [];
  log_snapshots = log ∷ [];
}

abbrev pub world : World
world = record { db = panel; cache = []; config = ConfigFile.absent; replies = []; events = [] }

abbrev pub metrics : Metrics
metrics = record { cpu_percent = 120; ram_used_mb = 512; ram_total_mb = 1024; uptime_seconds = 60 }

abbrev pub geo : Geo
geo = record { country_code = "DE"; country_name = "Germany"; flag = "x"; city = "Berlin" }

abbrev pub args : TunnelArgs
args = record {
  id = "third";
  name = some "third";
  server_node_id = some "iran";
  client_node_id = some "abroad";
  core_port = pos 3092;
  transport = some "tls";
  ports = [];
  token = "secret";
  status = "running";
  core_type = some "gost";
}

abbrev pub tunnel_body : ℕ → TunnelBody
tunnel_body port = record {
  name = none;
  core_type = none;
  server_node_id = some "iran";
  client_node_id = some "abroad";
  core_port = some (Number.number (pos port));
  transport = none;
  ports = none;
}

abbrev pub reading : Option TunnelBody → Reading
reading b = record {
  node = none;
  tunnel = b;
  reports = none;
  status = none;
  settings = none;
  snapshots = none;
  heartbeat = none;
  ping = none;
}

abbrev pub request : String → String → Option TunnelBody → Request
request method path b = record {
  method = method;
  path = path;
  query = [];
  headers = [];
  peer = "1.2.3.4";
  reading = reading b;
}

abbrev no_page : String → Reply
no_page path = record { status = 404; body = Body.error "File not found" }

abbrev pub no_ping : Ran
no_ping = Ran.raised "[Errno 2] No such file or directory: 'ping'"

abbrev pub outside : Outside
outside = record {
  now = 7;
  serial = "abcd";
  token = "secret";
  service = λ ip. none;
  page = no_page;
  file = no_page;
  static_dir = "/srv/static";
  port = pos 9090;
  ping = λ ip. no_ping;
  measure = λ ip port. no_page "";
}

abbrev pub shown : PingResult → Body
shown r = Body.success
