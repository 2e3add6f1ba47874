-- ===== src/Db.antt =====
-- app/db.py: the rows of the four tables, and the database that every operation takes and returns.
-- Times are microseconds, and `ports_json` holds the list that its JSON text stands for.
pub mod Sqlite
pub mod Nodes
pub mod Tunnels
pub mod Logs
pub mod Pings
pub mod Valid
pub mod Ops
use hawal.Base.Fixed.{Fixed}
use hawal.Base.{ℕ, String, List, [], Option}
use hawal.Base.Eq.{Key2}
use hawal.Base.Int.{ℤ}

-- A row of `nodes`. The percentage is in tenths.
pub record Node : Type 0 where
  pub id : String
  pub name : String
  pub ip : String
  pub role : String
  pub country_code : String
  pub country_name : String
  pub flag : String
  pub city : String
  pub token : String
  pub status : String
  pub last_seen : ℕ
  pub cpu_percent : ℕ
  pub ram_used_mb : ℕ
  pub ram_total_mb : ℕ
  pub uptime_seconds : ℕ
  pub created_at : ℕ
  pub agent_restart_nonce : ℕ

-- A row of `tunnels`.
pub record Tunnel : Type 0 where
  pub id : String
  pub name : String
  pub core_type : String
  pub server_node_id : String
  pub client_node_id : String
  pub core_port : ℤ
  pub transport : String
  pub ports : List String
  pub token : String
  pub status : String
  pub nodelay : ℕ
  pub snappy : ℕ
  pub mux_con : ℕ
  pub keepalive : ℕ
  pub channel_size : ℕ
  pub restart_nonce : ℕ
  pub bytes_in : ℤ
  pub bytes_out : ℤ
  pub created_at : ℕ

-- A row of `ping_history`.
pub record PingRow : Type 0 where
  pub source_node_id : String
  pub target_node_id : String
  pub latency_avg_ms : Fixed
  pub latency_min_ms : Fixed
  pub latency_max_ms : Fixed
  pub packet_loss : Fixed
  pub created_at : ℕ

-- A row of `log_snapshots`, whose primary key is the pair of node and source.
pub record Snapshot : Type 0 where
  pub node_id : String
  pub source : String
  pub content : String
  pub updated_at : ℕ

abbrev pub snapshot_key : Snapshot → Key2
snapshot_key s = record { major = s.node_id; minor = s.source }

pub record Db : Type 0 where
  pub nodes : List Node
  pub tunnels : List Tunnel
  pub ping_history : List PingRow
  pub log_snapshots : List Snapshot

-- What `init_db` leaves in a new file.
abbrev pub init_db : Db
init_db = record { nodes = []; tunnels = []; ping_history = []; log_snapshots = [] }
