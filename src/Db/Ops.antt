-- ===== src/Db/Ops.antt =====
-- The writing functions of app/db.py as steps, and any run of them.
pub mod Reach
use hawal.Base.{ℕ, String, Option, List, [], ◌∷◌}
use hawal.Base.Int.{ℤ}
use hawal.Base.Result.{Result, ok, err}
use hawal.Db.{PingRow, Db}
use hawal.Db.Nodes.{
  Geo, Metrics, save_node, update_node_heartbeat, delete_node, request_all_agents_restart,
}
use hawal.Db.Tunnels.{
  TunnelArgs, save_tunnel, update_tunnel, request_tunnel_restart, update_tunnel_traffic,
  set_tunnel_absolute_traffic, set_tunnel_status, delete_tunnel,
}
use hawal.Db.Logs.{save_log_snapshots, delete_log_snapshots}
use hawal.Db.Pings.{record_ping}

-- One call of a writing function of app/db.py, with the time that it reads.
pub data Op : Type 0 where
  save_node_op : String → String → String → String → String → Geo → ℕ → Op
  heartbeat_op : String → String → Metrics → Option Geo → ℕ → Op
  delete_node_op : String → Op
  restart_agents_op : Op
  save_tunnel_op : TunnelArgs → ℕ → Op
  update_tunnel_op : String → String → ℤ → Option String → List String → Option String → Op
  restart_tunnel_op : String → Op
  traffic_op : String → ℤ → ℤ → Op
  absolute_traffic_op : String → ℤ → ℤ → Op
  status_op : String → String → Op
  delete_tunnel_op : String → Op
  save_logs_op : String → List (String × String) → ℕ → Op
  delete_logs_op : Option String → Option String → Op
  ping_op : PingRow → Op

-- A call that raises is rolled back by its connection.
abbrev pub committed : Result Db → Db → Db
committed (ok db') db = db'
committed (err x) db = db

unfoldable pub perform : Op → Db → Db
perform (save_node_op i n a r t g now) db = committed (save_node i n a r t g now db) db
perform (heartbeat_op i a m g now) db = update_node_heartbeat i a m g now db
perform (delete_node_op i) db = delete_node i db
perform restart_agents_op db = (request_all_agents_restart db).1
perform (save_tunnel_op a now) db = committed (save_tunnel a now db) db
perform (update_tunnel_op i n p t ps c) db = committed (update_tunnel i n p t ps c db) db
perform (restart_tunnel_op i) db = (request_tunnel_restart i db).1
perform (traffic_op i a b) db = committed (update_tunnel_traffic i a b db) db
perform (absolute_traffic_op i a b) db = committed (set_tunnel_absolute_traffic i a b db) db
perform (status_op i s) db = set_tunnel_status i s db
perform (delete_tunnel_op i) db = delete_tunnel i db
perform (save_logs_op i l now) db = save_log_snapshots i l now db
perform (delete_logs_op n s) db = (delete_log_snapshots n s db).1
perform (ping_op p) db = record_ping p db

unfoldable pub perform_all : List Op → Db → Db
unfolding perform
perform_all [] db = db
perform_all (o ∷ ops) db = perform_all ops (perform o db)
