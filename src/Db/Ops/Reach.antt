-- ===== src/Db/Ops/Reach.antt =====
-- Every database that the panel can reach is valid.
use hawal.Base.{◌≡◌, refl, List, [], ◌∷◌}
use hawal.Base.Result.{Result, ok, err}
use hawal.Db.{Db}
use hawal.Db.Nodes.{save_node}
use hawal.Db.Tunnels.{save_tunnel}
use hawal.Db.Valid.{
  IsValid, save_node-IsValid, update_node_heartbeat-IsValid, delete_node-IsValid,
  request_all_agents_restart-IsValid, save_tunnel-IsValid, update_tunnel-IsValid,
  request_tunnel_restart-IsValid, update_tunnel_traffic-IsValid,
  set_tunnel_absolute_traffic-IsValid, set_tunnel_status-IsValid, delete_tunnel-IsValid,
  save_log_snapshots-IsValid, delete_log_snapshots-IsValid, record_ping-IsValid,
}
use hawal.Db.Tunnels.{update_tunnel, update_tunnel_traffic, set_tunnel_absolute_traffic}
use hawal.Db.Ops.{
  Op, save_node_op, heartbeat_op, delete_node_op, restart_agents_op, save_tunnel_op,
  update_tunnel_op, restart_tunnel_op, traffic_op, absolute_traffic_op, status_op, delete_tunnel_op,
  save_logs_op, delete_logs_op, ping_op, committed, perform, perform_all,
}

committed-IsValid :
    (r : Result Db) (db : Db)
    → IsValid db
    → ((db' : Db) → r ≡ ok db' → IsValid db')
    → IsValid (committed r db)
committed-IsValid (ok db') db v h = h db' refl
committed-IsValid (err x) db v h = v

perform-IsValid : (o : Op) (db : Db) → IsValid db → IsValid (perform o db)
unfolding perform
perform-IsValid (save_node_op i n a r t g now) db v =
    committed-IsValid (save_node i n a r t g now db) db v
      (λ d e. save_node-IsValid db v i n a r t g now e)
perform-IsValid (heartbeat_op i a m g now) db v = update_node_heartbeat-IsValid db v i a m g now
perform-IsValid (delete_node_op i) db v = delete_node-IsValid db v i
perform-IsValid restart_agents_op db v = request_all_agents_restart-IsValid db v
perform-IsValid (save_tunnel_op a now) db v =
    committed-IsValid (save_tunnel a now db) db v (λ d e. save_tunnel-IsValid db v a now e)
perform-IsValid (update_tunnel_op i n p t ps c) db v =
    committed-IsValid (update_tunnel i n p t ps c db) db v
      (λ d e. update_tunnel-IsValid db v i n p t ps c e)
perform-IsValid (restart_tunnel_op i) db v = request_tunnel_restart-IsValid db v i
perform-IsValid (traffic_op i a b) db v =
    committed-IsValid (update_tunnel_traffic i a b db) db v
      (λ d e. update_tunnel_traffic-IsValid db v i a b e)
perform-IsValid (absolute_traffic_op i a b) db v =
    committed-IsValid (set_tunnel_absolute_traffic i a b db) db v
      (λ d e. set_tunnel_absolute_traffic-IsValid db v i a b e)
perform-IsValid (status_op i s) db v = set_tunnel_status-IsValid db v i s
perform-IsValid (delete_tunnel_op i) db v = delete_tunnel-IsValid db v i
perform-IsValid (save_logs_op i l now) db v = save_log_snapshots-IsValid db v i l now
perform-IsValid (delete_logs_op n s) db v = delete_log_snapshots-IsValid db v n s
perform-IsValid (ping_op p) db v = record_ping-IsValid db v p

-- From a valid database every run of writing operations, failing ones among them, leads to one
-- where node ids, node tokens, tunnel ids and the keys of the log snapshots are unique and no
-- stored log is longer than 24,000 characters.
pub perform_all-IsValid : (ops : List Op) (db : Db) → IsValid db → IsValid (perform_all ops db)
unfolding perform_all
perform_all-IsValid [] db v = v
perform_all-IsValid (o ∷ ops) db v = perform_all-IsValid ops (perform o db) (perform-IsValid o db v)
