-- ===== src/Server/Route/Safety.antt =====
-- What every request keeps, app/server.py.
use mathlib.Core.Path.{subst}
use hawal.Base.Eq.{◌==◌, string_eq}
use hawal.Base.{false}
use hawal.Server.Route.Dispatch.Laws.{target_of-other}
use hawal.Base.{ℕ, arith, sym, String, ◌<>◌, ◌≡◌, refl, Option, none, some}
use hawal.Base.Result.{ok}
use hawal.Db.{Db}
use hawal.Db.Nodes.{Geo, save_node, update_node_heartbeat, delete_node, request_all_agents_restart}
use hawal.Db.Tunnels.{
  get_tunnel, request_tunnel_restart, update_tunnel_traffic, set_tunnel_status, delete_tunnel,
}
use hawal.Db.Logs.{delete_log_snapshots, save_snapshot}
use hawal.Db.Logs.Laws.{save_log_snapshots-induction}
use hawal.Db.Pings.{record_ping}
use hawal.Db.Valid.{
  IsValid, save_node-IsValid, update_node_heartbeat-IsValid, delete_node-IsValid,
  request_all_agents_restart-IsValid, save_tunnel-IsValid, update_tunnel-IsValid,
  request_tunnel_restart-IsValid, update_tunnel_traffic-IsValid, set_tunnel_status-IsValid,
  delete_tunnel-IsValid, save_log_snapshots-IsValid, delete_log_snapshots-IsValid,
  record_ping-IsValid,
}
use hawal.Backhaul.Clash.{Apart, save_tunnel-Apart, Apart-update_where, Apart-delete_where}
use hawal.Server.{World}
use hawal.Base.Int.{ℤ}
use hawal.Base.Result.{ok}
use hawal.Base.Rows.{update_where}
use hawal.Db.Tunnels.{tunnel_id_of, add_traffic}
use hawal.Server.Keeps.{
  Keeps-attempt, Keeps, Keeps-bind, Keeps-parsed, Keeps-to_int, Keeps-gets, Keeps-with_tunnel,
  Keeps-then, Keeps-done, guarded-at,
}
use hawal.Server.Tunnels.{TunnelBody, put_tunnel}
use hawal.Server.Route.{Request, Outside, run_target, route_request}
use hawal.Ping.{PingResult}
use hawal.Server.{Body}
use hawal.Server.Route.Dispatch.{target_of}
use hawal.Server.Route.Kept.{Closed}
use hawal.Server.Route.Walk.{run_target-keeps}

abbrev Any : String → Db → Type 0
Any i db = Unit

Closed-IsValid : Closed IsValid Any
Closed-IsValid = record {
  save_node_kept = λ i n a r t g now db db' v e. save_node-IsValid db v i n a r t g now e;
  heartbeat_kept = λ i a m now db v. update_node_heartbeat-IsValid db v i a m none now;
  delete_node_kept = λ i db v. delete_node-IsValid db v i;
  restart_agents_kept = λ db v. request_all_agents_restart-IsValid db v;
  save_tunnel_kept = λ a now db db' v u k e. save_tunnel-IsValid db v a now e;
  restart_kept = λ i db v. request_tunnel_restart-IsValid db v i;
  traffic_kept = λ i a b db db' v e. update_tunnel_traffic-IsValid db v i a b e;
  status_kept = λ i s db v. set_tunnel_status-IsValid db v i s;
  delete_tunnel_kept = λ i db v. delete_tunnel-IsValid db v i;
  save_logs_kept = λ i l now db v. save_log_snapshots-IsValid db v i l now;
  delete_logs_kept = λ n s db v. delete_log_snapshots-IsValid db v n s;
  ping_kept = λ p db v. record_ping-IsValid db v p;
}

put_tunnel-IsValid : (i : String) (body : Option TunnelBody) → Keeps IsValid (put_tunnel i body)
unfolding put_tunnel
put_tunnel-IsValid i body = Keeps-bind IsValid _ _ (Keeps-parsed IsValid body) λ b.
    Keeps-bind IsValid _ _ (Keeps-to_int IsValid _) λ port.
      Keeps-bind IsValid _ _ (Keeps-gets IsValid _) λ found. Keeps-with_tunnel IsValid _ _ λ t.
        Keeps-then IsValid _ _
          (Keeps-attempt IsValid _ (λ db db' v e. update_tunnel-IsValid db v i _ port _ _ _ e))
          (Keeps-done IsValid _ _ _)

-- No request, whatever its method, path and body, and whatever fails in it, leaves an invalid
-- database behind: after it, node ids, node tokens, tunnel ids and the keys of log snapshots are
-- unique and no stored log is longer than 24,000 characters, if this was so before.
pub route_request-IsValid :
    (o : Outside) (show : PingResult → Body) (r : Request) (w : World)
    → IsValid w.db
    → IsValid (route_request o show r w).db
unfolding route_request
route_request-IsValid o show r w v =
    guarded-at IsValid (run_target o show (target_of r.method r.path) r) w (
      run_target-keeps IsValid Any Closed-IsValid o show (target_of r.method r.path) r
        (λ k e. put_tunnel-IsValid k r.reading.tunnel) w tt v)

abbrev KeptApart : Db → Type 0
KeptApart db = Apart db.tunnels

-- An id that no tunnel has.
abbrev pub Fresh : String → Db → Type 0
Fresh i db = get_tunnel i db ≡ none

save_node-tunnels :
    (i n a r t : String) (g : Geo) (now : ℕ) (db : Db) {db' : Db}
    → save_node i n a r t g now db ≡ ok db'
    → db'.tunnels ≡ db.tunnels
unfolding save_node
save_node-tunnels i n a r t g now db {db'} h = ground arith

update_tunnel_traffic-Apart :
    (i : String) (a b : ℤ) (db : Db) {db' : Db}
    → update_tunnel_traffic i a b db ≡ ok db'
    → Apart db.tunnels
    → Apart db'.tunnels
unfolding update_tunnel_traffic
update_tunnel_traffic-Apart i a b db {db'} h v =
    let same : db'.tunnels ≡ update_where tunnel_id_of i (add_traffic a b) db.tunnels =
      ground arith in
    rw same (Apart-update_where i (add_traffic a b) (λ t. refl) (λ t. refl) db.tunnels v)

Closed-Apart : Closed KeptApart Fresh
unfolding save_node update_node_heartbeat delete_node request_all_agents_restart
    request_tunnel_restart update_tunnel_traffic set_tunnel_status delete_tunnel save_snapshot
    delete_log_snapshots record_ping
Closed-Apart = record {
  save_node_kept =
      λ i n a r t g now db db' v e. subst Apart (sym (save_node-tunnels i n a r t g now db e)) v;
  heartbeat_kept = λ i a m now db v. v;
  delete_node_kept = λ i db v. v;
  restart_agents_kept = λ db v. v;
  save_tunnel_kept = λ a now db db' v fresh k e. save_tunnel-Apart a now db fresh k v e;
  restart_kept = λ i db v. Apart-update_where i _ (λ t. refl) (λ t. refl) db.tunnels v;
  traffic_kept = λ i a b db db' v e. update_tunnel_traffic-Apart i a b db e v;
  status_kept = λ i s db v. Apart-update_where i _ (λ t. refl) (λ t. refl) db.tunnels v;
  delete_tunnel_kept = λ i db v. Apart-delete_where i db.tunnels v;
  save_logs_kept =
      λ i l now db v. save_log_snapshots-induction KeptApart i now (λ source content d x. x) l db v;
  delete_logs_kept = λ n s db v. v;
  ping_kept = λ p db v. v;
}

-- A request of any method but PUT keeps the ports of each server node apart: no tunnel
-- listens on the port of another one there, if this was so before and the id that a new tunnel
-- would get is in no use.
pub route_request-Apart :
    (o : Outside) (show : PingResult → Body) (r : Request) (w : World)
    → (r.method == "PUT") ≡ false
    → get_tunnel ("tun_" <> o.serial) w.db ≡ none
    → Apart w.db.tunnels
    → Apart (route_request o show r w).db.tunnels
unfolding route_request
route_request-Apart o show r w other fresh a =
    guarded-at KeptApart (run_target o show (target_of r.method r.path) r) w (
      run_target-keeps KeptApart Fresh Closed-Apart o show (target_of r.method r.path) r
        (λ k e. absurd (target_of-other r.method r.path (some k) other e)) w fresh a)
