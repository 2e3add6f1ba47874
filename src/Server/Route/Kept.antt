-- ===== src/Server/Route/Kept.antt =====
-- What every request keeps: one walk through the routes, for any property of the database that the
-- single operations keep.
use hawal.Base.{ℕ, String, ◌≡◌, inl, inr, true, Option, none, some, List, [], ◌∷◌}
use hawal.Base.Tests.{if◌then◌else◌, Bool-cases}
use hawal.Base.Eq.{◌==◌, string_eq}
use hawal.Base.Int.{ℤ}
use hawal.Base.Result.{ok}
use hawal.Db.{Db, Node, PingRow}
use hawal.Db.Nodes.{
  Geo, Metrics, save_node, update_node_heartbeat, delete_node, request_all_agents_restart,
}
use hawal.Db.Tunnels.{
  TunnelArgs, save_tunnel, request_tunnel_restart, update_tunnel_traffic, set_tunnel_status,
  delete_tunnel,
}
use hawal.Db.Logs.{save_log_snapshots, delete_log_snapshots}
use hawal.Db.Pings.{record_ping}
use hawal.Backhaul.{validate_tunnel_ports}
use hawal.Geoip.{Answer, resolve_geoip}
use hawal.Settings.{Dict, Value, get}
use hawal.Server.Files.{serve_node_installer, as_text}
use hawal.Server.{Body, Reply, send_json, Action, ◌>>=◌, gets}
use hawal.Server.Keeps.{
  Keeps, Keeps-bind, Keeps-parsed, Keeps-attempt, Keeps-with_node, Keeps-with_tunnel, Keeps-to_int,
  Keeps-then, Keeps-gets, Keeps-pure, Keeps-raise, Keeps-modify, Keeps-send_json, Keeps-broadcast,
  Keeps-done,
}
use hawal.Server.Nodes.{NodeBody, locate, post_node}
use hawal.Server.Logs.{Snapshots, missing, not_a_dict, dict, store_snapshots, post_agent_logs}
use hawal.Server.Tunnels.{Report, get_docker, add_reports, post_traffic, post_restart, post_status}
use hawal.Server.Settings.{load, save, post_settings}
use hawal.Server.Agents.{Headers, HeartbeatBody, post_heartbeat}
use hawal.Server.Sync.{get_sync}
use hawal.Server.Route.{ping_row, with_id, PingBody, post_ping, post_test}
use hawal.Ping.{Ran, PingResult, run_ping}

-- What the writing operations keep. `Ready` is what a new tunnel's id needs.
pub record Closed (P : Db → Type 0) (Ready : String → Db → Type 0) : Type 0 where
  pub save_node_kept :
      (i n a r t : String) (g : Geo) (now : ℕ) (db db' : Db)
      → P db
      → save_node i n a r t g now db ≡ ok db'
      → P db'
  pub heartbeat_kept :
      (i a : String) (m : Metrics) (now : ℕ) (db : Db)
      → P db
      → P (update_node_heartbeat i a m none now db)
  pub delete_node_kept : (i : String) (db : Db) → P db → P (delete_node i db)
  pub restart_agents_kept : (db : Db) → P db → P (request_all_agents_restart db).1
  pub save_tunnel_kept :
      (a : TunnelArgs) (now : ℕ) (db db' : Db)
      → P db
      → Ready a.id db
      → (validate_tunnel_ports a.core_port a.server_node_id none db).0 ≡ true
      → save_tunnel a now db ≡ ok db'
      → P db'
  pub restart_kept : (i : String) (db : Db) → P db → P (request_tunnel_restart i db).1
  pub traffic_kept :
      (i : String) (a b : ℤ) (db db' : Db) → P db → update_tunnel_traffic i a b db ≡ ok db' → P db'
  pub status_kept : (i s : String) (db : Db) → P db → P (set_tunnel_status i s db)
  pub delete_tunnel_kept : (i : String) (db : Db) → P db → P (delete_tunnel i db)
  pub save_logs_kept :
      (i : String) (l : List (String × String)) (now : ℕ) (db : Db)
      → P db
      → P (save_log_snapshots i l now db)
  pub delete_logs_kept : (n s : Option String) (db : Db) → P db → P (delete_log_snapshots n s db).1
  pub ping_kept : (p : PingRow) (db : Db) → P db → P (record_ping p db)

module _ (P : Db → Type 0) (Ready : String → Db → Type 0) (c : Closed P Ready) where
  locate-Keeps :
      (service : String → Option Answer) (ip role : String) → Keeps P (locate service ip role)
  unfolding locate resolve_geoip
  locate-Keeps service ip role w h = elim (Bool-cases (role == "iran")) [
    | inl e ↦ rw e h
    | inr e ↦ rw e h
  ]

  pub post_node-Keeps :
      (service : String → Option Answer) (now : ℕ) (serial token : String) (body : Option NodeBody)
      → Keeps P (post_node service now serial token body)
  unfolding post_node
  post_node-Keeps service now serial token body = Keeps-bind P _ _ (Keeps-parsed P body) λ b.
      Keeps-bind P _ _ (locate-Keeps service _ _) λ geo.
        Keeps-then P _ _
          (Keeps-attempt P _ (λ db db' h e. c.save_node_kept _ _ _ _ _ geo now db db' h e))
          (Keeps-done P _ _ _)

  store_snapshots-Keeps : (now : ℕ) (n : Node) (s : Snapshots) → Keeps P (store_snapshots now n s)
  store_snapshots-Keeps now n missing = Keeps-send_json P _ _
  store_snapshots-Keeps now n not_a_dict = Keeps-send_json P _ _
  store_snapshots-Keeps now n (dict l) =
      Keeps-then P _ _ (Keeps-modify P _ (c.save_logs_kept n.id l now)) (Keeps-send_json P _ _)

  pub post_agent_logs-Keeps :
      (now : ℕ) (token : String) (body : Option Snapshots)
      → Keeps P (post_agent_logs now token body)
  unfolding post_agent_logs
  post_agent_logs-Keeps now token body = Keeps-bind P _ _ (Keeps-gets P _) λ found.
      Keeps-with_node P _ _ _
        λ n. Keeps-bind P _ _ (Keeps-parsed P body) λ s. store_snapshots-Keeps now n s

  add_reports-Keeps : (rs : List Report) → Keeps P (add_reports rs)
  unfolding add_reports
  add_reports-Keeps [] = Keeps-pure P tt
  add_reports-Keeps (r ∷ rs) = Keeps-bind P _ _ (Keeps-to_int P _) λ a.
      Keeps-bind P _ _ (Keeps-to_int P _) λ b.
        Keeps-then P _ _ (Keeps-attempt P _ (c.traffic_kept r.tunnel_id a b)) (add_reports-Keeps rs)

  pub post_traffic-Keeps : (body : Option (List Report)) → Keeps P (post_traffic body)
  unfolding post_traffic
  post_traffic-Keeps body =
      Keeps-bind P _ _ (Keeps-parsed P body)
        λ rs. Keeps-then P _ _ (add_reports-Keeps rs) (Keeps-send_json P _ _)

  pub post_restart-Keeps : (i : String) → Keeps P (post_restart i)
  unfolding post_restart
  post_restart-Keeps i = Keeps-bind P _ _ (Keeps-gets P _) λ found.
      Keeps-with_tunnel P _ _
        λ t. Keeps-then P _ _ (Keeps-modify P _ (c.restart_kept i)) (Keeps-done P _ _ _)

  pub post_status-Keeps :
      (i : String) (body : Option (Option String)) → Keeps P (post_status i body)
  unfolding post_status
  post_status-Keeps i body =
      Keeps-bind P _ _ (Keeps-parsed P body)
        λ b. Keeps-then P _ _ (Keeps-modify P _ (c.status_kept i _)) (Keeps-done P _ _ _)

  pub post_heartbeat-Keeps :
      (now : ℕ) (peer : String) (hs : Headers) (body : Option HeartbeatBody)
      → Keeps P (post_heartbeat now peer hs body)
  unfolding post_heartbeat
  post_heartbeat-Keeps now peer hs body = Keeps-bind P _ _ (Keeps-gets P _) λ found.
      Keeps-with_node P _ _ _ λ n. Keeps-bind P _ _ (Keeps-parsed P body) λ b.
        Keeps-then P _ _ (Keeps-modify P _ (c.heartbeat_kept n.id _ b.metrics now))
          (Keeps-bind P _ _ (Keeps-gets P _) λ configs. Keeps-done P _ _ _)

  pub with_id-Keeps :
      (i : Option String) (f : String → Action (Unit {0}))
      → ((k : String) → Keeps P (f k))
      → Keeps P (with_id i f)
  with_id-Keeps none f k = Keeps-raise P _ _
  with_id-Keeps (some i) f k = k i

  as_text-Keeps : (v : Option Value) → Keeps P (as_text v)
  as_text-Keeps none = Keeps-pure P ""
  as_text-Keeps (some (Value.text s)) = Keeps-pure P s
  as_text-Keeps (some (Value.num n)) = Keeps-raise P _ _
  as_text-Keeps (some (Value.flag b)) = Keeps-raise P _ _

  pub serve_node_installer-Keeps :
      (secret : String) (port : ℤ) (q hs : Headers)
      → Keeps P (serve_node_installer secret port q hs)
  unfolding serve_node_installer load
  serve_node_installer-Keeps secret port q hs =
      Keeps-bind P _ _ (λ w h. h)
        λ settings.
          Keeps-bind P _ _ (as_text-Keeps (get "public_panel_url" settings))
            λ url. Keeps-send_json P _ _

  pub post_settings-Keeps :
      (secret : String) (body : Option Dict) → Keeps P (post_settings secret body)
  unfolding post_settings load save
  post_settings-Keeps secret body =
      Keeps-bind P _ _ (λ w h. h)
        λ current.
          Keeps-bind P _ _ (Keeps-parsed P body)
            λ new. Keeps-then P _ _ (λ w h. h) (Keeps-done P _ _ _)

  pub post_test-Keeps :
      (measure : Option String → ℤ → Reply) (i : String) → Keeps P (post_test measure i)
  unfolding post_test
  post_test-Keeps measure i = Keeps-bind P _ _ (Keeps-gets P _) λ found.
      Keeps-with_tunnel P _ _ λ t. Keeps-bind P _ _ (Keeps-gets P _) λ n. Keeps-send_json P _ _

  pub get_sync-Keeps : (hs : Headers) → Keeps P (get_sync hs)
  unfolding get_sync
  get_sync-Keeps hs = Keeps-bind P _ _ (Keeps-gets P _) λ found.
      Keeps-with_node P _ _ _
        λ n. Keeps-bind P _ _ (Keeps-gets P _) λ configs. Keeps-send_json P _ _

  pub get_docker-Keeps : (i : String) → Keeps P (get_docker i)
  unfolding get_docker
  get_docker-Keeps i =
      Keeps-bind P _ _ (Keeps-gets P _) λ found. Keeps-with_tunnel P _ _ λ t. Keeps-raise P _ _

  pub shown-Keeps :
      {A : Type 0} (f : Db → A) (b : A → Body) → Keeps P (gets f >>= λ a. send_json 200 (b a))
  shown-Keeps f b = Keeps-bind P _ _ (Keeps-gets P f) λ a. Keeps-send_json P _ _

  ping-kept :
      (b : PingBody) (x : PingResult) (now : ℕ) (db : Db)
      → P db
      → P (if x.success then record_ping (ping_row b x now) db else db)
  ping-kept b x now db h = elim (Bool-cases x.success) [
    | inl e ↦ rw e (c.ping_kept (ping_row b x now) db h)
    | inr e ↦ rw e h
  ]

  pub post_ping-Keeps :
      (run : Option String → Ran) (show : PingResult → Body) (now : ℕ) (b : Option PingBody)
      → Keeps P (post_ping run show now b)
  unfolding post_ping
  post_ping-Keeps run show now b = Keeps-bind P _ _ (Keeps-parsed P b) λ p.
      Keeps-then P _ _ (Keeps-modify P _ (ping-kept p (run_ping p.target_ip (run p.target_ip)) now))
        (Keeps-then P _ _ (Keeps-send_json P _ _) (Keeps-broadcast P _))
