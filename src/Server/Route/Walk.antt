-- ===== src/Server/Route/Walk.antt =====
-- What every request keeps: one walk through the routes, for any property of the database that the
-- single operations keep.
use hawal.Server.Route.Created.{post_tunnel-keeps}
use hawal.Base.{String, ◌<>◌, ◌≡◌, refl, none, some}
use hawal.Base.Eq.{string_eq}
use hawal.Db.{Db}
use hawal.Server.Route.Dispatch.{Target}
use hawal.Server.{World, Body}
use hawal.Server.Route.Kept.{
  Closed, post_agent_logs-Keeps, post_node-Keeps, serve_node_installer-Keeps, shown-Keeps,
  with_id-Keeps, get_docker-Keeps, post_settings-Keeps, post_traffic-Keeps, post_restart-Keeps,
  post_test-Keeps, post_status-Keeps, post_ping-Keeps, post_heartbeat-Keeps, get_sync-Keeps,
}
use hawal.Server.Keeps.{
  Keeps, Keeps-bind, Keeps-then, Keeps-raise, Keeps-modify, Keeps-send_json, Keeps-done,
  Keeps-store,
}
use hawal.Server.Nodes.{get_nodes, delete_node_route, restart_agents}
use hawal.Server.Logs.{get_logs, delete_logs}
use hawal.Server.Tunnels.{get_tunnels, put_tunnel, delete_tunnel_route}
use hawal.Server.Settings.{load, get_settings}
use hawal.Server.Route.{Request, Outside, run_target}
use hawal.Ping.{PingResult}

module _ (P : Db → Type 0) (Ready : String → Db → Type 0) (c : Closed P Ready) where
  -- Every target but a change of a tunnel, which is asked of the caller.
  pub run_target-keeps :
      (o : Outside) (show : PingResult → Body) (t : Target) (r : Request)
      → ((k : String) → t ≡ Target.change_tunnel (some k) → Keeps P (put_tunnel k r.reading.tunnel))
      → (w : World) → Ready ("tun_" <> o.serial) w.db
      → P w.db
      → P (run_target o show t r w).1.db
  unfolding run_target get_nodes get_logs delete_logs get_tunnels delete_node_route restart_agents
      delete_tunnel_route get_settings load
  run_target-keeps o show Target.index r put w n h = Keeps-send_json P _ _ w h
  run_target-keeps o show (Target.static_file p) r put w n h = Keeps-send_json P _ _ w h
  run_target-keeps o show Target.install r put w n h =
      serve_node_installer-Keeps P Ready c _ _ _ _ w h
  run_target-keeps o show Target.list_nodes r put w n h = shown-Keeps P Ready c _ _ w h
  run_target-keeps o show Target.list_logs r put w n h = shown-Keeps P Ready c _ _ w h
  run_target-keeps o show Target.delete_logs r put w n h =
      Keeps-store P _ _ (c.delete_logs_kept _ _) (λ x. Keeps-send_json P _ _) w h
  run_target-keeps o show Target.agent_logs r put w n h = post_agent_logs-Keeps P Ready c _ _ _ w h
  run_target-keeps o show Target.create_node r put w n h = post_node-Keeps P Ready c _ _ _ _ _ w h
  run_target-keeps o show (Target.delete_node i) r put w n h =
      Keeps-then P _ _ (Keeps-modify P _ (c.delete_node_kept i)) (Keeps-done P _ _ _) w h
  run_target-keeps o show Target.list_tunnels r put w n h = shown-Keeps P Ready c _ _ w h
  run_target-keeps o show Target.create_tunnel r put w n h =
      post_tunnel-keeps P Ready c _ _ _ _ w n h
  run_target-keeps o show (Target.docker i) r put w n h =
      with_id-Keeps P Ready c i _ (get_docker-Keeps P Ready c) w h
  run_target-keeps o show Target.read_settings r put w n h =
      Keeps-bind P _ _ (λ w' h'. h') (λ d. Keeps-send_json P _ _) w h
  run_target-keeps o show Target.write_settings r put w n h = post_settings-Keeps P Ready c _ _ w h
  run_target-keeps o show (Target.change_tunnel none) r put w n h = Keeps-raise P _ _ w h
  run_target-keeps o show (Target.change_tunnel (some k)) r put w n h = put k refl w h
  run_target-keeps o show Target.report_traffic r put w n h = post_traffic-Keeps P Ready c _ w h
  run_target-keeps o show (Target.restart_tunnel i) r put w n h =
      with_id-Keeps P Ready c i _ (post_restart-Keeps P Ready c) w h
  run_target-keeps o show Target.restart_agents r put w n h =
      Keeps-store P _ _ c.restart_agents_kept (λ x. Keeps-done P _ _ _) w h
  run_target-keeps o show (Target.test_tunnel i) r put w n h =
      with_id-Keeps P Ready c i _ (post_test-Keeps P Ready c _) w h
  run_target-keeps o show (Target.delete_tunnel i) r put w n h =
      Keeps-then P _ _ (Keeps-modify P _ (c.delete_tunnel_kept i)) (Keeps-done P _ _ _) w h
  run_target-keeps o show (Target.set_status i) r put w n h =
      with_id-Keeps P Ready c i _ (λ k. post_status-Keeps P Ready c k _) w h
  run_target-keeps o show Target.ping r put w n h = post_ping-Keeps P Ready c _ _ _ _ w h
  run_target-keeps o show Target.latest_pings r put w n h = shown-Keeps P Ready c _ _ w h
  run_target-keeps o show Target.heartbeat r put w n h = post_heartbeat-Keeps P Ready c _ _ _ _ w h
  run_target-keeps o show Target.sync r put w n h = get_sync-Keeps P Ready c _ w h
  run_target-keeps o show Target.not_found r put w n h = Keeps-send_json P _ _ w h
