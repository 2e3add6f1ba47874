-- ===== src/Server/Route/Dispatch.antt =====
-- The tests of `route_request` on the method and the path, in their order.
pub mod Laws
use hawal.Base.{ℕ, zero, suc, String, Bool, ◌&&◌, ◌||◌, Option, none, some, List, [], ◌∷◌}
use hawal.Base.Tests.{if◌then◌else◌}
use hawal.Base.Eq.{◌==◌, string_eq}
use hawal.Text.{begins, ends, occurs, split, last_piece}

pub data Target : Type 0 where
  index : Target
  static_file : String → Target
  install : Target
  list_nodes : Target
  list_logs : Target
  delete_logs : Target
  agent_logs : Target
  create_node : Target
  delete_node : String → Target
  list_tunnels : Target
  create_tunnel : Target
  docker : Option String → Target
  read_settings : Target
  write_settings : Target
  change_tunnel : Option String → Target
  report_traffic : Target
  restart_tunnel : Option String → Target
  restart_agents : Target
  test_tunnel : Option String → Target
  delete_tunnel : String → Target
  set_status : Option String → Target
  ping : Target
  latest_pings : Target
  heartbeat : Target
  sync : Target
  not_found : Target

abbrev pub piece : ℕ → List String → Option String
piece i [] = none
piece zero (p ∷ ps) = some p
piece (suc i) (p ∷ ps) = piece i ps

-- `path.split("/")[3]`; none is an `IndexError`.
unfoldable pub fourth : String → Option String
unfolding split
fourth path = piece 3 (split b'/' path)

-- `"/api/tunnels/" in path and path.endswith(suffix)`
unfoldable pub of_tunnel : String → String → Bool
unfolding occurs ends
of_tunnel suffix path = occurs "/api/tunnels/" path && ends suffix path

unfoldable pub get_target : String → Target
unfolding begins of_tunnel fourth
get_target path =
    if path == "/" || path == "/index.html"
    then index
    else if begins "/static/" path
    then static_file path
    else if path == "/install"
    then install
    else if path == "/api/nodes"
    then list_nodes
    else if path == "/api/logs"
    then list_logs
    else if path == "/api/tunnels"
    then list_tunnels
    else if of_tunnel "/docker" path
    then docker (fourth path)
    else if path == "/api/settings"
    then read_settings
    else if path == "/api/pings/latest"
    then latest_pings
    else if path == "/api/agent/sync"
    then sync
    else not_found

unfoldable pub post_target : String → Target
unfolding of_tunnel fourth
post_target path =
    if path == "/api/agent/logs"
    then agent_logs
    else if path == "/api/nodes"
    then create_node
    else if path == "/api/tunnels"
    then create_tunnel
    else if path == "/api/settings"
    then write_settings
    else if path == "/api/tunnels/traffic"
    then report_traffic
    else if of_tunnel "/restart" path
    then restart_tunnel (fourth path)
    else if path == "/api/agents/restart"
    then restart_agents
    else if of_tunnel "/test" path
    then test_tunnel (fourth path)
    else if of_tunnel "/status" path
    then set_status (fourth path)
    else if path == "/api/ping"
    then ping
    else if path == "/api/agent/heartbeat"
    then heartbeat
    else not_found

unfoldable pub delete_target : String → Target
unfolding begins last_piece
delete_target path =
    if path == "/api/logs"
    then delete_logs
    else if begins "/api/nodes/" path
    then delete_node (last_piece b'/' path)
    else if begins "/api/tunnels/" path
    then delete_tunnel (last_piece b'/' path)
    else not_found

unfoldable pub put_target : String → Target
unfolding begins fourth
put_target path = if begins "/api/tunnels/" path then change_tunnel (fourth path) else not_found

unfoldable pub target_of : String → String → Target
target_of method path =
    if method == "GET"
    then get_target path
    else if method == "POST"
    then post_target path
    else if method == "DELETE"
    then delete_target path
    else if method == "PUT"
    then put_target path
    else not_found
