-- ===== src/Tests/Panels.antt =====
-- The theorems on the panel at work: a pass of the collector and requests that come in between.
use hawal.Base.{◌&&◌, ◌++◌}
use hawal.Base.Tests.{eqb, if◌then◌else◌}
use hawal.Base.Lists.{contains}
use hawal.Server.Frames.{encode_ws_frame}
use hawal.Server.Dashboards.{
  nat_eq, Hub, enter, broadcast_ws, received, none_yet, then_step, entered,
}
use hawal.Server.Dashboards.Reached.{broadcast_ws-reach}
use hawal.Base.{◌≡◌, refl, true, false, Option, none, some, List, [], ◌∷◌}
use hawal.Base.Int.{ℤ, pos}
use hawal.Db.Valid.{IsValid}
use hawal.Db.Tunnels.{TunnelRow, get_tunnel}
use hawal.Server.Tunnels.{Report, number}
use hawal.Server.Collector.{counted}
use hawal.Server.Route.{Request, route_request}
use hawal.Server.Route.Dispatch.{target_of, post_target}
use hawal.Engine.Ports.{port_list}
use hawal.Text.{is_space}
use hawal.Server.Panel.{
  polling, Panel, asleep, collect_next, serve, here, later, collector, request,
}
use hawal.Server.Panel.Safety.{Reach-IsValid}
use hawal.Db.Sqlite.{storable, fits}
use hawal.Server.Panel.Lost.{report_lost}
use hawal.Server.Panel.Calm.{turn, quiet, here as calm, counters, Grown, counters-Calm}
use hawal.Tests.Data.{panel, world, first, second, outside, shown, reading}
use hawal.Tests.Data as Data
use hawal.Server.Client.{Connection, read_connection, read_request, act_on, handle_client}
use hawal.Tests.Clients.{library, small}
use hawal.Tests.Routes.{panel-IsValid}

abbrev counts : List ℤ → Option (ℤ × ℤ)
counts ports = some (pos 500, pos 70)

abbrev sleeping : Panel
sleeping = record { world = world; phase = asleep }

abbrev woken : Panel
woken = collect_next counts world asleep

Reach-IsValid_example : IsValid (serve library outside shown small woken).world.db
Reach-IsValid_example =
    Reach-IsValid {s = sleeping} {u = serve library outside shown small woken} panel-IsValid (
      later {t = woken} (later {t = sleeping} here (collector counts))
        (request library outside shown small))

abbrev report : Report
report = record { tunnel_id = "first"; bytes_in = some (number (pos 10)); bytes_out = none }

abbrev reporting : Request
reporting = record (Data.request "POST" "/api/tunnels/traffic" none) {
  reading = record (reading none) { reports = some (report ∷ []) };
}

abbrev row : TunnelRow
row = record { tunnel = first; server_node = none; client_node = none }

report_lost_example :
    let p = polling false (row ∷ []) in
    get_tunnel "first"
      (collect_next counts (route_request outside shown reporting world) p).world.db
    ≡ get_tunnel "first" (collect_next counts world p).world.db
unfolding counted target_of post_target port_list is_space storable fits
report_lost_example =
    report_lost outside shown reporting (report ∷ []) refl refl counts world false row []
      {x = (pos 500, pos 70)} refl refl

-- A peer that connects and sends nothing is answered after the deadline.
abbrev mute : Connection
mute = record { peer = "1.2.3.4"; lines = []; silent = true; body = "" }

abbrev asked : Panel
asked = serve library outside shown mute woken

counters-Calm_example :
    Grown
      (counters "first" panel)
      (counters "first" (collect_next counts asked.world asked.phase).world.db)
unfolding handle_client act_on read_request read_connection collect_next
counters-Calm_example =
    counters-Calm world {u = collect_next counts asked.world asked.phase} "first" panel-IsValid (
      turn {t = asked}
        (quiet {t = woken} (turn {t = sleeping} calm counts) library outside shown mute (λ j. refl))
        counts)

abbrev hub : Hub
hub = enter 5 (enter 3 (record { connected = []; sent = [] }))

broadcast_ws-reach_example :
    let h' = broadcast_ws (eqb 3) (65 ∷ []) hub in
    let takes_part = contains hub.connected 3 && eqb 3 3 in
    (received 3 h'.sent
      ≡ received 3 hub.sent ++ (if takes_part then encode_ws_frame (65 ∷ []) 1 ∷ [] else []))
    × (contains h'.connected 3 ≡ takes_part)
broadcast_ws-reach_example =
    broadcast_ws-reach (eqb 3) (65 ∷ []) hub 3
      (then_step (then_step none_yet (entered 3)) (entered 5))

-- The second dashboard raises: it gets nothing, and goes.
told_once :
    let h' = broadcast_ws (eqb 3) (65 ∷ []) hub in
    (h'.connected ≡ 3 ∷ [])
    × (received 3 h'.sent ≡ (129 ∷ 1 ∷ 65 ∷ []) ∷ [])
    × (received 5 h'.sent ≡ [])
unfolding enter broadcast_ws received contains
told_once = (refl, refl, refl)
