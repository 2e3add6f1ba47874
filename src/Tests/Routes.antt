-- ===== src/Tests/Routes.antt =====
-- The theorems on the routes, at concrete requests.
use hawal.Base.{map, ℕ, Option}
use hawal.Base.Int.{ℤ}
use hawal.Base.Lists.{Distinct, length}
use hawal.Db.Tunnels.{tunnel_id_of}
use hawal.Server.Frames.{read_length, encode_ws_frame, read_length-encode_ws_frame}
use hawal.Base.{String, ◌<>◌, ◌≡◌, ◌≢◌, refl, not, none, some, List, [], ◌∷◌, arith}
use hawal.Base.Int.{pos}
use hawal.Base.Lists.{contains}
use hawal.Base.Rows.{find_row}
use hawal.Base.Result.{ok}
use hawal.Text.{size, replace, strip}
use hawal.Base.Eq.{string_eq}
use hawal.Db.Valid.{IsValid}
use hawal.Db.Tunnels.{get_tunnel}
use hawal.Backhaul.{validate_tunnel_ports}
use hawal.Backhaul.Clash.{Apart, any_uses, validate_tunnel_ports_exact}
use hawal.Geoip.{is_local, resolve_geoip}
use hawal.Item.{Item}
use hawal.Server.{error}
use hawal.Server.Nodes.{locate}
use hawal.Server.Nodes.Laws.{IsIranian, Later, located_all, locate_relabels}
use hawal.Server.Tunnels.{
  post_tunnel, put_tunnel, default_transport, Report, Number, digits, number, or_raise, to_int,
  add_reports,
}
use hawal.Text.Decimal.{parse_int}
use hawal.Base.{◌+◌, ◌^◌}
use hawal.Db.Sqlite.{fits}
use hawal.Db.Tunnels.{put_traffic, update_tunnel_traffic}
use hawal.Server.{attempt, pure, raise, returned, ◌>>=◌, ◌>>◌}
use hawal.Server.Tunnels.Laws.{with_reply, post_tunnel_refuses, put_tunnel_clashes}
use hawal.Server.Tunnels.Traffic.{Sent, report_of, sum_for, in_of, out_of, get_tunnel-add_reports}
use hawal.Server.Agents.{header, bearer, sync_token, post_heartbeat}
use hawal.Server.Agents.Laws.{unknown_token_refused}
use hawal.Server.Sync.{get_sync, sync_item}
use hawal.Server.Sync.Roles.{acceptor, connector, Paired, sync_item-pair}
use hawal.Server.Route.{Request, route_request}
use hawal.Server.Route.Safety.{route_request-Apart}
use hawal.Tests.Data.{panel, world, first, second, outside, shown, request, tunnel_body}

pub panel-IsValid : IsValid panel
unfolding contains size
panel-IsValid = record {
  node_ids = (refl, (refl, tt));
  node_tokens = (refl, (refl, tt));
  tunnel_ids = (refl, (refl, tt));
  snapshot_keys = (refl, tt);
  short_logs = (ground arith, tt);
}

panel-Apart : Apart panel.tunnels
unfolding any_uses
panel-Apart = (refl, (refl, tt))

abbrev creation : Request
creation = request "POST" "/api/tunnels" (some (tunnel_body 3092))

id_unused : get_tunnel ("tun_" <> outside.serial) panel ≡ none
unfolding get_tunnel find_row
id_unused = refl

route_request-Apart_example : Apart (route_request outside shown creation world).db.tunnels
route_request-Apart_example =
    route_request-Apart outside shown creation world refl id_unused panel-Apart

validate_tunnel_ports_exact_example :
    (validate_tunnel_ports (pos 3091) (some "iran") none panel).0
    ≡ not (any_uses (pos 3091) (some "iran") panel.tunnels)
validate_tunnel_ports_exact_example = validate_tunnel_ports_exact (pos 3091) (some "iran") panel

post_tunnel_refuses_example : post_tunnel 7 "abcd" "secret" (some (tunnel_body 3091)) world ≡ (
  ok tt,
  with_reply 400 (error (validate_tunnel_ports (pos 3091) (some "iran") none panel).1) world,
)
unfolding any_uses
post_tunnel_refuses_example =
    post_tunnel_refuses 7 "abcd" "secret" (tunnel_body 3091) (pos 3091) world refl refl

put_tunnel_clashes_example :
    ¬ Apart (put_tunnel "first" (some (tunnel_body 3091)) world).1.db.tunnels
unfolding get_tunnel find_row fits default_transport
put_tunnel_clashes_example =
    put_tunnel_clashes "first" "second" (tunnel_body 3091) world ("stealth", "hawal") {t = first}
      {u = second} refl refl refl refl refl refl refl

abbrev sent : List Sent
sent =
    record { tunnel_id = "first"; bytes_in = 10; bytes_out = 1 }
    ∷ record { tunnel_id = "second"; bytes_in = 20; bytes_out = 2 }
    ∷ record { tunnel_id = "first"; bytes_in = 30; bytes_out = 3 }
    ∷ []

get_tunnel-add_reports_example :
    get_tunnel "first" (add_reports (map report_of sent) world).1.db
    ≡ some (
        put_traffic
          (pos (0 + sum_for in_of "first" sent))
          (pos (0 + sum_for out_of "first" sent))
          first)
unfolding get_tunnel find_row
get_tunnel-add_reports_example =
    get_tunnel-add_reports sent "first" 0 0 world first
      ((omega arith, omega arith), ((omega arith, omega arith), ((omega arith, omega arith), tt)))
      refl (omega arith) (omega arith)

-- A report that cannot be stored ends the loop, and what came before it stays.
report : String → Number → Report
report i n = record { tunnel_id = i; bytes_in = some n; bytes_out = none }

reports_end :
    get_tunnel "first"
      (add_reports
        (report "first" (digits " 30 ")
          ∷ report "first" (number (pos (2 ^ 63)))
          ∷ report "first" (number (pos 1))
          ∷ [])
        world).1.db
    ≡ some (put_traffic (pos 30) (pos 0) first)
unfolding get_tunnel find_row add_reports to_int or_raise pure returned ◌>>=◌ ◌>>◌ attempt
    update_tunnel_traffic parse_int report raise hawal.Text.is_space hawal.Base.Int.◌+ℤ◌
reports_end = refl

unknown_token_refused_example :
    (post_heartbeat 7 "1.2.3.4" [] none world
      ≡ (ok tt, with_reply 401 (error "Unauthorized node token") world))
    × (get_sync [] world ≡ (ok tt, with_reply 401 (error "unauthorized") world))
unfolding sync_token contains bearer header find_row replace strip
unknown_token_refused_example = unknown_token_refused 7 "1.2.3.4" [] none world refl

ends_differ : first.server_node_id ≢ first.client_node_id
ends_differ h =
    absurd (ground (arith, string_eq.same_iff first.server_node_id first.client_node_id))

sync_item-pair_example :
    (a : Item) × (b : Item) × (sync_item panel (acceptor first) first ≡ some a)
    × (sync_item panel (connector first) first ≡ some b)
    × Paired first a b
sync_item-pair_example = sync_item-pair panel first refl ends_differ

-- A node abroad at the same address comes after the one in Iran.
abbrev later : List Later
later = record { service = λ ip. none; ip = "9.8.7.6"; role = "kharej" } ∷ []

locate_relabels_example :
    IsIranian
      (resolve_geoip
        (λ ip. none)
        "9.8.7.6"
        (located_all later (locate (λ ip. none) "9.8.7.6" "iran" world).1).cache).0
unfolding is_local contains
locate_relabels_example = locate_relabels (λ ip. none) (λ ip. none) "9.8.7.6" later world refl

pub panel_ids : Distinct (map tunnel_id_of panel.tunnels)
unfolding contains
panel_ids = (refl, (refl, tt))

abbrev sockets : List ℤ → Option (ℤ × ℤ)
sockets ports = some (pos 100, pos 200)

abbrev hello : List ℕ
hello = 104 ∷ 105 ∷ []

read_length-encode_ws_frame_example :
    read_length (encode_ws_frame hello 1) ≡ some (length hello, hello)
read_length-encode_ws_frame_example = read_length-encode_ws_frame hello 1 (omega arith)
