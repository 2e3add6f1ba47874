-- ===== src/Server/Panel/Lost.antt =====
-- A traffic report that comes in while the collector waits.
use mathlib.Core.Option
use hawal.Base.{String, ◌≡◌, refl, ap, ◌∙◌, Bool, true, Option, none, some, List, ◌∷◌}
use hawal.Base.Eq.{string_eq, same_refl}
use hawal.Base.Int.{ℤ}
use hawal.Db.{Db, Tunnel}
use hawal.Db.Sqlite.{storable}
use hawal.Db.Tunnels.{TunnelRow, get_tunnel, put_traffic}
use hawal.Base.Result.{Result, ok, err}
use hawal.Server.{World, Body, ◌>>=◌, ◌>>◌, parsed, pure, send_json, guarded, continue, caught}
use hawal.Server.Tunnels.{Report, add_reports, post_traffic}
use hawal.Server.Tunnels.Traffic.{IsTraffic, add_reports-Counted}
use hawal.Server.Collector.{counted, stored}
use hawal.Server.Collector.Laws.{get_tunnel-stored}
use hawal.Server.Route.{Request, Outside, run_target, route_request}
use hawal.Ping.{PingResult}
use hawal.Server.Route.Dispatch.{Target, target_of}
use hawal.Server.Panel.{polling, collect_next}

answered :
    (a : Result (Unit {0})) (w : World)
    → let (b, w') = continue (λ _. send_json 200 Body.success) a w in (caught b w').db ≡ w.db
unfolding send_json
answered (ok a) w = refl
answered (err x) w = refl

stores :
    (i : String) (x y : ℤ) (changed : Bool) (db : Db)
    → storable x y ≡ true
    → get_tunnel i (stored i (some (x, y)) (changed, db)).1
      ≡ Option.map (put_traffic x y) (get_tunnel i db)
stores i x y changed db s =
    get_tunnel-stored i i (some (x, y)) (changed, db) ∙ rw (same_refl i, s) refl

module _ (o : Outside) (show : PingResult → Body) (r : Request) (reports : List Report)
    (is_report : target_of r.method r.path ≡ Target.report_traffic)
    (read : r.reading.reports ≡ some reports) where
  -- The database after the request is that after the loop.
  served : (w : World) → (route_request o show r w).db ≡ (add_reports reports w).1.db
  unfolding route_request run_target post_traffic guarded ◌>>=◌ ◌>>◌ parsed pure
  served w = rw (is_report, read) (let (a, w') = add_reports reports w in answered a w')

  forgets :
      (x y : ℤ) (f : Tunnel → Tunnel)
      → IsTraffic f
      → (t : Option Tunnel)
      → Option.map (put_traffic x y) (Option.map f t) ≡ Option.map (put_traffic x y) t
  forgets x y f h none = refl
  forgets x y f h (some t) = ap some (h x y t)

  overwritten :
      (i : String) (x y : ℤ) (changed : Bool) (w : World)
      → storable x y ≡ true
      → get_tunnel i (stored i (some (x, y)) (changed, (route_request o show r w).db)).1
        ≡ get_tunnel i (stored i (some (x, y)) (changed, w.db)).1
  overwritten i x y changed w s =
      let (f, h, e) = add_reports-Counted reports i w in
      rw
        (
          stores i x y changed (route_request o show r w).db s,
          stores i x y changed w.db s,
          served w,
          e,
        )
        (forgets x y f h (get_tunnel i w.db))

  -- The counters that an agent reports while the collector waits for `ss` at a tunnel are lost where
  -- the collector then stores what it counted, two numbers of 64 bits: after its turn the row of the tunnel is what it would
  -- have been without the request, whatever bytes the request had added to it.
  pub report_lost :
      (count : List ℤ → Option (ℤ × ℤ)) (w : World) (changed : Bool) (t : TunnelRow)
      (ts : List TunnelRow) {x : ℤ × ℤ}
      → counted count t.tunnel ≡ some x
      → storable x.0 x.1 ≡ true
      → let p = polling changed (t ∷ ts) in
        get_tunnel t.tunnel.id (collect_next count (route_request o show r w) p).world.db
        ≡ get_tunnel t.tunnel.id (collect_next count w p).world.db
  unfolding collect_next
  report_lost count w changed t ts {x} e s = rw e (overwritten t.tunnel.id x.0 x.1 changed w s)
