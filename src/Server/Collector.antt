-- ===== src/Server/Collector.antt =====
-- One pass of `background_traffic_collector` in app/server.py. What `ss` counts on a set of ports is
-- the answer of the machine.
pub mod Laws
use hawal.Base.{String, Bool, true, false, not, ◌||◌, Option, none, some, List, [], ◌∷◌}
use hawal.Base.Tests.{if◌then◌else◌}
use hawal.Base.Eq.{◌==◌, string_eq}
use hawal.Base.Int.{ℤ, max_ℤ, eqb_ℤ}
use hawal.Base.Result.{Result, ok, err}
use hawal.Db.{Tunnel, Db}
use hawal.Db.Tunnels.{TunnelRow, list_tunnels, set_tunnel_absolute_traffic}
use hawal.Engine.Ports.{port_list}

-- The new counters of a tunnel, if they are to be stored.
abbrev pub grown : Tunnel → Option (ℤ × ℤ) → Option (ℤ × ℤ)
grown tun none = none
grown tun (some (cur_rcvd, cur_sent)) =
    let new_in = max_ℤ tun.bytes_in cur_rcvd in
    let new_out = max_ℤ tun.bytes_out cur_sent in
    if not (eqb_ℤ new_in tun.bytes_in) || not (eqb_ℤ new_out tun.bytes_out)
    then some (new_in, new_out)
    else none

-- `count` answers none where the command raises.
abbrev pub count_ports : (List ℤ → Option (ℤ × ℤ)) → List ℤ → Option (ℤ × ℤ)
count_ports count [] = none
count_ports count (p ∷ ps) = count (p ∷ ps)

unfoldable pub counted : (List ℤ → Option (ℤ × ℤ)) → Tunnel → Option (ℤ × ℤ)
counted count tun =
    if tun.core_type == "paqet"
    then none
    else grown tun (count_ports count (port_list tun.ports tun.core_port))

-- A write that raises is passed over.
abbrev pub kept : Result Db → Bool × Db → Bool × Db
kept (ok db) s = (true, db)
kept (err x) s = s

abbrev pub stored : String → Option (ℤ × ℤ) → Bool × Db → Bool × Db
stored tun_id none s = s
stored tun_id (some (new_in, new_out)) s =
    kept (set_tunnel_absolute_traffic tun_id new_in new_out s.1) s

-- The loop, with `changed`.
unfoldable pub collect_all : (List ℤ → Option (ℤ × ℤ)) → List TunnelRow → Bool × Db → Bool × Db
collect_all count [] s = s
collect_all count (t ∷ ts) s = collect_all count ts (stored t.tunnel.id (counted count t.tunnel) s)

unfoldable pub collect_traffic : (List ℤ → Option (ℤ × ℤ)) → Db → Bool × Db
collect_traffic count db = collect_all count (list_tunnels db) (false, db)
