-- ===== src/Server/Panel/Pass.antt =====
-- A pass of the collector in which no request runs: its turns, one after the other.
use hawal.Base.{ℕ, zero, suc, Bool, false, ◌||◌}
use hawal.Base.{Option, none, some, List, [], ◌∷◌}
use hawal.Base.Tests.{if◌then◌else◌}
use hawal.Base.Int.{ℤ, max_ℤ}
use hawal.Base.Eq.{◌==◌, string_eq}
use hawal.Engine.Ports.{port_list}
use hawal.Db.{Tunnel, Db}
use hawal.Db.Sqlite.{storable}
use hawal.Db.Tunnels.{TunnelRow, put_traffic}
use hawal.Server.{World}
use hawal.Server.Collector.{count_ports, counted, collect_all}
use hawal.Server.Panel.{polling, Panel, collect_next}

module _ (count : List ℤ → Option (ℤ × ℤ)) where
  -- So many turns of the collector, and nothing else.
  abbrev pub turns : ℕ → Panel → Panel
  turns zero s = s
  turns (suc n) s = turns n (collect_next count s.world s.phase)

  abbrev pub is_stored : Option (ℤ × ℤ) → Bool
  is_stored none = false
  is_stored (some (a, b)) = storable a b

  -- Whether something is stored for one of the rows.
  abbrev pub any_stored : List TunnelRow → Bool
  any_stored [] = false
  any_stored (t ∷ ts) = is_stored (counted count t.tunnel) || any_stored ts

  abbrev swept : List TunnelRow → Bool × Db → World → Panel
  swept ts s w =
      let (changed, db) = collect_all count ts s in
      record { world = record w { db = db }; phase = polling changed [] }

  abbrev next : Panel → Panel
  next s = collect_next count s.world s.phase

  -- The row of a tunnel after a pass: counters that never fall, up to what `ss` counts on its ports,
  -- where `ss` is asked and answers, and the larger numbers have 64 bits.
  abbrev raised_to : ℤ → ℤ → Tunnel → Tunnel
  raised_to a b t = if storable a b then put_traffic a b t else t

  abbrev pub polled : Tunnel → Tunnel
  polled t =
      if t.core_type == "paqet"
      then t
      else elim (count_ports count (port_list t.ports t.core_port)) [
        | none ↦ t
        | some (a, b) ↦ raised_to (max_ℤ t.bytes_in a) (max_ℤ t.bytes_out b) t
      ]
