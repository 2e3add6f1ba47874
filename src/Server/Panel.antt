-- ===== src/Server/Panel.antt =====
-- The server of app/server.py at work: the requests of `handle_client` and the background task
-- `background_traffic_collector`, interleaved. The collector reads the rows once and waits for `ss`
-- at each tunnel; while it waits, requests run. A request is one step.
pub mod Safety
pub mod Pass
pub mod Lost
pub mod Calm
use hawal.Base.{Bool, true, false, Option, List, [], ◌∷◌, ◌++◌}
use hawal.Base.Tests.{if◌then◌else◌}
use hawal.Base.Int.{ℤ}
use hawal.Db.Tunnels.{TunnelRow, list_tunnels}
use hawal.Server.{World, Event, Body}
use hawal.Server.Collector.{counted, stored}
use hawal.Server.Route.{Outside}
use hawal.Ping.{PingResult}
use hawal.Server.Client.{Connection, Library, handle_client}

-- Where the collector stands: in its sleep, or in its loop, with `changed` and the rows that are
-- left of the ones that it read.
pub data Phase : Type 0 where
  asleep : Phase
  polling : Bool → List TunnelRow → Phase

pub record Panel : Type 0 where
  pub world : World
  pub phase : Phase

abbrev pub told : Bool → World → World
told changed w = if changed then record w { events = w.events ++ Event.tunnel_updated ∷ [] } else w

-- What the collector does between two of its waits; `count` is what `ss` counted in the wait.
unfoldable pub collect_next : (List ℤ → Option (ℤ × ℤ)) → World → Phase → Panel
collect_next count w Phase.asleep = record {
  world = w;
  phase = Phase.polling false (list_tunnels w.db);
}
collect_next count w (Phase.polling changed []) = record {
  world = told changed w;
  phase = Phase.asleep;
}
collect_next count w (Phase.polling changed (t ∷ ts)) =
    let (changed', db) = stored t.tunnel.id (counted count t.tunnel) (changed, w.db) in
    record { world = record w { db = db }; phase = Phase.polling changed' ts }

abbrev pub serve : Library → Outside → (PingResult → Body) → Connection → Panel → Panel
serve l o show c s = record s { world = handle_client l o show c s.world }

pub data Step (s : Panel) : Panel → Type 0 where
  collector : (count : List ℤ → Option (ℤ × ℤ)) → Step s (collect_next count s.world s.phase)
  request :
      (l : Library) (o : Outside) (show : PingResult → Body) (c : Connection)
      → Step s (serve l o show c s)

-- The runs from one state.
pub data Reach (s : Panel) : Panel → Type 0 where
  here : Reach s s
  later : {t u : Panel} → Reach s t → Step t u → Reach s u
