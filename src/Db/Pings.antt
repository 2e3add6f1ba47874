-- ===== src/Db/Pings.antt =====
-- The ping history of app/db.py.
use hawal.Base.{String, Bool, Option, some, List, [], ◌∷◌, ◌++◌}
use hawal.Base.Tests.{leb}
use hawal.Base.Lists.{take}
use hawal.Base.Sort.{order_by}
use hawal.Db.{Node, PingRow, Db}
use hawal.Db.Nodes.{get_node}

unfoldable pub record_ping : PingRow → Db → Db
record_ping row db = record db { ping_history = db.ping_history ++ row ∷ [] }

pub record PingView : Type 0 where
  pub ping : PingRow
  pub source_name : String
  pub source_role : String
  pub target_name : String
  pub target_role : String

-- The inner `JOIN`: a ping of a node that is gone is not shown.
abbrev join_ping : PingRow → Option Node → Option Node → List PingView → List PingView
join_ping ph (some sn) (some tn) rest =
    record {
      ping = ph;
      source_name = sn.name;
      source_role = sn.role;
      target_name = tn.name;
      target_role = tn.role;
    }
    ∷ rest
join_ping ph _ _ rest = rest

joined : Db → List PingRow → List PingView
joined db [] = []
joined db (ph ∷ rest) =
    join_ping ph (get_node ph.source_node_id db) (get_node ph.target_node_id db) (joined db rest)

abbrev pub later_ping : PingView → PingView → Bool
later_ping a b = leb b.ping.created_at a.ping.created_at

unfoldable pub get_latest_pings : Db → List PingView
unfolding joined get_node order_by
get_latest_pings db = take 20 (order_by later_ping (joined db db.ping_history))
