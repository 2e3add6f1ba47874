-- ===== src/Server/Panel/Safety.antt =====
-- What holds in every state of the panel, however requests and collector are interleaved.
use hawal.Base.{String, Option, none, some, [], ◌∷◌, true, false, Bool, List}
use hawal.Base.Int.{ℤ}
use hawal.Base.Result.{Result-cases}
use hawal.Db.{Db}
use hawal.Db.Tunnels.{set_tunnel_absolute_traffic}
use hawal.Db.Valid.{IsValid, set_tunnel_absolute_traffic-IsValid}
use hawal.Server.{World}
use hawal.Server.Collector.{counted, stored}
use hawal.Server.Client.Limits.{handle_client-IsValid}
use hawal.Server.Panel.{
  Phase, asleep, polling, Panel, told, collect_next, Step, collector, request, Reach, here, later,
}

stored-IsValid :
    (i : String) (o : Option (ℤ × ℤ)) (changed : Bool) (db : Db)
    → IsValid db
    → IsValid (stored i o (changed, db)).1
stored-IsValid i none changed db v = v
stored-IsValid i (some (a, b)) changed db v =
    Result-cases (set_tunnel_absolute_traffic i a b db)
      (IsValid (stored i (some (a, b)) (changed, db)).1)
      (λ db' e. rw e (set_tunnel_absolute_traffic-IsValid db v i a b e)) (λ x e. rw e v)

told-IsValid : (changed : Bool) (w : World) → IsValid w.db → IsValid (told changed w).db
told-IsValid true w v = v
told-IsValid false w v = v

pub collect_next-IsValid :
    (count : List ℤ → Option (ℤ × ℤ)) (w : World) (p : Phase)
    → IsValid w.db
    → IsValid (collect_next count w p).world.db
unfolding collect_next
collect_next-IsValid count w asleep v = v
collect_next-IsValid count w (polling changed []) v = told-IsValid changed w v
collect_next-IsValid count w (polling changed (t ∷ ts)) v =
    stored-IsValid t.tunnel.id (counted count t.tunnel) changed w.db v

Step-IsValid : {s u : Panel} → Step s u → IsValid s.world.db → IsValid u.world.db
Step-IsValid {s} (collector count) v = collect_next-IsValid count s.world s.phase v
Step-IsValid {s} (request l o show c) v = handle_client-IsValid l c o show s.world v

-- However connections and the turns of the collector are interleaved, whatever the peers send and
-- whatever fails in a handler, a run from a state with a valid database never leaves the valid ones:
-- node ids, node tokens, tunnel ids and the keys of log snapshots stay unique, and no stored log is
-- longer than 24,000 characters.
pub Reach-IsValid : {s u : Panel} → IsValid s.world.db → Reach s u → IsValid u.world.db
Reach-IsValid v here = v
Reach-IsValid v (later r step) = Step-IsValid step (Reach-IsValid v r)
