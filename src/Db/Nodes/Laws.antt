-- ===== src/Db/Nodes/Laws.antt =====
-- What the node operations show afterwards.
use mathlib.Core.Option
use mathlib.Core.List.{Perm}
use mathlib.Core.List.Perm
use hawal.Base.{ℕ, ◌+◌, ◌≡◌, refl, ◌∙◌, arith, String, true}
use hawal.Base.{Option, none, some, List, [], ◌∷◌, map, inl, inr}
use hawal.Base.Tests.{ltb, if◌then◌else◌, Bool-cases}
use hawal.Base.Eq.{◌==◌, string_eq}
use hawal.Base.Lists.{All, Distinct}
use hawal.Base.Rows.{find_row-update_where, find_row-delete_where}
use hawal.Base.Sort.{order_by, IsOrdered, order_by-perm, order_by-IsOrdered}
use hawal.Base.{ap}
use hawal.Base.Eq.{same_refl}
use hawal.Base.Rows.{find_row, map-update_where}
use hawal.Base.Sort.Find.{find_row-order_by}
use hawal.Db.{Node, Db}
use hawal.Db.Nodes.{
  seen_status, older, list_nodes, node_id_of, get_node, Geo, Metrics, beat, update_node_heartbeat,
  delete_node,
}

created_at-seen_status : (now : ℕ) (n : Node) → (seen_status now n).created_at ≡ n.created_at
unfolding seen_status
created_at-seen_status now n = ground arith

id-seen_status : (now : ℕ) (n : Node) → (seen_status now n).id ≡ n.id
unfolding seen_status
id-seen_status now n = ground arith

All-older :
    (now : ℕ) (x : Node) (ys : List Node)
    → All (λ y. older x y ≡ true) ys
    → All (λ y. older (seen_status now x) y ≡ true) (map (seen_status now) ys)
All-older now x [] h = tt
All-older now x (y ∷ ys) h =
    (rw (created_at-seen_status now x, created_at-seen_status now y) h.0, All-older now x ys h.1)

IsOrdered-map :
    (now : ℕ) (xs : List Node) → IsOrdered older xs → IsOrdered older (map (seen_status now) xs)
IsOrdered-map now [] h = tt
IsOrdered-map now (x ∷ xs) h = (All-older now x xs h.0, IsOrdered-map now xs h.1)

-- The listing holds every row once, the oldest first, each with the status as seen now.
pub list_nodes_rows :
    (now : ℕ) (db : Db)
    → Perm (list_nodes now db) (map (seen_status now) db.nodes)
      × IsOrdered older (list_nodes now db)
unfolding list_nodes
list_nodes_rows now db = (
  Perm.map (seen_status now) (order_by-perm older db.nodes),
  IsOrdered-map now (order_by older db.nodes)
      (order_by-IsOrdered older (λ x y h. ground arith) (λ x y z h k. ground arith) db.nodes),
)

same_id :
    (a : String) (m : Metrics) (g : Option Geo) (now : ℕ) (n : Node)
    → node_id_of (beat a m g now n) ≡ node_id_of n
unfolding beat
same_id a m g now n = ground arith

-- A heartbeat changes the row of its node and no other row.
pub get_node-update_node_heartbeat :
    (i j a : String) (m : Metrics) (g : Option Geo) (now : ℕ) (db : Db)
    → get_node j (update_node_heartbeat i a m g now db)
      ≡ (if i == j then Option.map (beat a m g now) (get_node j db) else get_node j db)
unfolding get_node update_node_heartbeat
get_node-update_node_heartbeat i j a m g now db =
    find_row-update_where node_id_of i j (beat a m g now) (same_id a m g now) db.nodes

beats-Distinct :
    (i a : String) (m : Metrics) (sent : ℕ) (db : Db)
    → Distinct (map node_id_of db.nodes)
    → Distinct (map node_id_of (update_node_heartbeat i a m none sent db).nodes)
unfolding update_node_heartbeat
beats-Distinct i a m sent db d =
    rw
      (map-update_where node_id_of node_id_of i (beat a m none sent) (same_id a m none sent)
        db.nodes)
      d

find_row-shown :
    (now : ℕ) (i : String) (ns : List Node)
    → find_row node_id_of i (map (seen_status now) ns)
      ≡ Option.map (seen_status now) (find_row node_id_of i ns)
unfolding find_row seen_status
find_row-shown now i [] = refl
find_row-shown now i (n ∷ ns) = elim (Bool-cases (n.id == i)) [
  | inl e ↦ rw (id-seen_status now n, e) refl
  | inr e ↦ rw (id-seen_status now n, e) (find_row-shown now i ns)
]

-- The row of a node that is listed at time `now`, after a heartbeat at time `sent`.
abbrev pub shown_beat : String → Metrics → ℕ → ℕ → Node → Node
shown_beat ip m sent now n = record n {
  ip = ip;
  cpu_percent = m.cpu_percent;
  ram_used_mb = m.ram_used_mb;
  ram_total_mb = m.ram_total_mb;
  uptime_seconds = m.uptime_seconds;
  last_seen = sent;
  status = if ltb (sent + 15000000) now then "offline" else "online";
}

seen_status-beat :
    (a : String) (m : Metrics) (sent now : ℕ) (n : Node)
    → seen_status now (beat a m none sent n) ≡ shown_beat a m sent now n
unfolding seen_status beat
seen_status-beat a m sent now n = elim (Bool-cases (ltb (sent + 15000000) now)) [
  | inl e ↦ rw e refl
  | inr e ↦ rw e refl
]

-- With unique node ids, a node whose heartbeat is stored at time `sent` is in the list of nodes at
-- time `now`, as offline if more than 15 seconds have passed and as online else, with the address and
-- the load that it sent and the rest of its row as before; and where there is no such node, none is
-- listed.
pub list_nodes-heartbeat :
    (i a : String) (m : Metrics) (sent now : ℕ) (db : Db)
    → Distinct (map node_id_of db.nodes)
    → find_row node_id_of i (list_nodes now (update_node_heartbeat i a m none sent db))
      ≡ Option.map (shown_beat a m sent now) (get_node i db)
unfolding list_nodes
list_nodes-heartbeat i a m sent now db d =
    let db' = update_node_heartbeat i a m none sent db in
    find_row-shown now i (order_by older db'.nodes)
    ∙ ap (Option.map (seen_status now)) (
        find_row-order_by node_id_of older db'.nodes i (beats-Distinct i a m sent db d) ∙ found db')
    ∙ ap (Option.map (seen_status now))
        (get_node-update_node_heartbeat i i a m none sent db ∙ rw (same_refl i) refl)
    ∙ each (get_node i db)
  where
    found : (db' : Db) → find_row node_id_of i db'.nodes ≡ get_node i db'
    found db' = unfold get_node in refl

    each :
        (o : Option Node)
        → Option.map (seen_status now) (Option.map (beat a m none sent) o)
          ≡ Option.map (shown_beat a m sent now) o
    each none = refl
    each (some n) = ap some (seen_status-beat a m sent now n)

-- A deleted node is not found, by its id, and every other one still is.
pub get_node-delete_node :
    (i j : String) (db : Db)
    → get_node j (delete_node i db) ≡ (if i == j then none else get_node j db)
unfolding get_node delete_node
get_node-delete_node i j db = find_row-delete_where node_id_of i j db.nodes
