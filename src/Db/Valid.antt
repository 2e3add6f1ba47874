-- ===== src/Db/Valid.antt =====
-- The keys of the tables are unique and the logs are short, and each writing operation keeps that.
use hawal.Base.{ℕ, String, not, ◌&&◌, ◌≡◌, refl, arith, inl, inr}
use mathlib.Core.Path.{subst}
use hawal.Base.{Option, List, [], ◌∷◌, map}
use hawal.Base.Tests.{Bool-cases, Option-cases}
use hawal.Base.Eq.{string_eq, key2_eq}
use hawal.Base.Int.{ℤ}
use hawal.Base.Lists.{contains, Distinct, All}
use hawal.Base.Rows.{update_where, upsert, map-update_where, Distinct-upsert, Distinct-delete_where}
use hawal.Base.Result.{ok}
use hawal.Db.{Node, Tunnel, Snapshot, PingRow, Db, snapshot_key, init_db}
use hawal.Db.Nodes.{
  node_id_of, token_of, Geo, Metrics, new_node, merge_node, save_node, beat, update_node_heartbeat,
  delete_node, bump_agent, request_all_agents_restart,
}
use hawal.Db.Tunnels.{
  tunnel_id_of, TunnelArgs, new_tunnel, merge_tunnel, both, filled, save_tunnel, edit_tunnel,
  add_traffic, put_traffic, update_tunnel, request_tunnel_restart, update_tunnel_traffic,
  set_tunnel_absolute_traffic, set_tunnel_status, delete_tunnel,
}
use hawal.Db.Logs.{save_snapshot, save_log_snapshots, delete_log_snapshots, selected}
use hawal.Db.Logs.Laws.{
  IsShort, save_snapshot-IsShort, save_snapshot-Distinct, save_log_snapshots-induction, All-keep,
  Distinct-keep,
}
use hawal.Db.Pings.{record_ping}

pub record IsValid (db : Db) : Type 0 where
  pub node_ids : Distinct (map node_id_of db.nodes)
  pub node_tokens : Distinct (map token_of db.nodes)
  pub tunnel_ids : Distinct (map tunnel_id_of db.tunnels)
  pub snapshot_keys : Distinct (map snapshot_key db.log_snapshots)
  pub short_logs : All IsShort db.log_snapshots

pub IsValid-init_db : IsValid init_db
IsValid-init_db = record {
  node_ids = tt;
  node_tokens = tt;
  tunnel_ids = tt;
  snapshot_keys = tt;
  short_logs = tt;
}

map-bump_agent {κ} :
    {B : Type κ} (g : Node → B)
    → ((n : Node) → g (bump_agent n) ≡ g n)
    → (ns : List Node) → map g (map bump_agent ns) ≡ map g ns
map-bump_agent g h [] = refl
map-bump_agent g h (n ∷ ns) = ground (arith, h n, map-bump_agent g h ns)

save_snapshot-IsValid :
    (node_id source content : String) (now : ℕ) (db : Db)
    → IsValid db
    → IsValid (save_snapshot node_id source content now db)
unfolding save_snapshot
save_snapshot-IsValid node_id source content now db v = record {
  node_ids = v.node_ids;
  node_tokens = v.node_tokens;
  tunnel_ids = v.tunnel_ids;
  snapshot_keys = save_snapshot-Distinct node_id source content now db v.snapshot_keys;
  short_logs = save_snapshot-IsShort node_id source content now db v.short_logs;
}

module _ (a : String) (m : Metrics) (g : Option Geo) (now : ℕ) where
  same_id : (n : Node) → node_id_of (beat a m g now n) ≡ node_id_of n
  unfolding beat
  same_id n = ground arith

  same_token : (n : Node) → token_of (beat a m g now n) ≡ token_of n
  unfolding beat
  same_token n = ground arith

module _ (db : Db) (v : IsValid db) where
  with_nodes :
      (ns : List Node)
      → Distinct (map node_id_of ns)
      → Distinct (map token_of ns)
      → IsValid (record db { nodes = ns })
  with_nodes ns ids tokens = record {
    node_ids = ids;
    node_tokens = tokens;
    tunnel_ids = v.tunnel_ids;
    snapshot_keys = v.snapshot_keys;
    short_logs = v.short_logs;
  }

  with_tunnels :
      (ts : List Tunnel) → Distinct (map tunnel_id_of ts) → IsValid (record db { tunnels = ts })
  with_tunnels ts ids = record {
    node_ids = v.node_ids;
    node_tokens = v.node_tokens;
    tunnel_ids = ids;
    snapshot_keys = v.snapshot_keys;
    short_logs = v.short_logs;
  }

  with_logs :
      (ls : List Snapshot)
      → Distinct (map snapshot_key ls)
      → All IsShort ls
      → IsValid (record db { log_snapshots = ls })
  with_logs ls keys short = record {
    node_ids = v.node_ids;
    node_tokens = v.node_tokens;
    tunnel_ids = v.tunnel_ids;
    snapshot_keys = keys;
    short_logs = short;
  }

  edit-IsValid :
      (i : String) (f : Tunnel → Tunnel)
      → ((t : Tunnel) → tunnel_id_of (f t) ≡ tunnel_id_of t)
      → IsValid (record db { tunnels = update_where tunnel_id_of i f db.tunnels })
  edit-IsValid i f keeps =
      with_tunnels _
        (rw (map-update_where tunnel_id_of tunnel_id_of i f keeps db.tunnels) v.tunnel_ids)

  -- A token is new, or belongs to the row that is there.
  pub save_node-IsValid :
      (i n a r t : String) (g : Geo) (now : ℕ) {db' : Db}
      → save_node i n a r t g now db ≡ ok db'
      → IsValid db'
  unfolding save_node
  save_node-IsValid i n a r t g now {db'} h =
      let row = new_node i n a r t g now in
      let taken = contains (map token_of db.nodes) t in
      elim (Bool-cases (not (contains (map node_id_of db.nodes) i) && taken)) [
        | inl e ↦ absurd (ground arith)
        | inr e ↦ subst IsValid (ground arith) (
            with_nodes (upsert node_id_of row (merge_node row) db.nodes)
              (Distinct-upsert node_id_of node_id_of row (merge_node row) (λ x. refl) db.nodes
                (λ k. k) v.node_ids)
              (Distinct-upsert node_id_of token_of row (merge_node row) (λ x. refl) db.nodes
                (λ k. ground arith) v.node_tokens))
      ]

  pub update_node_heartbeat-IsValid :
      (i a : String) (m : Metrics) (g : Option Geo) (now : ℕ)
      → IsValid (update_node_heartbeat i a m g now db)
  unfolding update_node_heartbeat
  update_node_heartbeat-IsValid i a m g now =
      with_nodes _
        (rw (map-update_where node_id_of node_id_of i (beat a m g now) (same_id a m g now) db.nodes)
          v.node_ids)
        (rw
          (map-update_where node_id_of token_of i (beat a m g now) (same_token a m g now) db.nodes)
          v.node_tokens)

  pub delete_node-IsValid : (i : String) → IsValid (delete_node i db)
  unfolding delete_node
  delete_node-IsValid i =
      with_nodes _ (Distinct-delete_where node_id_of node_id_of i db.nodes v.node_ids)
        (Distinct-delete_where node_id_of token_of i db.nodes v.node_tokens)

  pub request_all_agents_restart-IsValid : IsValid (request_all_agents_restart db).1
  unfolding request_all_agents_restart
  request_all_agents_restart-IsValid =
      with_nodes _ (rw (map-bump_agent node_id_of (λ n. refl) db.nodes) v.node_ids)
        (rw (map-bump_agent token_of (λ n. refl) db.nodes) v.node_tokens)

  pub save_tunnel-IsValid :
      (a : TunnelArgs) (now : ℕ) {db' : Db} → save_tunnel a now db ≡ ok db' → IsValid db'
  unfolding save_tunnel
  save_tunnel-IsValid a now {db'} h = elim (Option-cases (filled a)) [
    | inl e ↦ absurd (ground arith)
    | inr (f, e) ↦
        let row = new_tunnel a f now in
        subst IsValid (ground arith) (
          with_tunnels (upsert tunnel_id_of row (merge_tunnel row) db.tunnels) (
            Distinct-upsert tunnel_id_of tunnel_id_of row (merge_tunnel row) (λ x. refl) db.tunnels
              (λ k. k) v.tunnel_ids))
  ]

  pub save_log_snapshots-IsValid :
      (i : String) (l : List (String × String)) (now : ℕ) → IsValid (save_log_snapshots i l now db)
  save_log_snapshots-IsValid i l now =
      save_log_snapshots-induction IsValid i now
        (λ source content d w. save_snapshot-IsValid i source content now d w) l db v

  pub update_tunnel-IsValid :
      (i n : String) (p : ℤ) (t : Option String) (ps : List String) (c : Option String) {db' : Db}
      → update_tunnel i n p t ps c db ≡ ok db'
      → IsValid db'
  unfolding update_tunnel
  update_tunnel-IsValid i n p t ps c {db'} h = elim (Option-cases (both t c)) [
    | inl e ↦ subst IsValid (ground arith) v
    | inr (k, e) ↦
        subst IsValid (ground arith) (edit-IsValid i (edit_tunnel n p k.0 ps k.1) (λ x. refl))
  ]

  pub request_tunnel_restart-IsValid : (i : String) → IsValid (request_tunnel_restart i db).1
  unfolding request_tunnel_restart
  request_tunnel_restart-IsValid i = edit-IsValid i _ (λ x. refl)

  pub update_tunnel_traffic-IsValid :
      (i : String) (a b : ℤ) {db' : Db} → update_tunnel_traffic i a b db ≡ ok db' → IsValid db'
  unfolding update_tunnel_traffic
  update_tunnel_traffic-IsValid i a b {db'} h =
      subst IsValid (ground arith) (edit-IsValid i (add_traffic a b) (λ x. refl))

  pub set_tunnel_absolute_traffic-IsValid :
      (i : String) (a b : ℤ) {db' : Db}
      → set_tunnel_absolute_traffic i a b db ≡ ok db'
      → IsValid db'
  unfolding set_tunnel_absolute_traffic
  set_tunnel_absolute_traffic-IsValid i a b {db'} h =
      subst IsValid (ground arith) (edit-IsValid i (put_traffic a b) (λ x. refl))

  pub set_tunnel_status-IsValid : (i s : String) → IsValid (set_tunnel_status i s db)
  unfolding set_tunnel_status
  set_tunnel_status-IsValid i s = edit-IsValid i _ (λ x. refl)

  pub delete_tunnel-IsValid : (i : String) → IsValid (delete_tunnel i db)
  unfolding delete_tunnel
  delete_tunnel-IsValid i =
      with_tunnels _ (Distinct-delete_where tunnel_id_of tunnel_id_of i db.tunnels v.tunnel_ids)

  pub delete_log_snapshots-IsValid : (n s : Option String) → IsValid (delete_log_snapshots n s db).1
  unfolding delete_log_snapshots
  delete_log_snapshots-IsValid n s =
      let rest = λ (x : Snapshot). not (selected n s x) in
      with_logs _ (Distinct-keep rest db.log_snapshots v.snapshot_keys)
        (All-keep rest IsShort db.log_snapshots v.short_logs)

  pub record_ping-IsValid : (p : PingRow) → IsValid (record_ping p db)
  unfolding record_ping
  record_ping-IsValid p = record {
    node_ids = v.node_ids;
    node_tokens = v.node_tokens;
    tunnel_ids = v.tunnel_ids;
    snapshot_keys = v.snapshot_keys;
    short_logs = v.short_logs;
  }
