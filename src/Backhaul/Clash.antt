-- ===== src/Backhaul/Clash.antt =====
-- No two tunnels listen on one port of one server node, as long as ports are checked.
use hawal.Base.{eq_iff, ℕ, String, ◌≡◌, refl, ◌∙◌, ap, arith, Bool, true, false, ◌||◌, not}
use hawal.Base.{Option, none, some, List, [], ◌∷◌, ◌++◌, map, inl, inr}
use hawal.Base.Tests.{Bool-cases, Option-cases}
use hawal.Base.Eq.{◌==◌, string_eq}
use hawal.Base.Int.{ℤ}
use hawal.Base.Rows.{find_row, upsert, update_where, delete_where, upsert_absent}
use hawal.Base.Sort.{order_by, insert_by}
use hawal.Base.Result.{ok}
use hawal.Db.{Tunnel, Db}
use hawal.Db.Tunnels.{
  TunnelArgs, tunnel_id_of, earlier, join_nodes, list_tunnels, new_tunnel, merge_tunnel, Filled,
  filled, save_tunnel, get_tunnel,
}
use hawal.Backhaul.{uses_port, scan_ports, validate_tunnel_ports}

-- Whether one of the tunnels uses the port on the node.
unfoldable pub any_uses : ℤ → Option String → List Tunnel → Bool
any_uses p server [] = false
any_uses p server (t ∷ ts) = uses_port p server t || any_uses p server ts

-- No tunnel uses the port that another one uses on the same server node.
abbrev pub Apart : List Tunnel → Type 0
Apart [] = Unit
Apart (t ∷ ts) = (any_uses t.core_port (some t.server_node_id) ts ≡ false) × Apart ts

any_uses-insert_by :
    (p : ℤ) (server : Option String) (t : Tunnel) (ts : List Tunnel)
    → any_uses p server (insert_by earlier t ts) ≡ (uses_port p server t || any_uses p server ts)
unfolding any_uses insert_by
any_uses-insert_by p server t [] = refl
any_uses-insert_by p server t (u ∷ us) = ground (arith, any_uses-insert_by p server t us)

any_uses-order_by :
    (p : ℤ) (server : Option String) (ts : List Tunnel)
    → any_uses p server (order_by earlier ts) ≡ any_uses p server ts
unfolding order_by any_uses
any_uses-order_by p server [] = refl
any_uses-order_by p server (t ∷ ts) =
    any_uses-insert_by p server t (order_by earlier ts)
    ∙ ap (λ b. uses_port p server t || b) (any_uses-order_by p server ts)

scan_ports-any_uses :
    (p : ℤ) (server : Option String) (db : Db) (ts : List Tunnel)
    → (scan_ports p server none (map (join_nodes db) ts)).0 ≡ not (any_uses p server ts)
unfolding scan_ports any_uses join_nodes
scan_ports-any_uses p server db [] = refl
scan_ports-any_uses p server db (t ∷ ts) = ground (arith, scan_ports-any_uses p server db ts)

-- A port passes exactly if no tunnel of the table, running or not, uses it on the node.
pub validate_tunnel_ports_exact :
    (p : ℤ) (server : Option String) (db : Db)
    → (validate_tunnel_ports p server none db).0 ≡ not (any_uses p server db.tunnels)
unfolding validate_tunnel_ports list_tunnels
validate_tunnel_ports_exact p server db =
    scan_ports-any_uses p server db (order_by earlier db.tunnels)
    ∙ ap not (any_uses-order_by p server db.tunnels)

any_uses-snoc :
    (p : ℤ) (server : Option String) (t : Tunnel) (ts : List Tunnel)
    → any_uses p server (ts ++ t ∷ []) ≡ (any_uses p server ts || uses_port p server t)
unfolding any_uses
any_uses-snoc p server t [] = ground arith
any_uses-snoc p server t (u ∷ us) = ground (arith, any_uses-snoc p server t us)

uses_port_comm :
    (t u : Tunnel)
    → uses_port t.core_port (some t.server_node_id) u
      ≡ uses_port u.core_port (some u.server_node_id) t
uses_port_comm t u = ground (
  arith,
  string_eq.same_iff u.server_node_id t.server_node_id,
  string_eq.same_iff t.server_node_id u.server_node_id,
)

Apart-snoc :
    (t : Tunnel) (ts : List Tunnel)
    → Apart ts
    → any_uses t.core_port (some t.server_node_id) ts ≡ false
    → Apart (ts ++ t ∷ [])
unfolding any_uses
Apart-snoc t [] a h = (refl, tt)
Apart-snoc t (u ∷ us) a h = (
  ground (arith, a.0, any_uses-snoc u.core_port (some u.server_node_id) t us, uses_port_comm t u),
  Apart-snoc t us a.1 (ground arith),
)

filled-server :
    (a : TunnelArgs) {f : Filled} → filled a ≡ some f → a.server_node_id ≡ some f.server_node_id
unfolding filled
filled-server a {f} h = ground (arith, h)

-- A checked tunnel under a new id keeps the ports of each node apart.
pub save_tunnel-Apart :
    (a : TunnelArgs) (now : ℕ) (db : Db) {db' : Db}
    → get_tunnel a.id db ≡ none
    → (validate_tunnel_ports a.core_port a.server_node_id none db).0 ≡ true
    → Apart db.tunnels
    → save_tunnel a now db ≡ ok db'
    → Apart db'.tunnels
unfolding save_tunnel get_tunnel
save_tunnel-Apart a now db {db'} fresh valid apart h = elim (Option-cases (filled a)) [
  | inl e ↦ absurd (ground arith)
  | inr (f, e) ↦
      let row = new_tunnel a f now in
      let free : any_uses a.core_port (some f.server_node_id) db.tunnels ≡ false =
        ground
          (arith, filled-server a e, validate_tunnel_ports_exact a.core_port a.server_node_id db) in
      let ts = upsert tunnel_id_of row (merge_tunnel row) db.tunnels in
      let same : db'.tunnels ≡ ts = ground arith in
      rw (same, upsert_absent tunnel_id_of row (merge_tunnel row) db.tunnels fresh)
        (Apart-snoc row db.tunnels apart free)
]

any_uses-update_where :
    (p : ℤ) (server : Option String) (i : String) (f : Tunnel → Tunnel)
    → ((t : Tunnel) → uses_port p server (f t) ≡ uses_port p server t)
    → (ts : List Tunnel)
    → any_uses p server (update_where tunnel_id_of i f ts) ≡ any_uses p server ts
unfolding any_uses update_where
any_uses-update_where p server i f same [] = refl
any_uses-update_where p server i f same (t ∷ ts) =
    ground (arith, same t, any_uses-update_where p server i f same ts)

same_use :
    (p : ℤ) (s : Option String) (t u : Tunnel)
    → t.core_port ≡ u.core_port
    → t.server_node_id ≡ u.server_node_id
    → uses_port p s t ≡ uses_port p s u
same_use p s t u h k = rw (h, k)

-- An edit that leaves the port and the server node alone keeps the ports apart.
pub Apart-update_where :
    (i : String) (f : Tunnel → Tunnel)
    → ((t : Tunnel) → (f t).core_port ≡ t.core_port)
    → ((t : Tunnel) → (f t).server_node_id ≡ t.server_node_id)
    → (ts : List Tunnel) → Apart ts
    → Apart (update_where tunnel_id_of i f ts)
unfolding update_where
Apart-update_where i f port server [] a = tt
Apart-update_where i f port server (t ∷ ts) a =
    let same =
      λ (p : ℤ) (s : Option String) (x : Tunnel). same_use p s (f x) x (port x) (server x) in
    let e =
      any_uses-update_where t.core_port (some t.server_node_id) i f
        (same t.core_port (some t.server_node_id)) ts in
    (ground (arith, e, a.0, port t, server t), Apart-update_where i f port server ts a.1)

any_uses-delete_where :
    (p : ℤ) (server : Option String) (i : String) (ts : List Tunnel)
    → any_uses p server ts ≡ false
    → any_uses p server (delete_where tunnel_id_of i ts) ≡ false
unfolding any_uses delete_where
any_uses-delete_where p server i [] h = refl
any_uses-delete_where p server i (t ∷ ts) h = ground (arith, any_uses-delete_where p server i ts)

pub Apart-delete_where :
    (i : String) (ts : List Tunnel) → Apart ts → Apart (delete_where tunnel_id_of i ts)
unfolding delete_where
Apart-delete_where i [] a = tt
Apart-delete_where i (t ∷ ts) a = elim (Bool-cases (t.id == i)) [
  | inl e ↦ rw e (Apart-delete_where i ts a.1)
  | inr e ↦ rw e (
    any_uses-delete_where t.core_port (some t.server_node_id) i ts a.0,
    Apart-delete_where i ts a.1,
  )
]

any_uses-find_row :
    (p : ℤ) (server : Option String) (j : String) (ts : List Tunnel) {u : Tunnel}
    → any_uses p server ts ≡ false
    → find_row tunnel_id_of j ts ≡ some u
    → uses_port p server u ≡ false
unfolding any_uses find_row
any_uses-find_row p server j [] h e = cc
any_uses-find_row p server j (t ∷ ts) {u} h e =
    ground (arith, any_uses-find_row p server j ts {u = u})

-- Of two tunnels under different ids neither uses the port of the other.
pub Apart-find_row :
    (i j : String) (ts : List Tunnel) {t u : Tunnel}
    → Apart ts
    → find_row tunnel_id_of i ts ≡ some t
    → find_row tunnel_id_of j ts ≡ some u
    → (i == j) ≡ false
    → uses_port t.core_port (some t.server_node_id) u ≡ false
unfolding find_row
Apart-find_row i j [] a e f ne = cc
Apart-find_row i j (x ∷ xs) {t} {u} a e f ne = ground (
  arith,
  Apart-find_row i j xs {t = t} {u = u} a.1,
  any_uses-find_row x.core_port (some x.server_node_id) j xs {u = u} a.0,
  any_uses-find_row x.core_port (some x.server_node_id) i xs {u = t} a.0,
  uses_port_comm x t,
  eq_iff x.id i,
  eq_iff x.id j,
  eq_iff i j,
)
