-- ===== src/Db/Tunnels/Laws.antt =====
-- What the tunnel operations show afterwards.
use mathlib.Core.Option
use mathlib.Core.List.{Perm}
use mathlib.Core.List.Perm
use hawal.Base.{ℕ, zero, suc, ◌+◌, ◌≡◌, refl, ap, ◌∙◌, arith, String}
use hawal.Base.{none, some, List, map}
use hawal.Base.Tests.{if◌then◌else◌}
use hawal.Base.Eq.{◌==◌, string_eq}
use hawal.Base.Int.{ℤ}
use hawal.Base.Rows.{update_where, find_row-update_where}
use hawal.Base.Sort.{order_by-perm}
use hawal.Base.Result.{ok, err}
use hawal.Db.{Tunnel, Db}
use hawal.Base.{Option, Bool, true, false, not, ◌||◌}
use hawal.Base.Lists.{Distinct}
use hawal.Base.Rows.{find_row}
use hawal.Base.Result.{overflow_error}
use hawal.Db.Sqlite.{fits, storable}
use hawal.Db.Tunnels.Listed.{row_id, find_row-listed}
use hawal.Db.Nodes.{get_node, delete_node}
use hawal.Db.Nodes.Laws.{get_node-delete_node}
use hawal.Db.Tunnels.{
  tunnel_id_of, earlier, join_nodes, list_tunnels, get_tunnel, TunnelArgs, both, is_some, Filled,
  Endpoint, endpoint, edit_tunnel, update_tunnel, bump_tunnel, request_tunnel_restart, add_traffic,
  update_tunnel_traffic, put_status, set_tunnel_status,
}

-- The row that an `UPDATE … WHERE id = ?` leaves under an id.
pub get_tunnel-edit :
    (i j : String) (f : Tunnel → Tunnel) (db : Db)
    → ((t : Tunnel) → tunnel_id_of (f t) ≡ tunnel_id_of t)
    → get_tunnel j (record db { tunnels = update_where tunnel_id_of i f db.tunnels })
      ≡ (if i == j then Option.map f (get_tunnel j db) else get_tunnel j db)
unfolding get_tunnel
get_tunnel-edit i j f db keeps = find_row-update_where tunnel_id_of i j f keeps db.tunnels

pub get_tunnel-update_tunnel_traffic :
    (i j : String) (a b : ℤ) (db : Db)
    → storable a b ≡ true
    → (db' : Db) × (update_tunnel_traffic i a b db ≡ ok db')
      × (get_tunnel j db'
          ≡ (if i == j then Option.map (add_traffic a b) (get_tunnel j db) else get_tunnel j db))
unfolding update_tunnel_traffic
get_tunnel-update_tunnel_traffic i j a b db h =
    let db' : Db = record db {
      tunnels = update_where tunnel_id_of i (add_traffic a b) db.tunnels;
    } in
    (db', rw h refl, get_tunnel-edit i j (add_traffic a b) db (λ t. refl))

pub update_tunnel_traffic_wide :
    (i : String) (a b : ℤ) (db : Db)
    → storable a b ≡ false
    → update_tunnel_traffic i a b db ≡ err overflow_error
unfolding update_tunnel_traffic
update_tunnel_traffic_wide i a b db h = rw h refl

pub get_tunnel-update_tunnel :
    (i n : String) (p : ℤ) (tr : Option String) (ps : List String) (c : Option String) (db : Db)
    (tr' c' : String)
    → fits p ≡ true
    → both tr c ≡ some (tr', c')
    → (db' : Db) × (update_tunnel i n p tr ps c db ≡ ok db')
      × ((j : String)
          → get_tunnel j db' ≡ (
              if i == j
              then Option.map (edit_tunnel n p tr' ps c') (get_tunnel j db)
              else get_tunnel j db))
unfolding update_tunnel
get_tunnel-update_tunnel i n p tp ps c db tr' c' h k =
    let db' : Db = record db {
      tunnels = update_where tunnel_id_of i (edit_tunnel n p tr' ps c') db.tunnels;
    } in
    (db', rw (h, k) refl, λ j. get_tunnel-edit i j (edit_tunnel n p tr' ps c') db (λ t. refl))

pub get_tunnel-set_tunnel_status :
    (i j s : String) (db : Db)
    → get_tunnel j (set_tunnel_status i s db)
      ≡ (if i == j then Option.map (put_status s) (get_tunnel j db) else get_tunnel j db)
unfolding set_tunnel_status
get_tunnel-set_tunnel_status i j s db = get_tunnel-edit i j (put_status s) db (λ t. refl)

pub get_tunnel-request_tunnel_restart :
    (i j : String) (db : Db)
    → get_tunnel j (request_tunnel_restart i db).1
      ≡ (if i == j then Option.map bump_tunnel (get_tunnel j db) else get_tunnel j db)
unfolding request_tunnel_restart
get_tunnel-request_tunnel_restart i j db = get_tunnel-edit i j bump_tunnel db (λ t. refl)

-- Requests to restart one tunnel, one after the other.
pub restarts : ℕ → String → Db → Db
restarts zero i db = db
restarts (suc n) i db = restarts n i (request_tunnel_restart i db).1

abbrev pub bumped : ℕ → Tunnel → Tunnel
bumped n t = record t { restart_nonce = t.restart_nonce + n }

-- After `n` requests the nonce of the tunnel is larger by `n`, so each request is seen as a new
-- one; the rest of its row and every other row stay.
pub get_tunnel-restarts :
    (n : ℕ) (i j : String) (db : Db)
    → get_tunnel j (restarts n i db)
      ≡ (if i == j then Option.map (bumped n) (get_tunnel j db) else get_tunnel j db)
unfolding restarts
get_tunnel-restarts zero i j db = ground arith
get_tunnel-restarts (suc n) i j db =
    get_tunnel-restarts n i j (request_tunnel_restart i db).1
    ∙ ground (arith, get_tunnel-request_tunnel_restart i j db)

-- Whether one of the values that must not be NULL is missing.
abbrev pub is_missing : TunnelArgs → Bool
is_missing a =
    not (is_some a.name)
    || not (is_some a.core_type)
    || not (is_some a.server_node_id)
    || not (is_some a.client_node_id)
    || not (is_some a.transport)

abbrev pub IsFilled : TunnelArgs → Filled → Type 0
IsFilled a f =
    (a.name ≡ some f.name)
    × (a.core_type ≡ some f.core_type)
    × (a.server_node_id ≡ some f.server_node_id)
    × (a.client_node_id ≡ some f.client_node_id)
    × (a.transport ≡ some f.transport)

-- The listing holds every tunnel once, joined with its endpoints.
pub list_tunnels-perm : (db : Db) → Perm (list_tunnels db) (map (join_nodes db) db.tunnels)
unfolding list_tunnels
list_tunnels-perm db = Perm.map (join_nodes db) (order_by-perm earlier db.tunnels)

-- Its name, address and role, unless it is the node `i`.
abbrev pub endpoint_but : String → String → Db → Option Endpoint
endpoint_but i node_id db = if i == node_id then none else Option.map endpoint (get_node node_id db)

join_nodes-delete_node :
    (i : String) (db : Db) (t : Tunnel)
    → join_nodes (delete_node i db) t ≡ record {
      tunnel = t;
      server_node = endpoint_but i t.server_node_id db;
      client_node = endpoint_but i t.client_node_id db;
    }
unfolding join_nodes
join_nodes-delete_node i db t =
    rw (get_node-delete_node i t.server_node_id db, get_node-delete_node i t.client_node_id db)
      (ground arith)

-- Nothing cascades: after the deletion of a node, with unique ids, the list of tunnels has each tunnel
-- that the table had, with its row as it was; an end at the deleted node is listed as none, and any
-- other end as before.
pub delete_node-dangles :
    (i j : String) (db : Db)
    → Distinct (map tunnel_id_of db.tunnels)
    → find_row row_id j (list_tunnels (delete_node i db))
      ≡ Option.map
          (λ t. record {
            tunnel = t;
            server_node = endpoint_but i t.server_node_id db;
            client_node = endpoint_but i t.client_node_id db;
          })
          (get_tunnel j db)
unfolding get_tunnel
delete_node-dangles i j db d =
    find_row-listed (delete_node i db) j (unfold delete_node in d)
    ∙ unfold delete_node in each (find_row tunnel_id_of j db.tunnels)
  where
    each :
        (o : Option Tunnel)
        → Option.map (join_nodes (delete_node i db)) o
          ≡ Option.map
              (λ t. record {
                tunnel = t;
                server_node = endpoint_but i t.server_node_id db;
                client_node = endpoint_but i t.client_node_id db;
              })
              o
    each none = refl
    each (some t) = ap some (join_nodes-delete_node i db t)
