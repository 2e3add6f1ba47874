-- ===== src/Db/Tunnels.antt =====
-- The tunnel operations of app/db.py.
pub mod Laws
pub mod Listed
use mathlib.Core.Option
use hawal.Base.{ℕ, ◌+◌, String, Bool, true, false, Option, none, some, List, map}
use hawal.Base.Tests.{leb, if◌then◌else◌}
use hawal.Base.Eq.{◌==◌, string_eq}
use hawal.Base.Int.{ℤ, pos, ◌+ℤ◌}
use hawal.Base.Rows.{find_row, update_where, delete_where, upsert}
use hawal.Base.Sort.{order_by}
use hawal.Base.Result.{Result, ok, err, integrity_error, overflow_error}
use hawal.Db.{Node, Tunnel, Db}
use hawal.Db.Sqlite.{fits, storable, sum_sql}
use hawal.Db.Nodes.{get_node}

abbrev pub tunnel_id_of : Tunnel → String
tunnel_id_of t = t.id

abbrev pub earlier : Tunnel → Tunnel → Bool
earlier a b = leb a.created_at b.created_at

-- What the `LEFT JOIN` adds of one node: nothing, where it is gone.
pub record Endpoint : Type 0 where
  pub name : String
  pub ip : String
  pub role : String

abbrev pub endpoint : Node → Endpoint
endpoint n = record { name = n.name; ip = n.ip; role = n.role }

pub record TunnelRow : Type 0 where
  pub tunnel : Tunnel
  pub open tunnel use *
  pub server_node : Option Endpoint
  pub client_node : Option Endpoint

unfoldable pub join_nodes : Db → Tunnel → TunnelRow
unfolding get_node
join_nodes db t = record {
  tunnel = t;
  server_node = Option.map endpoint (get_node t.server_node_id db);
  client_node = Option.map endpoint (get_node t.client_node_id db);
}

unfoldable pub list_tunnels : Db → List TunnelRow
unfolding join_nodes order_by
list_tunnels db = map (join_nodes db) (order_by earlier db.tunnels)

unfoldable pub get_tunnel : String → Db → Option Tunnel
unfolding find_row
get_tunnel tunnel_id db = find_row tunnel_id_of tunnel_id db.tunnels

-- What the callers of `save_tunnel` give; none is `None`.
pub record TunnelArgs : Type 0 where
  pub id : String
  pub name : Option String
  pub server_node_id : Option String
  pub client_node_id : Option String
  pub core_port : ℤ
  pub transport : Option String
  pub ports : List String
  pub token : String
  pub status : String
  pub core_type : Option String

-- The values of the columns that must not be NULL.
pub record Filled : Type 0 where
  pub name : String
  pub core_type : String
  pub server_node_id : String
  pub client_node_id : String
  pub transport : String

-- The row of the `INSERT`, with the default arguments of the function and of the columns.
abbrev pub new_tunnel : TunnelArgs → Filled → ℕ → Tunnel
new_tunnel a f now = record {
  id = a.id;
  name = f.name;
  core_type = f.core_type;
  server_node_id = f.server_node_id;
  client_node_id = f.client_node_id;
  core_port = a.core_port;
  transport = f.transport;
  ports = a.ports;
  token = a.token;
  status = a.status;
  nodelay = 1;
  snappy = 1;
  mux_con = 8;
  keepalive = 75;
  channel_size = 2048;
  restart_nonce = 0;
  bytes_in = pos 0;
  bytes_out = pos 0;
  created_at = now;
}

-- The `DO UPDATE SET`: the nonce, the byte counters and the creation time stay.
abbrev pub merge_tunnel : Tunnel → Tunnel → Tunnel
merge_tunnel new old = record new {
  id = old.id;
  restart_nonce = old.restart_nonce;
  bytes_in = old.bytes_in;
  bytes_out = old.bytes_out;
  created_at = old.created_at;
}

-- Both texts, if neither is missing.
abbrev pub both : Option String → Option String → Option (String × String)
both (some s) (some c) = some (s, c)
both _ _ = none

abbrev filled_with :
    Option String → Option (String × String) → Option (String × String) → Option Filled
filled_with (some n) (some nodes) (some kinds) = some (record {
  name = n;
  core_type = kinds.0;
  server_node_id = nodes.0;
  client_node_id = nodes.1;
  transport = kinds.1;
})
filled_with _ _ _ = none

unfoldable pub filled : TunnelArgs → Option Filled
filled a =
    filled_with a.name (both a.server_node_id a.client_node_id) (both a.core_type a.transport)

-- A port beyond 64 bits cannot be bound, and a missing value breaks a `NOT NULL`.
unfoldable pub save_tunnel : TunnelArgs → ℕ → Db → Result Db
unfolding upsert filled fits
save_tunnel a now db =
    if fits a.core_port
    then elim (filled a) [
      | none ↦ err integrity_error
      | some f ↦
          let row = new_tunnel a f now in
          ok (record db { tunnels = upsert tunnel_id_of row (merge_tunnel row) db.tunnels })
    ]
    else err overflow_error

abbrev pub edit_tunnel : String → ℤ → String → List String → String → Tunnel → Tunnel
edit_tunnel name core_port transport ports core_type t = record t {
  name = name;
  core_port = core_port;
  transport = transport;
  ports = ports;
  core_type = core_type;
}

abbrev pub is_some {ℓ} : {A : Type ℓ} → Option A → Bool
is_some none = false
is_some (some a) = true

-- The `UPDATE`; a missing value breaks a `NOT NULL` where a row is changed.
unfoldable pub update_tunnel :
    String → String → ℤ → Option String → List String → Option String → Db → Result Db
unfolding update_where get_tunnel fits
update_tunnel tunnel_id name core_port transport ports core_type db =
    if fits core_port
    then elim (both transport core_type) [
      | none ↦ if is_some (get_tunnel tunnel_id db) then err integrity_error else ok db
      | some (tr, kind) ↦ ok (record db {
        tunnels =
            update_where tunnel_id_of tunnel_id (edit_tunnel name core_port tr ports kind)
              db.tunnels;
      })
    ]
    else err overflow_error

abbrev pub bump_tunnel : Tunnel → Tunnel
bump_tunnel t = record t { restart_nonce = t.restart_nonce + 1 }

-- `cursor.rowcount > 0`: whether a row has the id.
unfoldable pub request_tunnel_restart : String → Db → Bool × Db
unfolding get_tunnel update_where
request_tunnel_restart tunnel_id db = (
  is_some (get_tunnel tunnel_id db),
  record db { tunnels = update_where tunnel_id_of tunnel_id bump_tunnel db.tunnels },
)

abbrev pub add_traffic : ℤ → ℤ → Tunnel → Tunnel
add_traffic bytes_in bytes_out t = record t {
  bytes_in = sum_sql t.bytes_in bytes_in;
  bytes_out = sum_sql t.bytes_out bytes_out;
}

unfoldable pub update_tunnel_traffic : String → ℤ → ℤ → Db → Result Db
unfolding update_where storable sum_sql
update_tunnel_traffic tunnel_id bytes_in bytes_out db =
    if storable bytes_in bytes_out
    then ok (record db {
      tunnels = update_where tunnel_id_of tunnel_id (add_traffic bytes_in bytes_out) db.tunnels;
    })
    else err overflow_error

abbrev pub put_traffic : ℤ → ℤ → Tunnel → Tunnel
put_traffic bytes_in bytes_out t = record t { bytes_in = bytes_in; bytes_out = bytes_out }

unfoldable pub set_tunnel_absolute_traffic : String → ℤ → ℤ → Db → Result Db
unfolding update_where storable
set_tunnel_absolute_traffic tunnel_id bytes_in bytes_out db =
    if storable bytes_in bytes_out
    then ok (record db {
      tunnels = update_where tunnel_id_of tunnel_id (put_traffic bytes_in bytes_out) db.tunnels;
    })
    else err overflow_error

abbrev pub put_status : String → Tunnel → Tunnel
put_status status t = record t { status = status }

unfoldable pub set_tunnel_status : String → String → Db → Db
unfolding update_where
set_tunnel_status tunnel_id status db = record db {
  tunnels = update_where tunnel_id_of tunnel_id (put_status status) db.tunnels;
}

unfoldable pub delete_tunnel : String → Db → Db
unfolding delete_where
delete_tunnel tunnel_id db = record db { tunnels = delete_where tunnel_id_of tunnel_id db.tunnels }
