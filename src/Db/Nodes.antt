-- ===== src/Db/Nodes.antt =====
-- The node operations of app/db.py.
pub mod Laws
use mathlib.Core.Bool
use hawal.Base.{ℕ, ◌+◌, String, Bool, true, false, not, ◌&&◌, ◌||◌, Option, none, some, List, map}
use hawal.Base.Tests.{ltb, leb, if◌then◌else◌}
use hawal.Base.Eq.{◌==◌, string_eq}
use hawal.Base.Lists.{contains, length}
use hawal.Base.Rows.{find_row, update_where, delete_where, upsert}
use hawal.Base.Sort.{order_by}
use hawal.Base.Result.{Result, ok, err, integrity_error}
use hawal.Db.{Node, Db}

-- 15 seconds
abbrev pub offline_after : ℕ
offline_after = 15000000

-- The status that `list_nodes` shows: stored, or overruled once the node was silent too long.
unfoldable pub seen_status : ℕ → Node → Node
seen_status now d =
    if ltb (d.last_seen + offline_after) now then record d { status = "offline" } else d

abbrev pub older : Node → Node → Bool
older a b = leb a.created_at b.created_at

unfoldable pub list_nodes : ℕ → Db → List Node
unfolding order_by seen_status
list_nodes now db = map (seen_status now) (order_by older db.nodes)

abbrev pub node_id_of : Node → String
node_id_of n = n.id

abbrev pub token_of : Node → String
token_of n = n.token

unfoldable pub get_node : String → Db → Option Node
unfolding find_row
get_node node_id db = find_row node_id_of node_id db.nodes

unfoldable pub get_node_by_token : String → Db → Option Node
unfolding find_row
get_node_by_token token db = find_row token_of token db.nodes

-- What `resolve_geoip` finds out about an address.
pub record Geo : Type 0 where
  pub country_code : String
  pub country_name : String
  pub flag : String
  pub city : String

-- The row of the `INSERT`, with the defaults of the columns that it does not name.
abbrev pub new_node : String → String → String → String → String → Geo → ℕ → Node
new_node node_id name ip role token geo now = record {
  id = node_id;
  name = name;
  ip = ip;
  role = role;
  country_code = geo.country_code;
  country_name = geo.country_name;
  flag = geo.flag;
  city = geo.city;
  token = token;
  status = "online";
  last_seen = now;
  cpu_percent = 0;
  ram_used_mb = 0;
  ram_total_mb = 0;
  uptime_seconds = 0;
  created_at = now;
  agent_restart_nonce = 0;
}

-- The `DO UPDATE SET` of the upsert: token, counters and creation time stay.
abbrev pub merge_node : Node → Node → Node
merge_node new old = record old {
  name = new.name;
  ip = new.ip;
  role = new.role;
  country_code = new.country_code;
  country_name = new.country_name;
  flag = new.flag;
  city = new.city;
  last_seen = new.last_seen;
  status = "online";
}

-- A new row with a token that is taken breaks the column's `UNIQUE`.
unfoldable pub save_node : String → String → String → String → String → Geo → ℕ → Db → Result Db
unfolding contains upsert
save_node node_id name ip role token geo now db =
    let row = new_node node_id name ip role token geo now in
    if not (contains (map node_id_of db.nodes) node_id) && contains (map token_of db.nodes) token
    then err integrity_error
    else ok (record db { nodes = upsert node_id_of row (merge_node row) db.nodes })

pub record Metrics : Type 0 where
  pub cpu_percent : ℕ
  pub ram_used_mb : ℕ
  pub ram_total_mb : ℕ
  pub uptime_seconds : ℕ

abbrev pub has_country : Option Geo → Bool
has_country none = false
has_country (some g) = not (g.country_code == "") && not (g.country_name == "")

abbrev with_country : Option Geo → Node → Node
with_country none n = n
with_country (some g) n = record n {
  country_code = g.country_code;
  country_name = g.country_name;
  flag = g.flag;
  city = g.city;
}

unfoldable pub beat : String → Metrics → Option Geo → ℕ → Node → Node
beat ip m geo now n =
    let n' : Node = record n {
      ip = ip;
      cpu_percent = m.cpu_percent;
      ram_used_mb = m.ram_used_mb;
      ram_total_mb = m.ram_total_mb;
      uptime_seconds = m.uptime_seconds;
      last_seen = now;
      status = "online";
    } in
    if has_country geo then with_country geo n' else n'

unfoldable pub update_node_heartbeat : String → String → Metrics → Option Geo → ℕ → Db → Db
unfolding beat update_where
update_node_heartbeat node_id ip m geo now db = record db {
  nodes = update_where node_id_of node_id (beat ip m geo now) db.nodes;
}

-- The foreign keys are never switched on (`PRAGMA foreign_keys`), so nothing cascades.
unfoldable pub delete_node : String → Db → Db
unfolding delete_where
delete_node node_id db = record db { nodes = delete_where node_id_of node_id db.nodes }

abbrev pub bump_agent : Node → Node
bump_agent n = record n { agent_restart_nonce = n.agent_restart_nonce + 1 }

-- The row count is that of the whole table.
unfoldable pub request_all_agents_restart : Db → ℕ × Db
request_all_agents_restart db = (length db.nodes, record db { nodes = map bump_agent db.nodes })
