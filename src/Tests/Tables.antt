-- ===== src/Tests/Tables.antt =====
-- The theorems on the tables, the settings and the cache of addresses, at concrete rows.
use hawal.Base.{◌+◌, String, ◌≡◌, Option, none, some, List, [], ◌∷◌, map}
use hawal.Base.Tests.{if◌then◌else◌}
use hawal.Base.Eq.{string_eq, Key2, key2_eq}
use hawal.Base.Int.{pos}
use hawal.Base.Lists.{contains, length}
use hawal.Base.Result.{err, integrity_error, overflow_error}
use hawal.Db.{Db}
use hawal.Db.Nodes.{get_node, delete_node, node_id_of, list_nodes, update_node_heartbeat}
use hawal.Db.Nodes.Laws.{shown_beat, list_nodes-heartbeat}
use hawal.Db.Tunnels.{get_tunnel, tunnel_id_of, list_tunnels, filled, save_tunnel}
use hawal.Db.Tunnels.Listed.{row_id}
use hawal.Db.Sqlite.{fits, real, sum_sql}
use hawal.Base.{◌^◌, refl}
use hawal.Base.Int.{negsuc, ◌+ℤ◌}
use hawal.Base.Lists.{Distinct}
use hawal.Base.Rows.{find_row}
use hawal.Db.{snapshot_key}
use mathlib.Core.Option
use hawal.Db.Tunnels.Laws.{endpoint_but, delete_node-dangles}
use hawal.Db.Logs.{get_log_snapshots, delete_log_snapshots}
use hawal.Db.Logs.Laws.{filter_text, is_asked, delete_log_snapshots_exact}
use hawal.Db.Ops.{Op, save_node_op, save_tunnel_op, restart_tunnel_op, delete_node_op, save_logs_op}
use hawal.Settings.{Dict, text, num, absent, get, update, save_settings, load_settings}
use hawal.Settings.Laws.{load_settings-save_settings, or_value, last_value}
use hawal.Geoip.{Answer}
use hawal.Tests.Data.{panel, args, geo, metrics}

abbrev ops : List Op
ops =
    save_node_op "iran" "Iran" "5.6.7.8" "iran" "token_iran" geo 1
    ∷ save_tunnel_op args 2
    ∷ restart_tunnel_op "third"
    ∷ save_logs_op "iran" (("agent", "ready") ∷ []) 3
    ∷ delete_node_op "iran"
    ∷ []

node_ids : Distinct (map node_id_of panel.nodes)
unfolding contains
node_ids = (refl, (refl, tt))

list_nodes-heartbeat_example :
    find_row node_id_of "iran"
      (list_nodes 90 (update_node_heartbeat "iran" "5.6.7.9" metrics none 8 panel))
    ≡ Option.map (shown_beat "5.6.7.9" metrics 8 90) (get_node "iran" panel)
list_nodes-heartbeat_example = list_nodes-heartbeat "iran" "5.6.7.9" metrics 8 90 panel node_ids

abbrev new_id : String
new_id = "new"

-- A port of 64 bits is stored, one beyond raises, and so does a missing name.
wide_port :
    (save_tunnel (record args { core_port = pos (2 ^ 63) }) 9 panel ≡ err overflow_error)
    × (save_tunnel (record args { name = none }) 9 panel ≡ err integrity_error)
unfolding save_tunnel fits filled
wide_port = (refl, refl)

-- Beyond 64 bits SQLite adds doubles.
sums :
    (sum_sql (pos 9223372036854775807) (pos 1) ≡ pos 9223372036854775808)
    × (sum_sql (pos 9223372036854775807) (pos 1025) ≡ pos 9223372036854777856)
    × (sum_sql (pos 9223372036854775807) (pos 4096) ≡ pos 9223372036854779904)
    × (sum_sql (pos 5) (negsuc 6) ≡ negsuc 1)
unfolding sum_sql fits real ◌+ℤ◌
sums = (refl, refl, refl, refl)

tunnel_ids : Distinct (map tunnel_id_of panel.tunnels)
unfolding contains
tunnel_ids = (refl, (refl, tt))

delete_node-dangles_example :
    find_row row_id "first" (list_tunnels (delete_node "iran" panel))
    ≡ Option.map
        (λ t. record {
          tunnel = t;
          server_node = endpoint_but "iran" t.server_node_id panel;
          client_node = endpoint_but "iran" t.client_node_id panel;
        })
        (get_tunnel "first" panel)
delete_node-dangles_example = delete_node-dangles "iran" "first" panel tunnel_ids

abbrev iran_logs : Key2
iran_logs = record { major = "iran"; minor = "agent" }

delete_log_snapshots_exact_example :
    let (count, db') = delete_log_snapshots (some "iran") none panel in
    (find_row snapshot_key iran_logs db'.log_snapshots ≡ (
      if is_asked (filter_text (some "iran")) (filter_text none) iran_logs
      then none
      else find_row snapshot_key iran_logs panel.log_snapshots))
    × (get_log_snapshots (some "iran") none db' ≡ [])
    × (count + length db'.log_snapshots ≡ length panel.log_snapshots)
delete_log_snapshots_exact_example = delete_log_snapshots_exact (some "iran") none iran_logs panel

abbrev log_key : Key2
log_key = record { major = "iran"; minor = "agent" }

abbrev change : Dict
change = ("panel_port", num (pos 8080)) ∷ ("theme", text "dark") ∷ []

load_settings-save_settings_example :
    let (current, file') = load_settings "secret" absent in
    get "panel_port" (load_settings "other" (save_settings (update current change) file')).0
    ≡ or_value (last_value "panel_port" change) (get "panel_port" current)
load_settings-save_settings_example =
    load_settings-save_settings "secret" "other" "panel_port" change absent

abbrev located : String → Option Answer
located ip = some (record {
  status = "success";
  country = some "Germany";
  country_code = some "de";
  city = some "Berlin";
})

abbrev unreachable : String → Option Answer
unreachable ip = none
