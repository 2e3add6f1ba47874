-- ===== src/Tests/Fleets.antt =====
-- The theorems on the panel and an agent together, on a working machine.
use hawal.Base.{◌+◌, String, ◌≡◌, refl, true, Option, none, some, [], ◌∷◌}
use hawal.Base.Eq.{key2_eq}
use hawal.Base.Rows.{find_row}
use hawal.Base.Dict.{lookup}
use hawal.Db.{snapshot_key}
use hawal.Db.Logs.{save_log_snapshots}
use hawal.Db.Tunnels.{get_tunnel, request_tunnel_restart}
use hawal.Item.{Item, Payload, server}
use hawal.Server.Sync.{item, sync_item}
use hawal.Engine.Gost.{generate_gost_server_command}
use hawal.Agent.Apply.{outdated}
use hawal.Agent.Apply.Settled.{mark_of, IsCurrent}
use hawal.Agent.Reports.{log_snapshots}
use hawal.Fleet.{sync_round, wanted, runs}
use hawal.Fleet.Runs.{runs-sync_round}
use hawal.Fleet.Restart.{at_nonce, request_restarts}
use hawal.Fleet.Logs.{row_of, find_row-log_snapshots}
use hawal.Tests.Data.{panel, first}
use hawal.Tests.Machine.{host, host-Working, idle}
use hawal.Tests.Routes.{panel-IsValid}

runs-sync_round_example :
    runs host "first" (sync_round host "iran" panel idle) ≡ wanted "iran" (get_tunnel "first" panel)
runs-sync_round_example = runs-sync_round host "iran" panel idle "first" host-Working panel-IsValid

abbrev entry : Item
entry = item first server (Payload.gost (generate_gost_server_command first))

found : get_tunnel "first" panel ≡ some first
unfolding get_tunnel find_row
found = refl

listed : sync_item panel "abroad" first ≡ some entry
unfolding sync_item
listed = refl

request_restarts_example :
    let b = sync_round host "abroad" panel idle in
    let new = at_nonce (first.restart_nonce + 1) entry in
    (IsCurrent host entry b)
    × (outdated host "first" (mark_of host new) b ≡ true)
    × (IsCurrent host new (sync_round host "abroad" (request_tunnel_restart "first" panel).1 b))
request_restarts_example =
    request_restarts host host-Working panel "abroad" "first" first entry idle panel-IsValid found
      listed

abbrev disk : String → Option String
disk path = some "started"

find_row-log_snapshots_example :
    let sent = log_snapshots "ready" disk ("first" ∷ []) in
    find_row snapshot_key
      (row_of "iran" "tunnel:first")
      (save_log_snapshots "iran" sent 7 panel).log_snapshots
    ≡ elim (lookup "tunnel:first" sent) [
      | some c ↦
          some (record { node_id = "iran"; source = "tunnel:first"; content = c; updated_at = 7 })
      | none ↦ find_row snapshot_key (row_of "iran" "tunnel:first") panel.log_snapshots
    ]
find_row-log_snapshots_example =
    find_row-log_snapshots "iran" "tunnel:first" "ready" disk ("first" ∷ []) 7 panel
