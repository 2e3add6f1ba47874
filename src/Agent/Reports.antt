-- ===== src/Agent/Reports.antt =====
-- `report_logs` of app/static/js/agent.py: what the agent sends of its journal and of the logs of
-- its tunnels. Times are microseconds; a text has one character for a byte.
use hawal.Base.{ℕ, ◌+◌, String, ◌<>◌, Bool, Option, none, some, List, [], ◌∷◌}
use hawal.Base.Tests.{ltb, if◌then◌else◌}
use hawal.Base.Eq.{string_eq}
use hawal.Base.Dict.{put}
use hawal.Text.{last_text}

abbrev pub max_report : ℕ
max_report = 12000

abbrev pub log_path : String → String
log_path tun_id = "/opt/hawal/logs/" <> tun_id <> ".log"

-- One log: what `f.seek(max(0, size - 12000))` leaves of a file that is there.
abbrev pub add_log : String → Option String → List (String × String) → List (String × String)
add_log tun_id none snapshots = snapshots
add_log tun_id (some text) snapshots =
    put ("tunnel:" <> tun_id) (last_text max_report text) snapshots

-- The loop over the running processes; `file` is the disk.
unfoldable pub add_logs :
    (String → Option String) → List String → List (String × String) → List (String × String)
unfolding last_text put
add_logs file [] snapshots = snapshots
add_logs file (tun_id ∷ ids) snapshots =
    add_logs file ids (add_log tun_id (file (log_path tun_id)) snapshots)

unfoldable pub log_snapshots :
    String → (String → Option String) → List String → List (String × String)
unfolding add_logs
log_snapshots journal file ids = add_logs file ids (put "agent" (last_text max_report journal) [])

-- What is sent, none where nothing is, and the time that is remembered. `journal` is what journalctl
-- prints, none where it fails; `sent` says whether the panel takes a report.
unfoldable pub report_logs :
    ℕ
    → Option String
    → (String → Option String)
    → (List (String × String) → Bool)
    → List String
    → ℕ
    → Option (List (String × String)) × ℕ
unfolding log_snapshots
report_logs now journal file sent ids last_log_report =
    if ltb now (last_log_report + 12000000) then (none, last_log_report) else elim journal [
      | none ↦ (none, last_log_report)
      | some text ↦
          let snapshots = log_snapshots text file ids in
          (some snapshots, if sent snapshots then now else last_log_report)
    ]
