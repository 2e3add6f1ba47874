-- ===== src/Server/Logs.antt =====
-- The log routes of app/server.py.
use hawal.Base.{ℕ, String, Option, none, some, List}
use hawal.Base.Tests.{if◌then◌else◌}
use hawal.Base.Eq.{◌==◌, string_eq}
use hawal.Db.{Node}
use hawal.Db.Nodes.{get_node_by_token}
use hawal.Db.Logs.{save_log_snapshots, get_log_snapshots, delete_log_snapshots}
use hawal.Server.{Action, Body, ◌>>=◌, ◌>>◌, gets, modify, parsed, send_json}

-- `query.get(key, [""])[0] or None`; an absent key reads like an empty one.
abbrev pub or_none : String → Option String
or_none s = if s == "" then none else some s

-- `GET /api/logs`
unfoldable pub get_logs : String → String → Action Unit
get_logs node_id source = do
  logs ← gets (get_log_snapshots (or_none node_id) (or_none source))
  send_json 200 (Body.logs logs)

-- `DELETE /api/logs`
unfoldable pub delete_logs : String → String → Action Unit
delete_logs node_id source = do
  r ← gets (delete_log_snapshots (or_none node_id) (or_none source))
  modify (λ db. r.1)
  send_json 200 (Body.deleted_rows r.0)

-- The key `snapshots` of the body: absent, no dict, or a dict of texts.
pub data Snapshots : Type 0 where
  missing : Snapshots
  not_a_dict : Snapshots
  dict : List (String × String) → Snapshots

abbrev pub store_snapshots : ℕ → Node → Snapshots → Action Unit
store_snapshots now node missing = send_json 200 Body.success
store_snapshots now node not_a_dict = send_json 400 (Body.error "invalid snapshots")
store_snapshots now node (dict l) = do
  modify (save_log_snapshots node.id l now)
  send_json 200 Body.success

unfoldable pub with_node : Option Node → String → (Node → Action Unit) → Action Unit
with_node none message k = send_json 401 (Body.error message)
with_node (some node) message k = k node

-- `POST /api/agent/logs`; `token` is what the authorization header gives.
unfoldable pub post_agent_logs : ℕ → String → Option Snapshots → Action Unit
post_agent_logs now token body = do
  found ← gets (get_node_by_token token)
  with_node found "unauthorized" λ node. do s ← parsed body; store_snapshots now node s
