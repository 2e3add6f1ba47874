-- ===== src/Server/Nodes.antt =====
-- The node routes of app/server.py: list, create, delete, and the restart of all agents.
pub mod Laws
use hawal.Base.{ℕ, String, ◌<>◌, Option, none, some}
use hawal.Base.Tests.{if◌then◌else◌}
use hawal.Base.Eq.{◌==◌, string_eq}
use hawal.Db.Nodes.{Geo, list_nodes, save_node, delete_node, request_all_agents_restart}
use hawal.Geoip.{Answer, Cache, is_local, put_cache, resolve_geoip}
use hawal.Server.{
  World, Action, Body, Event, ◌>>=◌, ◌>>◌, gets, attempt, modify, parsed, send_json, broadcast,
  or_default,
}
use hawal.Base.Result.{Result, ok, err}

-- `GET /api/nodes`
unfoldable pub get_nodes : ℕ → Action Unit
get_nodes now = do nodes ← gets (list_nodes now); send_json 200 (Body.nodes nodes)

-- The body of `POST /api/nodes`; an absent key has its default in the handler.
pub record NodeBody : Type 0 where
  pub name : Option String
  pub ip : Option String
  pub role : Option String

abbrev pub as_iran : Geo → Geo
as_iran geo = record geo {
  flag = "🇮🇷";
  country_name = "\u{627}\u{6cc}\u{631}\u{627}\u{646}";
  country_code = "IR";
}

module _ (service : String → Option Answer) where
  -- The dict that `resolve_geoip` returns is the one that the cache holds, so relabelling it for a
  -- node in Iran writes to the cache; the dict of a local address is a new one.
  unfoldable pub locate : String → String → Action Geo
  locate ip role w =
      let (geo, cache) = resolve_geoip service ip w.cache in
      if role == "iran"
      then (
        ok (as_iran geo),
        record w { cache = if is_local ip then cache else put_cache ip (as_iran geo) cache },
      )
      else (ok geo, record w { cache = cache })

  -- `POST /api/nodes`; `serial` and `token` are the two values of `secrets.token_hex`.
  unfoldable pub post_node : ℕ → String → String → Option NodeBody → Action Unit
  unfolding locate
  post_node now serial token body = do
    b ← parsed body
    let node_id = "node_" <> serial
    let name = or_default b.name "New Node"
    let ip = or_default b.ip "127.0.0.1"
    let role = or_default b.role "kharej"
    geo ← locate ip role
    attempt (save_node node_id name ip role token geo now)
    send_json 200 (Body.node_made node_id token name role geo.flag geo.country_name)
    broadcast Event.node_updated

-- `DELETE /api/nodes/<id>`
unfoldable pub delete_node_route : String → Action Unit
delete_node_route node_id = do
  modify (delete_node node_id)
  send_json 200 (Body.deleted node_id)
  broadcast Event.node_updated

-- `POST /api/agents/restart`
unfoldable pub restart_agents : Action Unit
restart_agents = do
  r ← gets request_all_agents_restart
  modify (λ db. r.1)
  send_json 200 (Body.agents_restarted r.0)
  broadcast Event.node_updated
