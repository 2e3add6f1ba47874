-- ===== src/Server/Tunnels.antt =====
-- The tunnel routes of app/server.py: list, create, change, delete, restart, status, traffic and
-- the compose files.
pub mod Laws
pub mod Traffic
use hawal.Base.{ℕ, String, ◌<>◌, Bool, true, false, Option, none, some, List, [], ◌∷◌}
use hawal.Base.Tests.{if◌then◌else◌}
use hawal.Base.Eq.{◌==◌, string_eq}
use hawal.Base.Int.{ℤ, pos}
use hawal.Base.Result.{Result, Raised}
use hawal.Text.Decimal.{parse_int}
use hawal.Db.{Tunnel}
use hawal.Db.Tunnels.{
  TunnelArgs, list_tunnels, get_tunnel, save_tunnel, update_tunnel, request_tunnel_restart,
  update_tunnel_traffic, set_tunnel_status, delete_tunnel,
}
use hawal.Backhaul.{validate_tunnel_ports}
use hawal.Server.{
  World, Action, Body, Event, ◌>>=◌, ◌>>◌, gets, attempt, modify, raise, pure, returned, parsed,
  send_json, broadcast, or_default,
}

-- `GET /api/tunnels`
unfoldable pub get_tunnels : Action Unit
get_tunnels = do rows ← gets list_tunnels; send_json 200 (Body.tunnels rows)

-- A number of a body, which may be sent as a text, as a float, or as null. A float is given by what
-- `int` makes of it: an integer, or an exception for an infinity or no number.
pub data Number : Type 0 where
  number : ℤ → Number
  digits : String → Number
  float : Result ℤ → Number
  null : Number

unfoldable pub or_raise : Option ℤ → Action ℤ
or_raise none = raise Raised.value_error
or_raise (some n) = pure n

-- `int(value)`
unfoldable pub to_int : Number → Action ℤ
to_int (number n) = pure n
to_int (digits s) = or_raise (parse_int s)
to_int (float r) = returned r
to_int null = raise Raised.type_error

unfoldable pub default_transport : Option String → String
default_transport none = "ws"
default_transport (some core_type) =
    if core_type == "paqet"
    then "kcp"
    else if core_type == "hawal"
    then "stealth"
    else if core_type == "gost"
    then "tls"
    else "ws"

-- The body of `POST /api/tunnels` and of `PUT /api/tunnels/<id>`: none is a key that is absent, and
-- `some none` one that is null; for the two node ids both are the same. Texts are texts and the ports
-- are a list of texts; a body of other types is not modelled.
pub record TunnelBody : Type 0 where
  pub name : Option (Option String)
  pub core_type : Option (Option String)
  pub server_node_id : Option String
  pub client_node_id : Option String
  pub core_port : Option Number
  pub transport : Option (Option String)
  pub ports : Option (List String)

unfoldable pub make_tunnel : ℕ → TunnelArgs → Action Unit
make_tunnel now a = do
  attempt (save_tunnel a now)
  send_json 200 (Body.tunnel_made a.id a.token "running" (or_default a.core_type ""))
  broadcast Event.tunnel_updated

unfoldable pub checked : Bool × String → Action Unit → Action Unit
checked (true, message) k = k
checked (false, message) k = send_json 400 (Body.error message)

-- `POST /api/tunnels`; `serial` and `token` are the two values of `secrets.token_hex`.
unfoldable pub post_tunnel : ℕ → String → String → Option TunnelBody → Action Unit
unfolding default_transport
post_tunnel now serial token body = do
  b ← parsed body
  let core_type = or_default b.core_type (some "hawal")
  core_port ← to_int (or_default b.core_port (number (pos 3090)))
  valid ← gets (validate_tunnel_ports core_port b.server_node_id none)
  checked valid (
      make_tunnel now (record {
        id = "tun_" <> serial;
        name = or_default b.name (some "New Tunnel");
        server_node_id = b.server_node_id;
        client_node_id = b.client_node_id;
        core_port = core_port;
        transport = or_default b.transport (some (default_transport core_type));
        ports = or_default b.ports ("443=127.0.0.1:443" ∷ []);
        token = token;
        status = "running";
        core_type = core_type;
      }))

-- `name or t["name"]`
abbrev pub name_or : Option String → String → String
name_or none old = old
name_or (some n) old = if n == "" then old else n

unfoldable pub with_tunnel : Option Tunnel → (Tunnel → Action Unit) → Action Unit
with_tunnel none k = send_json 404 (Body.error "Tunnel not found")
with_tunnel (some t) k = k t

-- `PUT /api/tunnels/<id>`. The ports are not checked, and what the body leaves out is reset.
unfoldable pub put_tunnel : String → Option TunnelBody → Action Unit
unfolding default_transport
put_tunnel tunnel_id body = do
  b ← parsed body
  let core_type = or_default b.core_type (some "hawal")
  core_port ← to_int (or_default b.core_port (number (pos 3090)))
  let transport = or_default b.transport (some (default_transport core_type))
  found ← gets (get_tunnel tunnel_id)
  with_tunnel found λ t. do
    attempt (
        update_tunnel tunnel_id (name_or (or_default b.name none) t.name) core_port transport
          (or_default b.ports []) core_type)
    send_json 200 (Body.tunnel_done tunnel_id)
    broadcast Event.tunnel_updated

-- `GET /api/tunnels/<id>/docker`: `generate_docker_compose` is not among the imported names, so
-- its first call raises a `NameError`.
unfoldable pub get_docker : String → Action Unit
get_docker tunnel_id = do
  found ← gets (get_tunnel tunnel_id)
  with_tunnel found λ t. raise Raised.name_error

-- One element of `reports`.
pub record Report : Type 0 where
  pub tunnel_id : String
  pub bytes_in : Option Number
  pub bytes_out : Option Number

-- The loop: reports before one that raises are kept.
unfoldable pub add_reports : List Report → Action Unit
add_reports [] = pure tt
add_reports (r ∷ rs) = do
  bytes_in ← to_int (or_default r.bytes_in (number (pos 0)))
  bytes_out ← to_int (or_default r.bytes_out (number (pos 0)))
  attempt (update_tunnel_traffic r.tunnel_id bytes_in bytes_out)
  add_reports rs

-- `POST /api/tunnels/traffic`
unfoldable pub post_traffic : Option (List Report) → Action Unit
unfolding add_reports
post_traffic body = do reports ← parsed body; add_reports reports; send_json 200 Body.success

-- `POST /api/tunnels/<id>/restart`
unfoldable pub post_restart : String → Action Unit
post_restart tunnel_id = do
  found ← gets (get_tunnel tunnel_id)
  with_tunnel found λ t. do
    modify (λ db. (request_tunnel_restart tunnel_id db).1)
    send_json 200 (Body.tunnel_done tunnel_id)
    broadcast Event.tunnel_updated

-- `DELETE /api/tunnels/<id>`
unfoldable pub delete_tunnel_route : String → Action Unit
delete_tunnel_route tunnel_id = do
  modify (delete_tunnel tunnel_id)
  send_json 200 (Body.deleted tunnel_id)
  broadcast Event.tunnel_updated

-- `POST /api/tunnels/<id>/status`
unfoldable pub post_status : String → Option (Option String) → Action Unit
post_status tunnel_id body = do
  b ← parsed body
  let status = or_default b "stopped"
  modify (set_tunnel_status tunnel_id status)
  send_json 200 (Body.status_set status)
  broadcast Event.tunnel_updated
