-- ===== src/Backhaul.antt =====
-- app/backhaul.py: the check of the ports of a new tunnel, and the configurations of the Backhaul
-- core.
pub mod Clash
use hawal.Base.{ℕ, String, ◌<>◌, Bool, true, false, ◌&&◌, Option, none, some, List, [], ◌∷◌, map}
use hawal.Base.Tests.{eqb, if◌then◌else◌}
use hawal.Base.Eq.{◌==◌, string_eq}
use hawal.Base.Int.{ℤ, pos, eqb_ℤ}
use hawal.Text.{join}
use hawal.Text.Decimal.{show_int, show_nat}
use hawal.Db.{Tunnel, Db}
use hawal.Db.Tunnels.{TunnelRow, list_tunnels}

-- `None` equals no text.
abbrev pub is_node : Option String → String → Bool
is_node none s = false
is_node (some n) s = s == n

-- An absent or empty current id skips no tunnel.
abbrev pub is_current : Option String → String → Bool
is_current none s = false
is_current (some c) s = if c == "" then false else s == c

abbrev pub uses_port : ℤ → Option String → Tunnel → Bool
uses_port core_port server t = is_node server t.server_node_id && eqb_ℤ t.core_port core_port

pub conflict_message : ℤ → String → String
conflict_message core_port name =
    "\u{67e}\u{648}\u{631}\u{62a} \u{62a}\u{631}\u{627}\u{646}\u{633}\u{67e}\u{648}\u{631}\u{62a} "
    <> show_int core_port
    <> " \u{62f}\u{631} \u{62d}\u{627}\u{644} \u{62d}\u{627}\u{636}\u{631} \u{62a}\u{648}\u{633}\u{637} \u{62a}\u{627}\u{646}\u{644} '"
    <> name
    <> "' \u{631}\u{648}\u{6cc} \u{647}\u{645}\u{6cc}\u{646} \u{646}\u{648}\u{62f} \u{62f}\u{631} \u{62d}\u{627}\u{644} \u{627}\u{633}\u{62a}\u{641}\u{627}\u{62f}\u{647} \u{627}\u{633}\u{62a}."

-- The loop; the answer is the pair of Python's function.
unfoldable pub scan_ports : ℤ → Option String → Option String → List TunnelRow → Bool × String
scan_ports core_port server current [] = (true, "")
scan_ports core_port server current (t ∷ ts) =
    let rest = scan_ports core_port server current ts in
    if is_current current t.tunnel.id
    then rest
    else if uses_port core_port server t.tunnel
    then (false, conflict_message core_port t.tunnel.name)
    else rest

unfoldable pub validate_tunnel_ports : ℤ → Option String → Option String → Db → Bool × String
unfolding scan_ports
validate_tunnel_ports core_port server current db =
    scan_ports core_port server current (list_tunnels db)

-- `"true" if n else "false"`
abbrev pub flag : ℕ → String
flag n = if eqb n 0 then "false" else "true"

abbrev quoted : String → String
quoted p = "  \"" <> p <> "\""

-- `t.get(key, default)` finds every column in the row, so no default is used.
unfoldable pub generate_server_config : Tunnel → String → String
unfolding join show_int show_nat
generate_server_config t bind_ip =
    "[server]\nbind_addr = \""
    <> bind_ip
    <> ":"
    <> show_int t.core_port
    <> "\"\ntransport = \""
    <> t.transport
    <> "\"\ntoken = \""
    <> t.token
    <> "\"\nports = [\n"
    <> join ",\n" (map quoted t.ports)
    <> "\n]"
    <> "\nnodelay = "
    <> flag t.nodelay
    <> "\nsnappy = "
    <> flag t.snappy
    <> "\nkeepalive_period = "
    <> show_nat t.keepalive
    <> "\nchannel_size = "
    <> show_nat t.channel_size
    <> "\nlog_level = \"info\"\nheartbeat = 40\nmux_con = "
    <> show_nat t.mux_con
    <> "\n"

unfoldable pub generate_client_config : Tunnel → String → String
unfolding show_int show_nat
generate_client_config t server_public_ip =
    "[client]\nremote_addr = \""
    <> server_public_ip
    <> ":"
    <> show_int t.core_port
    <> "\"\ntransport = \""
    <> t.transport
    <> "\"\ntoken = \""
    <> t.token
    <> "\"\nconnection_pool = 4\nretry_interval = 3\nnodelay = "
    <> flag t.nodelay
    <> "\nsnappy = "
    <> flag t.snappy
    <> "\nkeepalive_period = "
    <> show_nat t.keepalive
    <> "\nlog_level = \"info\"\ndial_timeout = 10\nmux_con = "
    <> show_nat t.mux_con
    <> "\n"

unfoldable pub generate_docker_compose : Tunnel → String → String → String × String
unfolding generate_server_config generate_client_config
generate_docker_compose t role server_ip = (
  "version: '3.8'\n\nservices:\n  hawal-backhaul:\n    image: musixal/backhaul:latest\n    container_name: hawal_"
      <> t.id <> "_" <> role
      <> "\n    restart: always\n    network_mode: host\n    volumes:\n      - ./config.toml:/root/config.toml\n    command: [\"-c\", \"/root/config.toml\"]\n",
  if role == "server"
      then generate_server_config t "0.0.0.0"
      else generate_client_config t server_ip,
)
