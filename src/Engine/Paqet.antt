-- ===== src/Engine/Paqet.antt =====
-- app/paqet_engine.py: the port rules and the YAML of the Paqet core.
use hawal.Base.{ℕ, String, ◌<>◌, ◌≡◌, ◌≤◌, refl, ap, ◌∙◌, ◌||◌, inl, inr, arith, true}
use hawal.Base.{List, [], ◌∷◌, map}
use hawal.Base.Tests.{leb, if◌then◌else◌, Bool-cases}
use hawal.Base.Eq.{◌==◌, string_eq}
use hawal.Base.Lists.{All}
use hawal.Text.{strip, before, after, has, join}
use hawal.Text.Split.{has-append}
use hawal.Text.Decimal.{show_int, show_nat}
use hawal.Db.{Tunnel}

pub record Forward : Type 0 where
  pub listen : String
  pub target : String

abbrev local_target : String → String
local_target port = "127.0.0.1:" <> port

-- One rule, stripped and not empty.
unfoldable pub parse_rule : String → Forward
unfolding has before after strip
parse_rule p =
    if has b'=' p
    then (let target = strip (after b'=' p) in
        record {
          listen = strip (before b'=' p);
          target = if has b':' target then target else local_target target;
        })
    else if has b':' p
    then record { listen = strip (before b':' p); target = local_target (strip (after b':' p)) }
    else record { listen = p; target = local_target p }

unfoldable pub parse_ports_list : List String → List Forward
unfolding parse_rule strip
parse_ports_list [] = []
parse_ports_list (rule ∷ rules) =
    let p = strip rule in
    let rest = parse_ports_list rules in if p == "" then rest else parse_rule p ∷ rest

-- `raw_chan if raw_chan <= 1400 else 1150`
unfoldable pub mtu : ℕ → ℕ
mtu raw_chan = if leb raw_chan 1400 then raw_chan else 1150

transport_block : Tunnel → String
transport_block t =
    "\ntransport:\n  protocol: \"kcp\"\n  conn: "
    <> show_nat t.mux_con
    <> "\n  tcpbuf: 8192\n  udpbuf: 4096\n  kcp:\n    key: \""
    <> t.token
    <> "\"\n    mode: \"fast\"\n    block: \"aes-128-gcm\"\n    mtu: "
    <> show_nat (mtu t.channel_size)
    <> "\n"

-- The markers in double braces are filled in by the agent.
unfoldable pub generate_paqet_server_config : Tunnel → String
unfolding transport_block mtu show_int show_nat
generate_paqet_server_config t =
    "# Hawal Paqet Server Config (Auto-Generated)\nrole: \"server\"\n\nlog:\n  level: \"info\"\n\nlisten:\n  addr: \":"
    <> show_int t.core_port
    <> "\"\n\nnetwork:\n  interface: \"{{INTERFACE}}\"\n  ipv4:\n    addr: \"{{LOCAL_IP}}:"
    <> show_int t.core_port
    <> "\"\n    router_mac: \"{{ROUTER_MAC}}\"\n  tcp:\n    local_flag: [\"PA\"]\n  pcap:\n    sockbuf: 8388608\n"
    <> transport_block t

forward_line : Forward → String
forward_line f =
    "  - listen: \"0.0.0.0:" <> f.listen <> "\"\n    target: \"" <> f.target
    <> "\"\n    protocol: \"tcp\" "

abbrev default_forward : Forward
default_forward = record { listen = "443"; target = "127.0.0.1:443" }

forward_block : List Forward → String
forward_block [] = forward_line default_forward
forward_block (f ∷ fs) = join "\n" (map forward_line (f ∷ fs))

unfoldable pub generate_paqet_client_config : Tunnel → String → String
unfolding transport_block mtu forward_block forward_line parse_ports_list join show_int show_nat
generate_paqet_client_config t server_ip =
    "# Hawal Paqet Client Config (Auto-Generated)\nrole: \"client\"\n\nlog:\n  level: \"info\"\n\nforward:\n"
    <> forward_block (parse_ports_list t.ports)
    <> "\n\nnetwork:\n  interface: \"{{INTERFACE}}\"\n  ipv4:\n    addr: \"{{LOCAL_IP}}:0\"\n    router_mac: \"{{ROUTER_MAC}}\"\n  tcp:\n    local_flag: [\"PA\"]\n    remote_flag: [\"PA\"]\n  pcap:\n    sockbuf: 4194304\n\nserver:\n  addr: \""
    <> server_ip
    <> ":"
    <> show_int t.core_port
    <> "\"\n"
    <> transport_block t

host_has : has b':' "127.0.0.1:" ≡ true
unfolding has
host_has = refl

has_local : (s : String) → has b':' (local_target s) ≡ true
has_local s = has-append b':' "127.0.0.1:" s ∙ ap (λ b. b || has b':' s) host_has

abbrev pub HasHost : Forward → Type 0
HasHost f = has b':' f.target ≡ true

parse_rule-HasHost : (p : String) → HasHost (parse_rule p)
unfolding parse_rule
parse_rule-HasHost p =
    ground (arith, has_local (strip (after b'=' p)), has_local (strip (after b':' p)), has_local p)

-- Whatever form the rules have, each forward has a target with a host: a bare port is one of the
-- local host.
pub parse_ports_list-HasHost : (rules : List String) → All HasHost (parse_ports_list rules)
unfolding parse_ports_list
parse_ports_list-HasHost [] = tt
parse_ports_list-HasHost (rule ∷ rules) = elim (Bool-cases (strip rule == "")) [
  | inl e ↦ rw e (parse_ports_list-HasHost rules)
  | inr e ↦ rw e (parse_rule-HasHost (strip rule), parse_ports_list-HasHost rules)
]

-- The MTU that a configuration names is never above 1400.
pub mtu-le : (raw : ℕ) → mtu raw ≤ 1400
unfolding mtu
mtu-le raw = ground arith
