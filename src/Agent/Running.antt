-- ===== src/Agent/Running.antt =====
-- `stop_tunnel_process` and `restart_tunnel_process` of app/static/js/agent.py.
pub mod Laws
use hawal.Base.{String, Option, none, some, List}
use hawal.Base.Dict.{lookup, put, pop}
use hawal.Agent.{Agent, Process, Metadata, plain, gost, paqet, Host}
use hawal.Agent.Firewall.{Rule, cleanup_paqet_iptables}

abbrev pub cleaned : Option Metadata → List Rule → List Rule
cleaned (some (paqet role core_port ports)) rules = cleanup_paqet_iptables role core_port rules
cleaned other rules = rules

-- The process is terminated or killed, which always succeeds.
unfoldable pub stop_tunnel_process : String → Agent → Agent
stop_tunnel_process tun_id a = record a {
  processes = pop tun_id a.processes;
  configs = elim (lookup tun_id a.processes) [ none ↦ a.configs | some p ↦ pop tun_id a.configs ];
  metadata = pop tun_id a.metadata;
  rules = cleaned (lookup tun_id a.metadata) a.rules;
}

-- The three tables after `Popen`; they stay as the stop left them where it raises.
abbrev pub started : Option Process → String → String → Metadata → Agent → Agent
started none tun_id content_hash metadata a = a
started (some proc) tun_id content_hash metadata a = record a {
  processes = put tun_id proc a.processes;
  configs = put tun_id content_hash a.configs;
  metadata = put tun_id metadata a.metadata;
}

unfoldable pub restart_tunnel_process :
    Host → String → List String → String → Metadata → Agent → Agent
restart_tunnel_process h tun_id cmd content_hash metadata a =
    started (h.launch tun_id cmd) tun_id content_hash metadata (stop_tunnel_process tun_id a)
