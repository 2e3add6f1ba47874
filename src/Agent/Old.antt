-- ===== src/Agent/Old.antt =====
-- agent/agent.py, the older agent: it knows no GOST core and no restart nonces, and remembers the
-- content itself of what it started. Its functions for processes, iptables and counters are those of
-- app/static/js/agent.py, word for word.
pub mod Deaf
pub mod Simulated
pub mod Rounds
use hawal.Base.{String, Bool, false, ◌||◌, Option, none, some, List, [], ◌∷◌, map}
use hawal.Base.Tests.{if◌then◌else◌}
use hawal.Base.Eq.{◌==◌, string_eq}
use hawal.Base.Dict.{keys}
use hawal.Base.Int.{ℤ}
use hawal.Item.{Item, Payload}
use hawal.Agent.{Agent, Host}
use hawal.Agent.Running.{stop_tunnel_process}
use hawal.Agent.Apply.{outdated, config_path, apply_file, filled, start_paqet, stop_removed, id_of}

module _ (h : Host) where
  unfoldable pub apply_core : Item → String → Agent → Agent
  apply_core i content a =
      let path = config_path i.tunnel_id ".json" in
      if h.hawal_core_ready
      then apply_file h i.tunnel_id path content content
          ("/opt/hawal/bin/hawal-core" ∷ "-config" ∷ path ∷ []) a
      else a

  unfoldable pub apply_backhaul : Item → String → Agent → Agent
  apply_backhaul i toml a =
      let path = config_path i.tunnel_id ".toml" in
      apply_file h i.tunnel_id path toml toml ("/opt/hawal/bin/backhaul" ∷ "-c" ∷ path ∷ []) a

  unfoldable pub apply_paqet : Item → ℤ → List String → String → Agent → Agent
  apply_paqet i core_port ports yaml a =
      let content = filled h yaml in
      if h.paqet_ready
      then if h.iface == "" || h.local_ip == "" || h.gateway_mac == ""
        then stop_tunnel_process i.tunnel_id a
        else if outdated h i.tunnel_id content a
        then start_paqet h i core_port ports content content a
        else a
      else a

  -- No branch of the code is for GOST.
  unfoldable pub apply_payload : Payload → Item → Agent → Agent
  apply_payload (Payload.core config) i a = apply_core i (h.core_json config) a
  apply_payload (Payload.backhaul toml) i a = apply_backhaul i toml a
  apply_payload (Payload.paqet core_port ports yaml) i a = apply_paqet i core_port ports yaml a
  apply_payload (Payload.gost command) i a = a

  unfoldable pub apply_items : List Item → Agent → Agent
  apply_items [] a = a
  apply_items (i ∷ is) a = apply_items is (apply_payload i.payload i a)

  unfoldable pub apply_configs : List Item → Agent → Agent
  apply_configs configs a =
      let b = apply_items configs a in stop_removed h (map (id_of h) configs) (keys b.processes) b

  -- `sync_tunnels`; none stands for a request that fails.
  unfoldable pub sync_tunnels : Option (List Item) → Agent → Agent
  sync_tunnels none a = a
  sync_tunnels (some configs) a = apply_configs configs a
