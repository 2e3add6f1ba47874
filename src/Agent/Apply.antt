-- ===== src/Agent/Apply.antt =====
-- `apply_configs` of app/static/js/agent.py: one round of bringing the processes in line with the
-- panel's answer.
pub mod Laws
pub mod Settled
pub mod Round
pub mod Marker
use hawal.Base.{
  ℕ, String, ◌<>◌, Bool, true, false, not, ◌||◌, Option, none, some, List, [], ◌∷◌, map,
}
use hawal.Base.Tests.{if◌then◌else◌}
use hawal.Base.Eq.{◌==◌, string_eq}
use hawal.Base.Lists.{contains}
use hawal.Base.Dict.{lookup, put, keys}
use hawal.Base.Int.{ℤ}
use hawal.Text.{replace}
use hawal.Text.Decimal.{show_nat}
use hawal.Item.{Item, Payload, Role}
use hawal.Agent.{Agent, Process, Metadata, Host}
use hawal.Agent.Firewall.{configure_paqet_iptables}
use hawal.Agent.Running.{stop_tunnel_process, restart_tunnel_process}

unfoldable pub marker : String → ℕ → String
marker content restart_nonce = content <> "\0restart:" <> show_nat restart_nonce

abbrev pub is_running : Host → Option Process → Bool
is_running h none = false
is_running h (some proc) = h.alive proc

abbrev pub is_text : Option String → String → Bool
is_text none s = false
is_text (some t) s = t == s

-- `not is_running or self.running_configs.get(tun_id) != marker`
unfoldable pub outdated : Host → String → String → Agent → Bool
outdated h tun_id mark a =
    not (is_running h (lookup tun_id a.processes)) || not (is_text (lookup tun_id a.configs) mark)

abbrev pub write_file : String → String → Agent → Agent
write_file path content a = record a { files = put path content a.files }

abbrev pub config_path : String → String → String
config_path tun_id extension = "/opt/hawal/tunnels/" <> tun_id <> extension

module _ (h : Host) where
  -- The cores that are started on a file: rewritten and restarted where something changed.
  unfoldable pub apply_file : String → String → String → String → List String → Agent → Agent
  apply_file tun_id path content mark cmd a =
      if outdated h tun_id mark a
      then restart_tunnel_process h tun_id cmd mark Metadata.plain (write_file path content a)
      else a

  unfoldable pub apply_core : Item → String → Agent → Agent
  apply_core i content a =
      let path = config_path i.tunnel_id ".json" in
      if h.hawal_core_ready
      then apply_file i.tunnel_id path content (marker content i.restart_nonce)
          ("/opt/hawal/bin/hawal-core" ∷ "-config" ∷ path ∷ []) a
      else a

  unfoldable pub apply_backhaul : Item → String → Agent → Agent
  apply_backhaul i toml a =
      let path = config_path i.tunnel_id ".toml" in
      apply_file i.tunnel_id path toml (marker toml i.restart_nonce)
        ("/opt/hawal/bin/backhaul" ∷ "-c" ∷ path ∷ []) a

  abbrev pub filled : String → String
  filled yaml =
      replace "{{ROUTER_MAC}}" h.gateway_mac
        (replace "{{LOCAL_IP}}" h.local_ip (replace "{{INTERFACE}}" h.iface yaml))

  -- Paqet after its rules: without them the tunnel stays stopped.
  abbrev pub launch_paqet : Bool → Item → ℤ → List String → String → String → Agent → Agent
  launch_paqet false i core_port ports path mark a = a
  launch_paqet true i core_port ports path mark a =
      restart_tunnel_process h i.tunnel_id ("/opt/hawal/bin/paqet" ∷ "run" ∷ "-c" ∷ path ∷ []) mark
        (Metadata.paqet i.role core_port ports) a

  unfoldable pub start_paqet : Item → ℤ → List String → String → String → Agent → Agent
  start_paqet i core_port ports content mark a =
      let path = config_path i.tunnel_id ".yaml" in
      let stopped = write_file path content (stop_tunnel_process i.tunnel_id a) in
      let (done, rules) = configure_paqet_iptables h.refuses i.role core_port stopped.rules in
      launch_paqet done i core_port ports path mark (record stopped { rules = rules })

  unfoldable pub apply_paqet : Item → ℤ → List String → String → Agent → Agent
  apply_paqet i core_port ports yaml a =
      let mark = marker (filled yaml) i.restart_nonce in
      if h.paqet_ready
      then if h.iface == "" || h.local_ip == "" || h.gateway_mac == ""
        then stop_tunnel_process i.tunnel_id a
        else if outdated h i.tunnel_id mark a
        then start_paqet i core_port ports (filled yaml) mark a
        else a
      else a

  abbrev pub is_empty : List String → Bool
  is_empty [] = true
  is_empty (x ∷ xs) = false

  unfoldable pub apply_gost : Item → List String → Agent → Agent
  apply_gost i command a =
      let mark = marker (h.command_json command) i.restart_nonce in
      if h.gost_ready
      then if is_empty command
        then a
        else if outdated h i.tunnel_id mark a
        then restart_tunnel_process h i.tunnel_id ("/opt/hawal/bin/gost" ∷ command) mark
            (Metadata.gost i.role) a
        else a
      else a

  unfoldable pub apply_payload : Payload → Item → Agent → Agent
  apply_payload (Payload.core config) i a = apply_core i (h.core_json config) a
  apply_payload (Payload.backhaul toml) i a = apply_backhaul i toml a
  apply_payload (Payload.paqet core_port ports yaml) i a = apply_paqet i core_port ports yaml a
  apply_payload (Payload.gost command) i a = apply_gost i command a

  unfoldable pub apply_items : List Item → Agent → Agent
  apply_items [] a = a
  apply_items (i ∷ is) a = apply_items is (apply_payload i.payload i a)

  -- The last loop, on the keys that were there when it began.
  unfoldable pub stop_removed : List String → List String → Agent → Agent
  stop_removed active_ids [] a = a
  stop_removed active_ids (tun_id ∷ ids) a =
      stop_removed active_ids ids
        (if contains active_ids tun_id then a else stop_tunnel_process tun_id a)

  abbrev pub id_of : Item → String
  id_of i = i.tunnel_id

  unfoldable pub apply_configs : List Item → Agent → Agent
  apply_configs configs a =
      let b = apply_items configs a in stop_removed (map id_of configs) (keys b.processes) b
