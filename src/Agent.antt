-- ===== src/Agent.antt =====
-- app/static/js/agent.py: the agent of a node, which keeps the processes of its tunnels. The
-- machine that it runs on answers as a `Host` says.
pub mod Firewall
pub mod Running
pub mod Apply
pub mod Nonce
pub mod Traffic
pub mod Counters
pub mod Reports
pub mod Run
pub mod Old
pub mod Binaries
pub mod Machine
pub mod Start
use hawal.Base.{ℕ, String, Bool, Option, List}
use hawal.Base.Int.{ℤ}
use hawal.Engine.Core.{CoreConfig}
use hawal.Item.{Role}
use Firewall.{Rule}

pub record Process : Type 0 where
  pub pid : ℕ
  pub command : List String

-- The dict that `restart_tunnel_process` keeps for the cleanup; `plain` is the empty one.
pub data Metadata : Type 0 where
  plain : Metadata
  gost : Role → Metadata
  paqet : Role → ℤ → List String → Metadata

-- `running_processes`, `running_configs` and `running_metadata`, with the files under CONFIG_DIR
-- and the rules of the host's iptables.
pub record Agent : Type 0 where
  pub processes : List (String × Process)
  pub configs : List (String × String)
  pub metadata : List (String × Metadata)
  pub files : List (String × String)
  pub rules : List Rule

-- What the agent asks of its machine: `subprocess.Popen` (none where it raises), `poll`, whether
-- the binaries are there, the three texts of `get_network_info`, the rules that `iptables -A`
-- refuses, and the texts that `json.dumps` writes.
pub record Host : Type 0 where
  pub launch : String → List String → Option Process
  pub alive : Process → Bool
  pub hawal_core_ready : Bool
  pub paqet_ready : Bool
  pub gost_ready : Bool
  pub iface : String
  pub local_ip : String
  pub gateway_mac : String
  pub refuses : Rule → Bool
  pub core_json : CoreConfig → String
  pub command_json : List String → String
