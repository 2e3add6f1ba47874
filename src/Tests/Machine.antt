-- ===== src/Tests/Machine.antt =====
-- The theorems on the agent, on a machine where every program starts.
use hawal.Base.{
  ◌+◌, ◌≡◌, refl, Bool, true, false, not, ◌&&◌, ◌||◌, none, some, List, [], ◌∷◌, map, arith,
}
use hawal.Base.Tests.{if◌then◌else◌}
use hawal.Base.Eq.{◌==◌, string_eq}
use hawal.Base.Lists.{contains, All, Distinct}
use hawal.Base.Rows.{find_row}
use hawal.Base.Dict.{lookup}
use hawal.Base.Int.{pos, ltb_ℤ}
use hawal.Item.{Item, Payload, server, client}
use hawal.Agent.{Agent, Process, Metadata, Host}
use hawal.Agent.Firewall.{Rule, rule_eq, paqet_rules, configure_paqet_iptables}
use hawal.Agent.Firewall.Laws.{configure_paqet_iptables_exact}
use hawal.Agent.Running.Laws.{IsAligned}
use hawal.Agent.Apply.{id_of, apply_configs}
use hawal.Agent.Apply.Laws.{apply_configs-IsAligned}
use hawal.Agent.Apply.Settled.{Working, IsCurrent, HasCommand}
use hawal.Agent.Apply.Round.{apply_configs-IsCurrent, apply_configs-twice}
use hawal.Agent.Apply.{marker}
use hawal.Agent.Nonce.{
  Daemon, SyncAnswer, IsSaved, start, sync_tunnels, load_agent_restart_nonce,
  sync_tunnels-restarts_once,
}
use hawal.Agent.Traffic.{Reading, final, total_in, total_out, observe_all, observe_all-total}

abbrev pub host : Host
host = record {
  launch = λ i cmd. some (record { pid = 1; command = cmd });
  alive = λ p. true;
  hawal_core_ready = true;
  paqet_ready = true;
  gost_ready = true;
  iface = "eth0";
  local_ip = "5.6.7.8";
  gateway_mac = "aa:bb:cc:dd:ee:ff";
  refuses = λ r. false;
  core_json = λ c. "{}";
  command_json = λ c. "[]";
}

pub host-Working : Working host
host-Working = record {
  launches = λ i cmd. (record { pid = 1; command = cmd }, refl, refl);
  core_there = refl;
  paqet_there = refl;
  gost_there = refl;
  network = refl;
  accepts = λ r. refl;
}

abbrev old_process : Process
old_process = record { pid = 7; command = "backhaul" ∷ [] }

-- An agent that runs a tunnel that the panel no longer lists.
abbrev pub idle : Agent
idle = record {
  processes = ("old", old_process) ∷ [];
  configs = ("old", "content") ∷ [];
  metadata = ("old", Metadata.plain) ∷ [];
  files = [];
  rules = [];
}

pub idle-IsAligned : IsAligned idle
unfolding lookup find_row
idle-IsAligned j = ground arith

abbrev pub items : List Item
items =
    record {
      tunnel_id = "first";
      role = client;
      payload = Payload.gost ("-L" ∷ []);
      restart_nonce = 0;
    }
    ∷ record {
      tunnel_id = "second";
      role = server;
      payload = Payload.paqet (pos 8888) [] "interface: {{INTERFACE}}";
      restart_nonce = 2;
    }
    ∷ []

items-Distinct : Distinct (map (id_of host) items)
unfolding contains
items-Distinct = (refl, (refl, tt))

items-HasCommand : All (HasCommand host) items
items-HasCommand = (refl, (tt, tt))

apply_configs-IsAligned_example : IsAligned (apply_configs host items idle)
apply_configs-IsAligned_example = apply_configs-IsAligned host items idle idle-IsAligned

apply_configs-IsCurrent_example : All (λ i. IsCurrent host i (apply_configs host items idle)) items
apply_configs-IsCurrent_example =
    apply_configs-IsCurrent host host-Working items idle items-Distinct items-HasCommand

apply_configs-twice_example :
    apply_configs host items (apply_configs host items idle) ≡ apply_configs host items idle
apply_configs-twice_example =
    apply_configs-twice host host-Working items idle items-Distinct items-HasCommand

abbrev other_rule : Rule
other_rule = record { table = "raw"; chain = "OUTPUT"; rule = "-p udp -j NOTRACK" }

abbrev refuses_mangle : Rule → Bool
refuses_mangle r = r.table == "mangle"

configure_paqet_iptables_exact_example :
    let (done, more) =
      configure_paqet_iptables refuses_mangle server (pos 8888) (other_rule ∷ []) in
    let own = contains (paqet_rules server (pos 8888)) other_rule in
    contains more other_rule ≡ (
      if done
      then contains (other_rule ∷ []) other_rule || own
      else contains (other_rule ∷ []) other_rule && not own)
configure_paqet_iptables_exact_example =
    configure_paqet_iptables_exact refuses_mangle server (pos 8888) (other_rule ∷ []) other_rule

abbrev pub daemon : Daemon
daemon = record {
  agent = idle;
  agent_restart_nonce = pos 0;
  shutdown_requested = false;
  nonce_file = none;
}

abbrev pub answer : SyncAnswer
answer = record { configs = items; agent_restart_nonce = pos 1 }

sync_tunnels-restarts_once_example :
    let d = sync_tunnels host (some answer) daemon in
    let next = start d.agent d.nonce_file in
    (d.shutdown_requested ≡ ltb_ℤ (pos 0) (pos 1))
    × IsSaved d
    × ((sync_tunnels host (some answer) next).shutdown_requested ≡ false)
unfolding load_agent_restart_nonce
sync_tunnels-restarts_once_example = sync_tunnels-restarts_once host answer daemon refl refl

abbrev readings : List Reading
readings = (10, 4) ∷ (10, 9) ∷ (35, 9) ∷ []

observe_all-total_example :
    let reports = observe_all "first" ((5, 3) ∷ readings) [] in
    (5 + total_in reports ≡ (final (5, 3) readings).0)
    × (3 + total_out reports ≡ (final (5, 3) readings).1)
observe_all-total_example =
    observe_all-total "first" (5, 3) readings
      ((omega arith, omega arith, (omega arith, omega arith, (omega arith, omega arith, tt))))

abbrev fresh : Agent
fresh = record idle {
  processes = ("first", old_process) ∷ [];
  configs = ("first", marker "[]" 4) ∷ [];
}
