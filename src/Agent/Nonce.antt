-- ===== src/Agent/Nonce.antt =====
-- The restart nonce of app/static/js/agent.py: its file, and `sync_tunnels`, which asks the daemon
-- to stop once the panel's nonce is above the stored one; systemd then starts it again.
use hawal.Base.{
  String, ◌≡◌, ◌≢◌, refl, arith, Bool, true, false, Option, none, some, List, [], inl, inr,
}
use hawal.Base.Tests.{if◌then◌else◌, Bool-cases}
use hawal.Base.Eq.{◌==◌, string_eq}
use hawal.Base.Int.{ℤ, pos, ltb_ℤ}
use hawal.Text.{strip}
use hawal.Text.Decimal.{parse_int, show_int, strip-show_int, parse_int-show_int, show_int-ne-empty}
use hawal.Item.{Item}
use hawal.Agent.{Agent, Host}
use hawal.Agent.Apply.{apply_configs}

abbrev pub or_zero : Option ℤ → ℤ
or_zero none = pos 0
or_zero (some n) = n

-- `_load_agent_restart_nonce`; none is a file that is not there.
unfoldable pub load_agent_restart_nonce : Option String → ℤ
load_agent_restart_nonce none = pos 0
load_agent_restart_nonce (some text) =
    if strip text == "" then pos 0 else or_zero (parse_int (strip text))

-- `_save_agent_restart_nonce`
unfoldable pub save_agent_restart_nonce : ℤ → Option String → Option String
save_agent_restart_nonce nonce file = some (show_int nonce)

pub record Daemon : Type 0 where
  pub agent : Agent
  pub agent_restart_nonce : ℤ
  pub shutdown_requested : Bool
  pub nonce_file : Option String

-- The answer of `/api/agent/sync` as the agent reads it.
pub record SyncAnswer : Type 0 where
  pub configs : List Item
  pub agent_restart_nonce : ℤ

-- `__init__`, on the rules and files that the host has.
unfoldable pub start : Agent → Option String → Daemon
start host file = record {
  agent = record host { processes = []; configs = []; metadata = [] };
  agent_restart_nonce = load_agent_restart_nonce file;
  shutdown_requested = false;
  nonce_file = file;
}

-- `sync_tunnels`; none stands for a request that fails.
unfoldable pub sync_tunnels : Host → Option SyncAnswer → Daemon → Daemon
sync_tunnels h none d = d
sync_tunnels h (some answer) d =
    let applied = record d { agent = apply_configs h answer.configs d.agent } in
    if ltb_ℤ d.agent_restart_nonce answer.agent_restart_nonce
    then record applied {
      agent_restart_nonce = answer.agent_restart_nonce;
      shutdown_requested = true;
      nonce_file = save_agent_restart_nonce answer.agent_restart_nonce d.nonce_file;
    }
    else applied

load-save :
    (n : ℤ) (file : Option String) → load_agent_restart_nonce (save_agent_restart_nonce n file) ≡ n
unfolding load_agent_restart_nonce save_agent_restart_nonce
load-save n file =
    rw (strip-show_int n, parse_int-show_int n) (filled_in (show_int n) (show_int-ne-empty n))
  where
    filled_in : (s : String) → s ≢ "" → (if s == "" then pos 0 else n) ≡ n
    filled_in s full = elim (Bool-cases (s == "")) [
      | inl e ↦ absurd (full ((string_eq.same_iff s "").0 e))
      | inr e ↦ rw e refl
    ]

-- What the daemon remembers is what its file says.
abbrev pub IsSaved : Daemon → Type 0
IsSaved d = load_agent_restart_nonce d.nonce_file ≡ d.agent_restart_nonce

-- A request for a restart counts once. The daemon asks to stop exactly if the panel's nonce is
-- above its own; it has saved the nonce by then, so that the daemon that starts next, from the
-- file, does not stop again on the same answer.
pub sync_tunnels-restarts_once :
    (h : Host) (answer : SyncAnswer) (d : Daemon)
    → IsSaved d
    → d.shutdown_requested ≡ false
    → let d' = sync_tunnels h (some answer) d in
      let next = start d'.agent d'.nonce_file in
      (d'.shutdown_requested ≡ ltb_ℤ d.agent_restart_nonce answer.agent_restart_nonce)
      × IsSaved d'
      × ((sync_tunnels h (some answer) next).shutdown_requested ≡ false)
unfolding sync_tunnels start
sync_tunnels-restarts_once h answer d saved run =
    elim (Bool-cases (ltb_ℤ d.agent_restart_nonce answer.agent_restart_nonce)) [
      | inl e ↦ ground (arith, load-save answer.agent_restart_nonce d.nonce_file)
      | inr e ↦ ground (arith, saved)
    ]
