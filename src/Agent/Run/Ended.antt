-- ===== src/Agent/Run/Ended.antt =====
-- What is left of the tunnels when the daemon of app/static/js/agent.py ends.
use hawal.Base.{String, ◌≡◌, true, false, none, some}
use hawal.Base.{List, [], ◌∷◌, ◌⊎◌}
use hawal.Base.Tests.{if◌then◌else◌}
use hawal.Base.Lists.{contains}
use hawal.Base.Dict.{lookup}
use hawal.Base.Int.{ℤ}
use hawal.Item.{Role}
use hawal.Agent.{Agent, paqet, Host}
use hawal.Agent.Firewall.{Rule, rule_eq, paqet_rules}
use hawal.Agent.Run.{Round, Runner, one_round}

-- The daemon has no process, no marker, no details, and no rule of a Paqet tunnel is left of those
-- that it had.
pub record Left (before after : Agent) : Type 0 where
  pub no_process : (j : String) → lookup j after.processes ≡ none
  pub no_marker : (j : String) → lookup j after.configs ≡ none
  pub no_details : (j : String) → lookup j after.metadata ≡ none
  pub no_rule :
      (j : String) (role : Role) (p : ℤ) (ports : List String) (x : Rule)
      → lookup j before.metadata ≡ some (paqet role p ports)
      → contains (paqet_rules role p) x ≡ true
      → contains after.rules x ≡ false

-- The state in which the loop is left, or in which it still is.
unfoldable pub at_work : Host → List Round → Runner → Runner
at_work h [] s = s
at_work h (r ∷ rs) s =
    let rest = at_work h rs (one_round h r s) in if s.daemon.shutdown_requested then s else rest

abbrev pub Outcome : Runner → Runner → Type 0
Outcome last after =
    ((last.daemon.shutdown_requested ≡ false) × (after ≡ last))
    ⊎ ((last.daemon.shutdown_requested ≡ true) × Left last.daemon.agent after.daemon.agent)
