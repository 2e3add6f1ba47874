-- ===== src/Agent/Run.antt =====
-- `run` of app/static/js/agent.py: the rounds of the daemon and its end. Between two rounds it
-- sleeps; a signal asks it to stop at the next test of the loop.
pub mod Ended
use hawal.Base.{ℕ, String, Bool, true, false, ◌||◌, Option, none, some, List, [], ◌∷◌}
use hawal.Base.Tests.{if◌then◌else◌}
use hawal.Base.Dict.{keys}
use hawal.Agent.{Agent, Process, Host}
use hawal.Agent.Running.{stop_tunnel_process}
use hawal.Agent.Nonce.{Daemon, SyncAnswer, sync_tunnels}
use hawal.Agent.Reports.{report_logs}
use hawal.Agent.Counters.{paqet_reading, io_reading}
use hawal.Agent.Traffic.{Counters, Report, track_traffic}

-- What the outside does in one round; what the agent sends in it is not kept.
pub record Round : Type 0 where
  pub answer : Option SyncAnswer
  pub now : ℕ
  pub journal : Option String
  pub file : String → Option String
  pub sent : List (String × String) → Bool
  pub list_chain : String → Option String
  pub proc_io : Process → Option (List String)
  pub signalled : Bool

pub record Runner : Type 0 where
  pub daemon : Daemon
  pub last_log_report : ℕ
  pub counters : Counters

-- The body of the loop. The heartbeat only reads the machine.
unfoldable pub one_round : Host → Round → Runner → Runner
unfolding report_logs track_traffic paqet_reading io_reading
one_round h r s =
    let d = sync_tunnels h r.answer s.daemon in
    let (sent, last) =
      report_logs r.now r.journal r.file r.sent (keys d.agent.processes) s.last_log_report in
    let (reports, counters) =
      track_traffic h.alive (paqet_reading r.list_chain) (λ p. io_reading (r.proc_io p))
        d.agent.processes d.agent.metadata s.counters in
    record {
      daemon = record d { shutdown_requested = d.shutdown_requested || r.signalled };
      last_log_report = last;
      counters = counters;
    }

-- The loop of the `finally`.
unfoldable pub stop_all : List String → Agent → Agent
stop_all [] a = a
stop_all (tun_id ∷ ids) a = stop_all ids (stop_tunnel_process tun_id a)

unfoldable pub finish : Runner → Runner
unfolding stop_all
finish s =
    let a = s.daemon.agent in
    record s { daemon = record s.daemon { agent = stop_all (keys a.processes) a } }

-- The daemon over the given rounds, or over the first of them where it stops.
unfoldable pub run : Host → List Round → Runner → Runner
unfolding one_round finish
run h [] s = if s.daemon.shutdown_requested then finish s else s
run h (r ∷ rs) s =
    let rest = run h rs (one_round h r s) in if s.daemon.shutdown_requested then finish s else rest
