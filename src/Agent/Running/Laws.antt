-- ===== src/Agent/Running/Laws.antt =====
-- What a stop and a restart leave in the tables of the agent.
use hawal.Base.{String, ◌≡◌, refl, ◌∙◌, arith, Bool, true, false, Option, none, some, List}
use hawal.Base.Tests.{if◌then◌else◌}
use hawal.Base.Eq.{◌==◌, string_eq}
use hawal.Base.Dict.{lookup, lookup-put, lookup-pop}
use hawal.Agent.{Agent, Process, Metadata, Host}
use hawal.Agent.Running.{stop_tunnel_process, started, restart_tunnel_process}

-- A tunnel is in all three tables or in none.
abbrev pub aligned : Option Process → Option String → Option Metadata → Bool
aligned none none none = true
aligned (some p) (some c) (some m) = true
aligned p c m = false

abbrev pub IsAligned : Agent → Type 0
IsAligned a =
    (j : String) → aligned (lookup j a.processes) (lookup j a.configs) (lookup j a.metadata) ≡ true

pub lookup-stop :
    (i j : String) (a : Agent)
    → lookup j (stop_tunnel_process i a).processes ≡ (if i == j then none else lookup j a.processes)
unfolding stop_tunnel_process
lookup-stop i j a = lookup-pop i j a.processes

pub configs-stop :
    (i j : String) (a : Agent)
    → (i == j) ≡ false
    → lookup j (stop_tunnel_process i a).configs ≡ lookup j a.configs
unfolding stop_tunnel_process
configs-stop i j a ne = ground (arith, lookup-pop i j a.configs)

pub stop_tunnel_process-IsAligned :
    (i : String) (a : Agent) → IsAligned a → IsAligned (stop_tunnel_process i a)
unfolding stop_tunnel_process
stop_tunnel_process-IsAligned i a v j = ground (
  arith,
  v j,
  lookup-pop i j a.processes,
  lookup-pop i j a.configs,
  lookup-pop i j a.metadata,
  string_eq.same_iff i j,
)

started-IsAligned :
    (o : Option Process) (i c : String) (m : Metadata) (a : Agent)
    → IsAligned a
    → IsAligned (started o i c m a)
started-IsAligned none i c m a v j = v j
started-IsAligned (some p) i c m a v j = ground (
  arith,
  v j,
  lookup-put i j p a.processes,
  lookup-put i j c a.configs,
  lookup-put i j m a.metadata,
)

pub restart_tunnel_process-IsAligned :
    (h : Host) (i : String) (cmd : List String) (c : String) (m : Metadata) (a : Agent)
    → IsAligned a
    → IsAligned (restart_tunnel_process h i cmd c m a)
unfolding restart_tunnel_process
restart_tunnel_process-IsAligned h i cmd c m a v =
    started-IsAligned (h.launch i cmd) i c m (stop_tunnel_process i a)
      (stop_tunnel_process-IsAligned i a v)

-- The tables of another tunnel after a restart.
pub lookup-restart :
    (h : Host) (i j : String) (cmd : List String) (c : String) (m : Metadata) (a : Agent)
    → (i == j) ≡ false
    → let b = restart_tunnel_process h i cmd c m a in
      (lookup j b.processes ≡ lookup j a.processes) × (lookup j b.configs ≡ lookup j a.configs)
unfolding restart_tunnel_process
lookup-restart h i j cmd c m a ne =
    other (h.launch i cmd) (lookup-stop i j a ∙ rw ne refl) (configs-stop i j a ne)
  where
    other :
        (o : Option Process)
        → lookup j (stop_tunnel_process i a).processes ≡ lookup j a.processes
        → lookup j (stop_tunnel_process i a).configs ≡ lookup j a.configs
        → let b = started o i c m (stop_tunnel_process i a) in
          (lookup j b.processes ≡ lookup j a.processes) × (lookup j b.configs ≡ lookup j a.configs)
    other none e f = (e, f)
    other (some p) e f = (
      lookup-put i j p (stop_tunnel_process i a).processes ∙ rw ne e,
      lookup-put i j c (stop_tunnel_process i a).configs ∙ rw ne f,
    )
