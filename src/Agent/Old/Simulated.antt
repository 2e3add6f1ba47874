-- ===== src/Agent/Old/Simulated.antt =====
-- When a state of the agent of app/static/js/agent.py is one of the older agent, agent/agent.py, and
-- that stops and starts lead from such states to such states.
use mathlib.Core.Option
use text.Mathlib.TextLemmas.{append_cancel_right}
use hawal.Base.{ℕ, String, ◌<>◌, ◌≡◌, refl, sym, ◌∙◌, ap, arith, Bool, true, false, not, ◌||◌}
use hawal.Base.{Option, none, some, List, inl, inr}
use hawal.Base.Tests.{if◌then◌else◌, Bool-cases}
use hawal.Base.Eq.{◌==◌, string_eq}
use hawal.Base.Dict.{lookup, put, pop, lookup-put, lookup-pop}
use hawal.Base.Int.{ℤ}
use hawal.Text.Decimal.{show_nat}
use hawal.Item.{Item}
use hawal.Agent.{Agent, Process, Metadata, Host}
use hawal.Agent.Running.{stop_tunnel_process, started, restart_tunnel_process}
use hawal.Agent.Apply.{marker, write_file, is_running, is_text, outdated, apply_file, launch_paqet}

abbrev pub with_configs : List (String × String) → Agent → Agent
with_configs cs b = record b { configs = cs }

module _ (n : ℕ) where
  -- The markers of the newer agent are the contents of the older one under the nonce.
  abbrev pub Tagged : List (String × String) → List (String × String) → Type 0
  Tagged cs ds = (j : String) → lookup j cs ≡ Option.map (λ c. marker c n) (lookup j ds)

  -- The same processes, details, files and rules.
  abbrev pub Same : Agent → Agent → Type 0
  Same a b = (cs : List (String × String)) × (a ≡ with_configs cs b) × Tagged cs b.configs

  Tagged-put :
      (i c : String) (cs ds : List (String × String))
      → Tagged cs ds
      → Tagged (put i (marker c n) cs) (put i c ds)
  Tagged-put i c cs ds t j =
      rw (lookup-put i j (marker c n) cs, lookup-put i j c ds, t j) (both (i == j))
    where
      both :
          (b : Bool)
          → (if b then some (marker c n) else Option.map (λ d. marker d n) (lookup j ds))
            ≡ Option.map (λ d. marker d n) (if b then some c else lookup j ds)
      both true = refl
      both false = refl

  Tagged-pop :
      (i : String) (cs ds : List (String × String)) → Tagged cs ds → Tagged (pop i cs) (pop i ds)
  Tagged-pop i cs ds t j = rw (lookup-pop i j cs, lookup-pop i j ds, t j) (both (i == j))
    where
      both :
          (b : Bool)
          → (if b then none else Option.map (λ d. marker d n) (lookup j ds))
            ≡ Option.map (λ d. marker d n) (if b then none else lookup j ds)
      both true = refl
      both false = refl

  same_text_under : (c d : String) → (marker c n == marker d n) ≡ (c == d)
  unfolding marker
  same_text_under c d = elim (Bool-cases (c == d)) [
    | inl e ↦
        ground (arith, e, string_eq.same_iff c d, string_eq.same_iff (marker c n) (marker d n))
    | inr e ↦ elim (Bool-cases (marker c n == marker d n)) [
      | inr f ↦ f ∙ sym e
      | inl f ↦
          let same =
            append_cancel_right c d ("\0restart:" <> show_nat n)
              ((string_eq.same_iff (marker c n) (marker d n)).0 f) in
          absurd (ground (arith, e, string_eq.same_iff c d, same))
    ]
  ]

  module _ (h : Host) where
    outdated-Tagged :
        (i c : String) (cs : List (String × String)) (b : Agent)
        → Tagged cs b.configs
        → outdated h i (marker c n) (with_configs cs b) ≡ outdated h i c b
    unfolding outdated
    outdated-Tagged i c cs b t =
        rw (t i)
          (ap (λ x. not (is_running h (lookup i b.processes)) || not x) (text (lookup i b.configs)))
      where
        text :
            (o : Option String)
            → is_text (Option.map (λ d. marker d n) o) (marker c n) ≡ is_text o c
        text none = refl
        text (some d) = same_text_under d c

    -- The table of markers after a stop.
    abbrev popped : Option Process → String → List (String × String) → List (String × String)
    popped o i cs = elim o [ none ↦ cs | some p ↦ pop i cs ]

    Tagged-popped :
        (o : Option Process) (i : String) (cs ds : List (String × String))
        → Tagged cs ds
        → Tagged (popped o i cs) (popped o i ds)
    Tagged-popped none i cs ds t = t
    Tagged-popped (some p) i cs ds t = Tagged-pop i cs ds t

    pub Same-stop :
        (i : String) (a b : Agent)
        → Same a b
        → Same (stop_tunnel_process i a) (stop_tunnel_process i b)
    unfolding stop_tunnel_process
    Same-stop i a b (cs, e, t) = (
      popped (lookup i b.processes) i cs,
      ap (stop_tunnel_process i) e,
      Tagged-popped (lookup i b.processes) i cs b.configs t,
    )

    Same-started :
        (o : Option Process) (i c : String) (m : Metadata) (a b : Agent)
        → Same a b
        → Same (started o i (marker c n) m a) (started o i c m b)
    Same-started none i c m a b s = s
    Same-started (some p) i c m a b (cs, e, t) = (
      put i (marker c n) cs,
      ap (started (some p) i (marker c n) m) e,
      Tagged-put i c cs b.configs t,
    )

    pub Same-restart :
        (i : String) (cmd : List String) (c : String) (m : Metadata) (a b : Agent)
        → Same a b
        → Same
            (restart_tunnel_process h i cmd (marker c n) m a)
            (restart_tunnel_process h i cmd c m b)
    unfolding restart_tunnel_process
    Same-restart i cmd c m a b s =
        Same-started (h.launch i cmd) i c m (stop_tunnel_process i a) (stop_tunnel_process i b)
          (Same-stop i a b s)

    pub Same-if :
        (x y : Bool) (a b a' b' : Agent)
        → x ≡ y
        → Same a b
        → Same a' b'
        → Same (if x then a else a') (if y then b else b')
    Same-if true true a b a' b' e s t = s
    Same-if false false a b a' b' e s t = t
    Same-if true false a b a' b' e s t = absurd (ground arith)
    Same-if false true a b a' b' e s t = absurd (ground arith)

    pub Same-outdated :
        (i c : String) (a b : Agent) → Same a b → outdated h i (marker c n) a ≡ outdated h i c b
    Same-outdated i c a b (cs, e, t) = ap (outdated h i (marker c n)) e ∙ outdated-Tagged i c cs b t

    pub Same-write_file :
        (path content : String) (a b : Agent)
        → Same a b
        → Same (write_file path content a) (write_file path content b)
    Same-write_file path content a b (cs, e, t) = (cs, ap (write_file path content) e, t)

    pub Same-apply_file :
        (i path c : String) (cmd : List String) (a b : Agent)
        → Same a b
        → Same (apply_file h i path c (marker c n) cmd a) (apply_file h i path c c cmd b)
    unfolding apply_file
    Same-apply_file i path c cmd a b s =
        Same-if (outdated h i (marker c n) a) (outdated h i c b) _ _ a b (Same-outdated i c a b s)
          (Same-restart i cmd c Metadata.plain (write_file path c a) (write_file path c b)
            (Same-write_file path c a b s))
          s

    pub Same-launch_paqet :
        (done : Bool) (i : Item) (core_port : ℤ) (ports : List String) (path c : String)
        (a b : Agent)
        → Same a b
        → Same
            (launch_paqet h done i core_port ports path (marker c n) a)
            (launch_paqet h done i core_port ports path c b)
    Same-launch_paqet false i core_port ports path c a b s = s
    Same-launch_paqet true i core_port ports path c a b s = Same-restart i.tunnel_id _ c _ a b s
