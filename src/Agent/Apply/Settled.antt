-- ===== src/Agent/Apply/Settled.antt =====
-- On a machine where everything works one entry of `apply_configs` leaves its tunnel running.
use hawal.Base.{String, ◌≡◌, refl, arith, Bool, true, false, ◌||◌, Option, none, some}
use hawal.Base.{List, [], ◌∷◌, inl, inr}
use hawal.Base.Tests.{if◌then◌else◌, Option-cases}
use hawal.Base.Eq.{◌==◌, string_eq}
use hawal.Base.Dict.{lookup-put}
use hawal.Base.Int.{ℤ}
use hawal.Item.{Item, Payload, core, backhaul, paqet, gost}
use hawal.Agent.{Agent, Process, Metadata, Host}
use hawal.Agent.Firewall.{Rule, configure_paqet_iptables}
use hawal.Agent.Running.{stop_tunnel_process, restart_tunnel_process}
use hawal.Agent.Firewall.{ensure_rule, ensure_rules, paqet_rules}
use hawal.Agent.Running.{started}
use hawal.Agent.Apply.{
  marker, outdated, apply_file, apply_core, apply_backhaul, filled, launch_paqet, start_paqet,
  apply_paqet, is_empty, apply_gost, apply_payload,
}

-- Every program starts and stays alive, the binaries and the network are there, and iptables
-- takes every rule.
pub record Working (h : Host) : Type 0 where
  pub launches :
      (i : String) (cmd : List String)
      → (p : Process) × (h.launch i cmd ≡ some p) × (h.alive p ≡ true)
  pub core_there : h.hawal_core_ready ≡ true
  pub paqet_there : h.paqet_ready ≡ true
  pub gost_there : h.gost_ready ≡ true
  pub network : (h.iface == "" || h.local_ip == "" || h.gateway_mac == "") ≡ false
  pub accepts : (r : Rule) → h.refuses r ≡ false

abbrev pub content_of : Host → Payload → String
content_of h (core config) = h.core_json config
content_of h (backhaul toml) = toml
content_of h (paqet core_port ports yaml) = filled h yaml
content_of h (gost command) = h.command_json command

abbrev pub mark_of : Host → Item → String
mark_of h i = marker (content_of h i.payload) i.restart_nonce

-- The process of the entry is alive and was started under the entry's marker.
abbrev pub IsCurrent : Host → Item → Agent → Type 0
IsCurrent h i a = outdated h i.tunnel_id (mark_of h i) a ≡ false

abbrev pub HasCommand : Host → Item → Type 0
HasCommand h i = elim i.payload [ gost command ↦ is_empty h command ≡ false | other ↦ Unit ]

pub clash : {b : Bool} → b ≡ true → b ≡ false → ⊥
clash p q = ground arith

if-either :
    (P : Agent → Type 0) (b : Bool) (x y : Agent)
    → (b ≡ true → P x)
    → (b ≡ false → P y)
    → P (if b then x else y)
if-either P true x y f g = f refl
if-either P false x y f g = g refl

module _ (h : Host) (w : Working h) where
  started-current :
      (o : Option Process) (p : Process) (i c : String) (m : Metadata) (a : Agent)
      → o ≡ some p
      → h.alive p ≡ true
      → outdated h i c (started o i c m a) ≡ false
  unfolding outdated
  started-current none p i c m a e l = absurd (ground arith)
  started-current (some q) p i c m a e l = ground (
    arith,
    lookup-put i i q a.processes,
    lookup-put i i c a.configs,
    string_eq.same_iff i i,
    string_eq.same_iff c c,
  )

  restart-current :
      (i : String) (cmd : List String) (c : String) (m : Metadata) (a : Agent)
      → outdated h i c (restart_tunnel_process h i cmd c m a) ≡ false
  unfolding restart_tunnel_process
  restart-current i cmd c m a =
      let (p, e, l) = w.launches i cmd in
      started-current (h.launch i cmd) p i c m (stop_tunnel_process i a) e l

  apply_file-current :
      (i path content mark : String) (cmd : List String) (a : Agent)
      → outdated h i mark (apply_file h i path content mark cmd a) ≡ false
  unfolding apply_file
  apply_file-current i path content mark cmd a =
      if-either (λ b. outdated h i mark b ≡ false) _ _ _ (λ e. restart-current i cmd mark _ _)
        (λ e. e)

  ensure_rules-done : (rs rules : List Rule) → (ensure_rules h.refuses rs rules).0 ≡ true
  unfolding ensure_rules ensure_rule
  ensure_rules-done [] rules = refl
  ensure_rules-done (r ∷ rs) rules = elim (Option-cases (ensure_rule h.refuses r rules)) [
    | inl e ↦ absurd (ground (arith, w.accepts r))
    | inr (more, e) ↦ rw (e, ensure_rules) (ensure_rules-done rs more)
  ]

  configure-done :
      (i : Item) (core_port : ℤ) (rules : List Rule)
      → (configure_paqet_iptables h.refuses i.role core_port rules).0 ≡ true
  unfolding configure_paqet_iptables
  configure-done i core_port rules =
      ground (arith, ensure_rules-done (paqet_rules i.role core_port) rules)

  launch_paqet-current :
      (done : Bool) (i : Item) (core_port : ℤ) (ports : List String) (path mark : String)
      (a : Agent)
      → done ≡ true
      → outdated h i.tunnel_id mark (launch_paqet h done i core_port ports path mark a) ≡ false
  launch_paqet-current false i core_port ports path mark a e = absurd (ground arith)
  launch_paqet-current true i core_port ports path mark a e = restart-current i.tunnel_id _ mark _ a

  start_paqet-current :
      (i : Item) (core_port : ℤ) (ports : List String) (content mark : String) (a : Agent)
      → outdated h i.tunnel_id mark (start_paqet h i core_port ports content mark a) ≡ false
  unfolding start_paqet
  start_paqet-current i core_port ports content mark a =
      launch_paqet-current _ i core_port ports _ mark _
        (configure-done i core_port (stop_tunnel_process i.tunnel_id a).rules)

  -- One entry ends up current, from any state.
  pub apply_payload-current :
      (p : Payload) (i : Item) (a : Agent)
      → HasCommand h (record i { payload = p })
      → outdated h i.tunnel_id (marker (content_of h p) i.restart_nonce) (apply_payload h p i a)
        ≡ false
  unfolding apply_payload apply_core apply_backhaul apply_paqet apply_gost
  apply_payload-current (core config) i a c =
      let mark = marker (h.core_json config) i.restart_nonce in
      if-either (λ b. outdated h i.tunnel_id mark b ≡ false) _ _ _
        (λ e. apply_file-current i.tunnel_id _ _ _ _ a) (λ e. absurd (clash w.core_there e))
  apply_payload-current (backhaul toml) i a c = apply_file-current i.tunnel_id _ _ _ _ a
  apply_payload-current (paqet core_port ports yaml) i a c =
      let P =
        λ (b : Agent). outdated h i.tunnel_id (marker (filled h yaml) i.restart_nonce) b ≡ false in
      if-either P _ _ _
        (λ e.
          if-either P _ _ _ (λ f. absurd (clash f w.network))
            (λ f. if-either P _ _ _ (λ g. start_paqet-current i core_port ports _ _ a) (λ g. g)))
        (λ e. absurd (clash w.paqet_there e))
  apply_payload-current (gost command) i a c =
      let P = λ (b : Agent).
        outdated h i.tunnel_id (marker (h.command_json command) i.restart_nonce) b ≡ false in
      if-either P _ _ _
        (λ e.
          if-either P _ _ _ (λ f. absurd (clash f c))
            (λ f. if-either P _ _ _ (λ g. restart-current i.tunnel_id _ _ _ a) (λ g. g)))
        (λ e. absurd (clash w.gost_there e))
