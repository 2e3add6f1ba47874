-- ===== src/Agent/Apply/Laws.antt =====
-- What one round of `apply_configs` keeps and what it leaves running.
use hawal.Base.{String, ◌≡◌, refl, ◌∙◌, arith, Bool, true, false, not, ◌&&◌, none}
use hawal.Base.{List, [], ◌∷◌, map}
use hawal.Base.Tests.{if◌then◌else◌}
use hawal.Base.Eq.{◌==◌, string_eq}
use hawal.Base.Lists.{contains}
use hawal.Base.Dict.{lookup, keys, lookup-absent}
use hawal.Base.Int.{ℤ}
use hawal.Item.{Item, Payload, core, backhaul, paqet, gost}
use hawal.Agent.{Agent, Metadata, Host}
use hawal.Agent.Firewall.{Rule}
use hawal.Agent.Running.{stop_tunnel_process, restart_tunnel_process}
use hawal.Agent.Running.Laws.{
  IsAligned, stop_tunnel_process-IsAligned, restart_tunnel_process-IsAligned, lookup-stop,
}
use hawal.Agent.Apply.{
  write_file, apply_file, apply_core, apply_backhaul, filled, launch_paqet, start_paqet,
  apply_paqet, apply_gost, apply_payload, apply_items, stop_removed, id_of, apply_configs,
}

-- What a stop, a restart and the writing of files and rules keep, one entry keeps.
module _ (h : Host) (P : Agent → Type 0) (i : Item)
    (stop : (a : Agent) → P a → P (stop_tunnel_process i.tunnel_id a))
    (restart : (cmd : List String) (c : String) (m : Metadata) (a : Agent)
      → P a
      → P (restart_tunnel_process h i.tunnel_id cmd c m a))
    (aside : (files : List (String × String)) (rules : List Rule) (a : Agent)
      → P a
      → P (record a { files = files; rules = rules })) where
  if-keeps : (b : Bool) (x y : Agent) → P x → P y → P (if b then x else y)
  if-keeps true x y v w = v
  if-keeps false x y v w = w

  apply_file-keeps :
      (path content mark : String) (cmd : List String) (a : Agent)
      → P a
      → P (apply_file h i.tunnel_id path content mark cmd a)
  unfolding apply_file
  apply_file-keeps path content mark cmd a v =
      if-keeps _ _ _ (restart cmd mark Metadata.plain (write_file path content a) (aside _ _ a v)) v

  launch_paqet-keeps :
      (done : Bool) (core_port : ℤ) (ports : List String) (path mark : String) (a : Agent)
      → P a
      → P (launch_paqet h done i core_port ports path mark a)
  launch_paqet-keeps false core_port ports path mark a v = v
  launch_paqet-keeps true core_port ports path mark a v = restart _ mark _ a v

  start_paqet-keeps :
      (core_port : ℤ) (ports : List String) (content mark : String) (a : Agent)
      → P a
      → P (start_paqet h i core_port ports content mark a)
  unfolding start_paqet
  start_paqet-keeps core_port ports content mark a v =
      launch_paqet-keeps _ core_port ports _ mark _
        (aside _ _ (stop_tunnel_process i.tunnel_id a) (stop a v))

  apply_paqet-keeps :
      (core_port : ℤ) (ports : List String) (yaml : String) (a : Agent)
      → P a
      → P (apply_paqet h i core_port ports yaml a)
  unfolding apply_paqet
  apply_paqet-keeps core_port ports yaml a v =
      if-keeps _ _ _
        (if-keeps _ _ _ (stop a v)
          (if-keeps _ _ _ (start_paqet-keeps core_port ports (filled h yaml) _ a v) v))
        v

  apply_gost-keeps : (command : List String) (a : Agent) → P a → P (apply_gost h i command a)
  unfolding apply_gost
  apply_gost-keeps command a v =
      if-keeps _ _ _ (if-keeps _ _ _ v (if-keeps _ _ _ (restart _ _ _ a v) v)) v

  pub apply_payload-keeps : (p : Payload) (a : Agent) → P a → P (apply_payload h p i a)
  unfolding apply_payload apply_core apply_backhaul
  apply_payload-keeps (core config) a v = if-keeps _ _ _ (apply_file-keeps _ _ _ _ a v) v
  apply_payload-keeps (backhaul toml) a v = apply_file-keeps _ _ _ _ a v
  apply_payload-keeps (paqet core_port ports yaml) a v = apply_paqet-keeps core_port ports yaml a v
  apply_payload-keeps (gost command) a v = apply_gost-keeps command a v

module _ (h : Host) where
  apply_items-IsAligned :
      (is : List Item) (a : Agent) → IsAligned a → IsAligned (apply_items h is a)
  unfolding apply_items
  apply_items-IsAligned [] a v = v
  apply_items-IsAligned (i ∷ is) a v = apply_items-IsAligned is (apply_payload h i.payload i a) (
      apply_payload-keeps h IsAligned i (λ b w. stop_tunnel_process-IsAligned i.tunnel_id b w)
        (λ cmd c m b w. restart_tunnel_process-IsAligned h i.tunnel_id cmd c m b w)
        (λ files rules b w. w) i.payload a v)

  stop_removed-IsAligned :
      (active ids : List String) (a : Agent) → IsAligned a → IsAligned (stop_removed h active ids a)
  unfolding stop_removed
  stop_removed-IsAligned active [] a v = v
  stop_removed-IsAligned active (i ∷ ids) a v =
      stop_removed-IsAligned active ids _ (one (contains active i))
    where
      one : (b : Bool) → IsAligned (if b then a else stop_tunnel_process i a)
      one true = v
      one false = stop_tunnel_process-IsAligned i a v

  -- A round keeps the three tables in line: a tunnel has a process exactly if it has a marker and
  -- exactly if it has the details for its cleanup, whatever fails in the round.
  pub apply_configs-IsAligned :
      (configs : List Item) (a : Agent) → IsAligned a → IsAligned (apply_configs h configs a)
  unfolding apply_configs
  apply_configs-IsAligned configs a v =
      stop_removed-IsAligned (map (id_of h) configs) (keys (apply_items h configs a).processes)
        (apply_items h configs a) (apply_items-IsAligned configs a v)

  pub lookup-stop_removed :
      (active ids : List String) (j : String) (a : Agent)
      → lookup j (stop_removed h active ids a).processes
        ≡ (if contains ids j && not (contains active j) then none else lookup j a.processes)
  unfolding stop_removed
  lookup-stop_removed active [] j a = unfold contains in refl
  lookup-stop_removed active (i ∷ ids) j a =
      lookup-stop_removed active ids j _
      ∙ unfold contains in ground (arith, one (contains active i), string_eq.same_iff i j)
    where
      one :
          (b : Bool)
          → lookup j (if b then a else stop_tunnel_process i a).processes
            ≡ (if not b && (i == j) then none else lookup j a.processes)
      one true = refl
      one false = lookup-stop i j a

  -- After a round a tunnel that the panel did not list has no process, and one that it listed has
  -- the process that its own entry left.
  pub lookup-apply_configs :
      (configs : List Item) (j : String) (a : Agent)
      → lookup j (apply_configs h configs a).processes ≡ (
          if contains (map (id_of h) configs) j
          then lookup j (apply_items h configs a).processes
          else none)
  unfolding apply_configs
  lookup-apply_configs configs j a =
      let b = apply_items h configs a in
      lookup-stop_removed (map (id_of h) configs) (keys b.processes) j b
      ∙ ground (arith, lookup-absent j b.processes)
