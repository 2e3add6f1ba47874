-- ===== src/Agent/Old/Deaf.antt =====
-- The older agent, agent/agent.py, and the requests for a restart.
use hawal.Base.Int.{ℤ}
use hawal.Base.{ℕ, String, Bool, true, false, ◌≡◌, refl, ◌∙◌, ap, List, [], ◌∷◌, map}
use hawal.Item.{Item, Payload, core, backhaul, paqet, gost}
use hawal.Agent.{Agent, Host}
use hawal.Agent.Apply.{config_path, write_file, filled, launch_paqet, start_paqet, id_of}
use hawal.Agent.Running.{stop_tunnel_process}
use hawal.Agent.Firewall.{configure_paqet_iptables}
use hawal.Agent.Old.{
  apply_core, apply_backhaul, apply_paqet, apply_payload, apply_items, apply_configs,
}

-- The entries under other nonces.
abbrev pub renonced : (Item → ℕ) → Item → Item
renonced nonce i = record i { restart_nonce = nonce i }

module _ (h : Host) (nonce : Item → ℕ) where
  launch_paqet-renonced :
      (done : Bool) (i : Item) (core_port : ℤ) (ports : List String) (path mark : String)
      (a : Agent)
      → launch_paqet h done (renonced nonce i) core_port ports path mark a
        ≡ launch_paqet h done i core_port ports path mark a
  launch_paqet-renonced true i core_port ports path mark a = refl
  launch_paqet-renonced false i core_port ports path mark a = refl

  start_paqet-renonced :
      (i : Item) (core_port : ℤ) (ports : List String) (content mark : String) (a : Agent)
      → start_paqet h (renonced nonce i) core_port ports content mark a
        ≡ start_paqet h i core_port ports content mark a
  unfolding start_paqet
  start_paqet-renonced i core_port ports content mark a =
      let path = config_path i.tunnel_id ".yaml" in
      let stopped = write_file path content (stop_tunnel_process i.tunnel_id a) in
      let (done, rules) = configure_paqet_iptables h.refuses i.role core_port stopped.rules in
      launch_paqet-renonced done i core_port ports path mark (record stopped { rules = rules })

  payload-renonced :
      (p : Payload) (i : Item) (a : Agent)
      → apply_payload h p (renonced nonce i) a ≡ apply_payload h p i a
  unfolding apply_payload apply_core apply_backhaul apply_paqet
  payload-renonced (core config) i a = refl
  payload-renonced (backhaul toml) i a = refl
  payload-renonced (paqet core_port ports yaml) i a =
      rw (start_paqet-renonced i core_port ports (filled h yaml) (filled h yaml) a) refl
  payload-renonced (gost command) i a = refl

  items-renonced :
      (is : List Item) (a : Agent) → apply_items h (map (renonced nonce) is) a ≡ apply_items h is a
  unfolding apply_items
  items-renonced [] a = refl
  items-renonced (i ∷ is) a =
      items-renonced is (apply_payload h i.payload (renonced nonce i) a)
      ∙ ap (apply_items h is) (payload-renonced i.payload i a)

  ids-renonced : (is : List Item) → map (id_of h) (map (renonced nonce) is) ≡ map (id_of h) is
  ids-renonced [] = refl
  ids-renonced (i ∷ is) = ap (λ l. i.tunnel_id ∷ l) (ids-renonced is)

  -- The older agent does not hear of restarts: whatever restart nonces the panel puts into its answer,
  -- the agent does the same.
  pub apply_configs-renonced :
      (is : List Item) (a : Agent)
      → apply_configs h (map (renonced nonce) is) a ≡ apply_configs h is a
  unfolding apply_configs
  apply_configs-renonced is a = rw (items-renonced is a, ids-renonced is) refl
