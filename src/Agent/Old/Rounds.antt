-- ===== src/Agent/Old/Rounds.antt =====
-- The agent of app/static/js/agent.py does what the older one of agent/agent.py does, where the panel
-- asks for no restart and lists no GOST tunnel.
use mathlib.Core.Path.{subst}
use hawal.Base.{ℕ, String, ◌≡◌, refl, sym, ap, arith, Bool, true, false, ◌||◌}
use hawal.Base.{List, [], ◌∷◌, map}
use hawal.Base.Eq.{◌==◌, string_eq}
use hawal.Base.Lists.{contains, All}
use hawal.Base.Dict.{keys}
use hawal.Base.Int.{ℤ}
use hawal.Item.{Item, Payload, core, backhaul, paqet, gost}
use hawal.Agent.{Agent, Host}
use hawal.Agent.Firewall.{configure_paqet_iptables}
use hawal.Agent.Running.{stop_tunnel_process}
use hawal.Agent.Apply.{
  marker, config_path, write_file, is_running, is_text, outdated, apply_file, launch_paqet,
  start_paqet, stop_removed, id_of, filled,
}
use hawal.Agent.Apply as New
use hawal.Agent.Old as Old
use hawal.Agent.Old.Simulated.{
  Same, Same-stop, Same-if, Same-outdated, Same-write_file, Same-apply_file, Same-launch_paqet,
}

module _ (n : ℕ) (h : Host) where
  -- The rules, and then the process.
  abbrev configured : Item → ℤ → List String → String → String → Agent → Agent
  configured i core_port ports path mark a =
      let (done, rules) = configure_paqet_iptables h.refuses i.role core_port a.rules in
      launch_paqet h done i core_port ports path mark (record a { rules = rules })

  Same-configured :
      (i : Item) (core_port : ℤ) (ports : List String) (path c : String) (a b : Agent)
      → Same n a b
      → Same n
          (configured i core_port ports path (marker c n) a)
          (configured i core_port ports path c b)
  Same-configured i core_port ports path c a b (cs, e, t) =
      let (done, rules) = configure_paqet_iptables h.refuses i.role core_port b.rules in
      subst
        (λ x.
          Same n (configured i core_port ports path (marker c n) x)
            (configured i core_port ports path c b))
        (sym e)
        (Same-launch_paqet n h done i core_port ports path c
          (record b { configs = cs; rules = rules }) (record b { rules = rules }) (cs, refl, t))

  Same-start_paqet :
      (i : Item) (core_port : ℤ) (ports : List String) (c : String) (a b : Agent)
      → Same n a b
      → Same n
          (start_paqet h i core_port ports c (marker c n) a)
          (start_paqet h i core_port ports c c b)
  unfolding start_paqet
  Same-start_paqet i core_port ports c a b s =
      let path = config_path i.tunnel_id ".yaml" in
      Same-configured i core_port ports path c
        (write_file path c (stop_tunnel_process i.tunnel_id a))
        (write_file path c (stop_tunnel_process i.tunnel_id b))
        (Same-write_file n h path c _ _ (Same-stop n h i.tunnel_id a b s))

  abbrev pub is_gost : Payload → Bool
  is_gost (gost command) = true
  is_gost other = false

  -- What the older agent can run, under one nonce.
  abbrev pub IsOld : Item → Type 0
  IsOld i = (is_gost i.payload ≡ false) × (i.restart_nonce ≡ n)

  -- The entry under the nonce.
  abbrev under : Item → Item
  under i = record i { restart_nonce = n }

  Same-paqet :
      (i : Item) (core_port : ℤ) (ports : List String) (yaml : String) (a b : Agent)
      → Same n a b
      → Same n
          (New.apply_paqet h (under i) core_port ports yaml a)
          (Old.apply_paqet h (under i) core_port ports yaml b)
  unfolding New.apply_paqet Old.apply_paqet
  Same-paqet i core_port ports yaml a b s =
      let c = filled h yaml in
      let tun_id = i.tunnel_id in
      let launch =
        Same-if n h (outdated h tun_id (marker c n) a) (outdated h tun_id c b)
          (start_paqet h (under i) core_port ports c (marker c n) a)
          (start_paqet h (under i) core_port ports c c b) a b (Same-outdated n h tun_id c a b s)
          (Same-start_paqet (under i) core_port ports c a b s) s in
      Same-if n h h.paqet_ready h.paqet_ready _ _ a b refl
        (Same-if n h (h.iface == "" || h.local_ip == "" || h.gateway_mac == "") _ _ _ _ _ refl
          (Same-stop n h tun_id a b s) launch)
        s

  Same-payload :
      (p : Payload) (i : Item) (a b : Agent)
      → is_gost p ≡ false
      → Same n a b
      → Same n (New.apply_payload h p (under i) a) (Old.apply_payload h p (under i) b)
  unfolding New.apply_payload Old.apply_payload New.apply_core Old.apply_core New.apply_backhaul
      Old.apply_backhaul
  Same-payload (core config) i a b g s =
      Same-if n h h.hawal_core_ready h.hawal_core_ready _ _ a b refl
        (Same-apply_file n h i.tunnel_id _ (h.core_json config) _ a b s) s
  Same-payload (backhaul toml) i a b g s = Same-apply_file n h i.tunnel_id _ toml _ a b s
  Same-payload (paqet core_port ports yaml) i a b g s = Same-paqet i core_port ports yaml a b s
  Same-payload (gost command) i a b g s = absurd (ground arith)

  Same-item :
      (i : Item) (a b : Agent)
      → IsOld i
      → Same n a b
      → Same n (New.apply_payload h i.payload i a) (Old.apply_payload h i.payload i b)
  Same-item i a b (g, r) s =
      let is_under : under i ≡ i = ap (λ m. record i { restart_nonce = m }) (sym r) in
      subst (λ k. Same n (New.apply_payload h i.payload k a) (Old.apply_payload h i.payload k b))
        is_under (Same-payload i.payload i a b g s)

  Same-items :
      (is : List Item) (a b : Agent)
      → All IsOld is
      → Same n a b
      → Same n (New.apply_items h is a) (Old.apply_items h is b)
  unfolding New.apply_items Old.apply_items
  Same-items [] a b o s = s
  Same-items (i ∷ is) a b o s = Same-items is _ _ o.1 (Same-item i a b o.0 s)

  Same-stop_removed :
      (active ids : List String) (a b : Agent)
      → Same n a b
      → Same n (stop_removed h active ids a) (stop_removed h active ids b)
  unfolding stop_removed
  Same-stop_removed active [] a b s = s
  Same-stop_removed active (i ∷ ids) a b s = Same-stop_removed active ids _ _ (
      Same-if n h (contains active i) (contains active i) a b (stop_tunnel_process i a)
        (stop_tunnel_process i b) refl s (Same-stop n h i a b s))

  -- On a list without GOST tunnels and with one restart nonce throughout, a round of the agent is a
  -- round of the older agent: from states with the same processes, details, files and rules, whose
  -- markers are the older agent's contents under the nonce, both come to such states again.
  pub apply_configs-Same :
      (is : List Item) (a b : Agent)
      → All IsOld is
      → Same n a b
      → Same n (New.apply_configs h is a) (Old.apply_configs h is b)
  unfolding New.apply_configs Old.apply_configs
  apply_configs-Same is a b o s =
      let next = Same-items is a b o s in
      let same_keys = ap (λ x. keys x.processes) next.1 in
      rw same_keys (
        Same-stop_removed (map (id_of h) is) (keys (Old.apply_items h is b).processes)
          (New.apply_items h is a) (Old.apply_items h is b) next)
