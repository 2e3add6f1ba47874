-- ===== src/Agent/Apply/Round.antt =====
-- On a machine where everything works a round of `apply_configs` leaves every listed tunnel running
-- as its entry says, and the next round with the same list does nothing.
use hawal.Base.{String, ◌≡◌, refl, ◌∙◌, ap, arith, Bool, true, false}
use hawal.Base.{List, [], ◌∷◌, map}
use hawal.Base.Tests.{if◌then◌else◌}
use hawal.Base.Eq.{◌==◌, string_eq}
use hawal.Base.Lists.{contains, All, Distinct}
use hawal.Base.Dict.{keys, contains-keys}
use hawal.Item.{Item, Payload, core, backhaul, paqet, gost}
use hawal.Agent.{Agent, Metadata, Host}
use hawal.Agent.Running.{stop_tunnel_process, restart_tunnel_process}
use hawal.Agent.Running.Laws.{lookup-stop, configs-stop, lookup-restart}
use hawal.Agent.Apply.Laws.{apply_payload-keeps, lookup-apply_configs}
use hawal.Agent.Apply.Settled.{
  Working, content_of, mark_of, IsCurrent, HasCommand, apply_payload-current,
}
use hawal.Agent.Apply.{
  marker, outdated, apply_file, apply_core, apply_backhaul, apply_paqet, apply_gost, apply_payload,
  apply_items, stop_removed, id_of, apply_configs,
}

module _ (h : Host) (w : Working h) where
  outdated-stop :
      (i j mark : String) (a : Agent)
      → (i == j) ≡ false
      → outdated h j mark a ≡ false
      → outdated h j mark (stop_tunnel_process i a) ≡ false
  unfolding outdated
  outdated-stop i j mark a ne v = rw (lookup-stop i j a, ne, configs-stop i j a ne) v

  outdated-restart :
      (i j mark : String) (cmd : List String) (c : String) (m : Metadata) (a : Agent)
      → (i == j) ≡ false
      → outdated h j mark a ≡ false
      → outdated h j mark (restart_tunnel_process h i cmd c m a) ≡ false
  unfolding outdated
  outdated-restart i j mark cmd c m a ne v =
      let (e, f) = lookup-restart h i j cmd c m a ne in rw (e, f) v

  -- An entry leaves the tunnels of the others alone.
  apply_payload-other :
      (p : Payload) (i : Item) (j mark : String) (a : Agent)
      → (i.tunnel_id == j) ≡ false
      → outdated h j mark a ≡ false
      → outdated h j mark (apply_payload h p i a) ≡ false
  apply_payload-other p i j mark a ne v =
      apply_payload-keeps h (λ b. outdated h j mark b ≡ false) i
        (λ b u. outdated-stop i.tunnel_id j mark b ne u)
        (λ cmd c m b u. outdated-restart i.tunnel_id j mark cmd c m b ne u)
        (λ files rules b u. unfold outdated in u) p a v

  apply_items-other :
      (is : List Item) (j mark : String) (a : Agent)
      → contains (map (id_of h) is) j ≡ false
      → outdated h j mark a ≡ false
      → outdated h j mark (apply_items h is a) ≡ false
  unfolding apply_items contains
  apply_items-other [] j mark a e v = v
  apply_items-other (i ∷ is) j mark a e v =
      apply_items-other is j mark _ (ground arith)
        (apply_payload-other i.payload i j mark a (ground arith) v)

  All-IsCurrent :
      (is : List Item) (a : Agent)
      → Distinct (map (id_of h) is)
      → All (HasCommand h) is
      → All (λ i. IsCurrent h i (apply_items h is a)) is
  unfolding apply_items
  All-IsCurrent [] a d c = tt
  All-IsCurrent (i ∷ is) a d c = (
    apply_items-other is i.tunnel_id (mark_of h i) _ d.0
        (apply_payload-current h w i.payload i a c.0),
    All-IsCurrent is (apply_payload h i.payload i a) d.1 c.1,
  )

  stop_removed-current :
      (active ids : List String) (j mark : String) (a : Agent)
      → contains active j ≡ true
      → outdated h j mark a ≡ false
      → outdated h j mark (stop_removed h active ids a) ≡ false
  unfolding stop_removed
  stop_removed-current active [] j mark a e v = v
  stop_removed-current active (i ∷ ids) j mark a e v =
      stop_removed-current active ids j mark _ e (one (contains active i) refl)
    where
      one :
          (b : Bool)
          → contains active i ≡ b
          → outdated h j mark (if b then a else stop_tunnel_process i a) ≡ false
      one true f = v
      one false f = outdated-stop i j mark a (ground (arith, string_eq.same_iff i j)) v

  All-stop_removed :
      (is : List Item) (active ids : List String) (a : Agent)
      → ((j : String) → contains (map (id_of h) is) j ≡ true → contains active j ≡ true)
      → All (λ i. IsCurrent h i a) is
      → All (λ i. IsCurrent h i (stop_removed h active ids a)) is
  unfolding contains
  All-stop_removed [] active ids a sub v = tt
  All-stop_removed (i ∷ is) active ids a sub v = (
    stop_removed-current active ids i.tunnel_id (mark_of h i) a
        (sub i.tunnel_id (ground (arith, string_eq.same_iff i.tunnel_id i.tunnel_id))) v.0,
    All-stop_removed is active ids a (λ j e. sub j (ground arith)) v.1,
  )

  -- Where programs start, binaries and network are there and iptables takes the rules, a round over
  -- entries of different tunnels, none with an empty GOST command, leaves a live process for every
  -- entry, started under the marker of the entry's content and restart nonce.
  pub apply_configs-IsCurrent :
      (configs : List Item) (a : Agent)
      → Distinct (map (id_of h) configs)
      → All (HasCommand h) configs
      → All (λ i. IsCurrent h i (apply_configs h configs a)) configs
  unfolding apply_configs
  apply_configs-IsCurrent configs a d c =
      All-stop_removed configs (map (id_of h) configs) _ (apply_items h configs a) (λ j e. e)
        (All-IsCurrent configs a d c)

  if-no : (b : Bool) (x y : Agent) → b ≡ false → (if b then x else y) ≡ y
  if-no true x y e = absurd (ground arith)
  if-no false x y e = refl

  if-yes : (b : Bool) (x y : Agent) → b ≡ true → (if b then x else y) ≡ x
  if-yes true x y e = refl
  if-yes false x y e = absurd (ground arith)

  apply_payload-nothing :
      (p : Payload) (i : Item) (a : Agent)
      → HasCommand h (record i { payload = p })
      → outdated h i.tunnel_id (marker (content_of h p) i.restart_nonce) a ≡ false
      → apply_payload h p i a ≡ a
  unfolding apply_payload apply_core apply_backhaul apply_paqet apply_gost apply_file
  apply_payload-nothing (core config) i a c v = if-yes _ _ _ w.core_there ∙ if-no _ _ _ v
  apply_payload-nothing (backhaul toml) i a c v = if-no _ _ _ v
  apply_payload-nothing (paqet core_port ports yaml) i a c v =
      if-yes _ _ _ w.paqet_there ∙ if-no _ _ _ w.network ∙ if-no _ _ _ v
  apply_payload-nothing (gost command) i a c v =
      if-yes _ _ _ w.gost_there ∙ if-no _ _ _ c ∙ if-no _ _ _ v

  apply_items-nothing :
      (is : List Item) (a : Agent)
      → All (HasCommand h) is
      → All (λ i. IsCurrent h i a) is
      → apply_items h is a ≡ a
  unfolding apply_items
  apply_items-nothing [] a c v = refl
  apply_items-nothing (i ∷ is) a c v =
      ap (apply_items h is) (apply_payload-nothing i.payload i a c.0 v.0)
      ∙ apply_items-nothing is a c.1 v.1

  stop_removed-nothing :
      (active ids : List String) (a : Agent)
      → ((j : String) → contains ids j ≡ true → contains active j ≡ true)
      → stop_removed h active ids a ≡ a
  unfolding stop_removed contains
  stop_removed-nothing active [] a sub = refl
  stop_removed-nothing active (i ∷ ids) a sub =
      ap (stop_removed h active ids) (if-yes _ _ _ (sub i (ground (arith, string_eq.same_iff i i))))
      ∙ stop_removed-nothing active ids a (λ j e. sub j (ground arith))

  listed :
      (configs : List Item) (a : Agent) (j : String)
      → contains (keys (apply_configs h configs a).processes) j ≡ true
      → contains (map (id_of h) configs) j ≡ true
  listed configs a j k = ground (
    arith,
    lookup-apply_configs h configs j a,
    contains-keys j (apply_configs h configs a).processes,
  )

  -- Where programs start, binaries and network are there and iptables takes the rules, a second round
  -- over the same entries of different tunnels, none with an empty GOST command, changes nothing: no
  -- process is stopped or started and no file is written.
  pub apply_configs-twice :
      (configs : List Item) (a : Agent)
      → Distinct (map (id_of h) configs)
      → All (HasCommand h) configs
      → apply_configs h configs (apply_configs h configs a) ≡ apply_configs h configs a
  apply_configs-twice configs a d c =
      let b = apply_configs h configs a in
      let same = apply_items-nothing configs b c (apply_configs-IsCurrent configs a d c) in
      round_on configs b same (stop_removed-nothing _ (keys b.processes) b (listed configs a))
    where
      round_on :
          (configs : List Item) (b : Agent)
          → apply_items h configs b ≡ b
          → stop_removed h (map (id_of h) configs) (keys b.processes) b ≡ b
          → apply_configs h configs b ≡ b
      round_on configs b e f = unfold apply_configs in rw e f
