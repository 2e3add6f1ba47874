-- ===== src/Fleet/Runs.antt =====
-- What the agent of a node, app/static/js/agent.py, runs after a sync with app/server.py.
use mathlib.Core.Path.{subst}
use hawal.Base.{String, ◌≡◌, sym, ◌∙◌, arith, true, false}
use hawal.Base.{List, [], ◌∷◌, map, inl, inr}
use hawal.Base.Tests.{Bool-cases}
use hawal.Base.Eq.{◌==◌, string_eq}
use hawal.Base.Lists.{contains, All}
use hawal.Db.{Db}
use hawal.Db.Tunnels.{list_tunnels, get_tunnel}
use hawal.Db.Valid.{IsValid}
use hawal.Item.{Item}
use hawal.Server.Sync.{node_configs}
use hawal.Agent.{Agent, Host}
use hawal.Agent.Apply.{outdated, id_of, apply_configs}
use hawal.Agent.Apply.Settled.{Working, mark_of, IsCurrent}
use hawal.Agent.Apply.Laws.{lookup-apply_configs}
use hawal.Agent.Apply.Round.{apply_configs-IsCurrent}
use hawal.Fleet.{sync_round, wanted, runs}
use hawal.Fleet.Told.{All-node_configs, Distinct-told, contains-told}

module _ (h : Host) where
  current-runs : (j mark : String) (a : Agent) → outdated h j mark a ≡ false → runs h j a ≡ true
  unfolding outdated
  current-runs j mark a e = ground arith

  All-run :
      (is : List Item) (j : String) (a : Agent)
      → All (λ i. IsCurrent h i a) is
      → contains (map (id_of h) is) j ≡ true
      → runs h j a ≡ true
  unfolding contains
  All-run [] j a v c = absurd (ground arith)
  All-run (i ∷ is) j a v c = elim (Bool-cases (i.tunnel_id == j)) [
    | inl e ↦
        subst (λ k. runs h k a ≡ true) ((string_eq.same_iff i.tunnel_id j).0 e)
          (current-runs i.tunnel_id (mark_of h i) a v.0)
    | inr e ↦ All-run is j a v.1 (ground arith)
  ]

  unlisted :
      (is : List Item) (j : String) (a : Agent)
      → contains (map (id_of h) is) j ≡ false
      → runs h j (apply_configs h is a) ≡ false
  unlisted is j a e = ground (arith, lookup-apply_configs h is j a)

  -- Where programs start, binaries and network are there and iptables takes the rules, a sync on
  -- tables with unique keys makes the dashboard's view true at the node: whatever the agent ran
  -- before, it has a live process for a tunnel exactly if the tunnel is in the table, is to run, and
  -- has the node as one of its two ends.
  pub runs-sync_round :
      (node_id : String) (db : Db) (a : Agent) (j : String)
      → Working h
      → IsValid db
      → runs h j (sync_round h node_id db a) ≡ wanted node_id (get_tunnel j db)
  runs-sync_round n db a j w v =
      let is = node_configs db n (list_tunnels db) in
      let told = contains-told h db n j v.tunnel_ids in
      elim (Bool-cases (contains (map (id_of h) is) j)) [
        | inl e ↦
            All-run is j (apply_configs h is a)
              (apply_configs-IsCurrent h w is a (Distinct-told h db n v.tunnel_ids)
                (All-node_configs h db n (list_tunnels db)))
              e
            ∙ sym e
            ∙ told
        | inr e ↦ unlisted is j a e ∙ sym e ∙ told
      ]
