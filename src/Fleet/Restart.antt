-- ===== src/Fleet/Restart.antt =====
-- What a request for a restart on the panel, app/server.py, comes to at a node.
use mathlib.Core.Option
use hawal.Base.{
  ℕ, ◌+◌, String, ◌≡◌, ◌≢◌, refl, sym, ◌∙◌, ap, arith, Bool, true, false, Option, none, some,
}
use hawal.Base.{List, [], ◌∷◌, inl, inr}
use hawal.Base.Tests.{if◌then◌else◌, Bool-cases}
use hawal.Base.Eq.{◌==◌, string_eq, same_refl}
use hawal.Db.{Db, Tunnel}
use hawal.Db.Nodes.{get_node}
use hawal.Db.Tunnels.{
  TunnelRow, join_nodes, list_tunnels, get_tunnel, bump_tunnel, request_tunnel_restart,
}
use hawal.Db.Tunnels.Laws.{get_tunnel-request_tunnel_restart}
use hawal.Db.Tunnels.Listed.{row_id, find_row-listed}
use hawal.Db.Valid.{IsValid, request_tunnel_restart-IsValid}
use hawal.Item.{Item}
use hawal.Backhaul.{generate_server_config, generate_client_config}
use hawal.Engine.Core.{generate_hawal_core_server_config, generate_hawal_core_client_config}
use hawal.Engine.Gost.{generate_gost_server_command, generate_gost_client_command}
use hawal.Engine.Paqet.{generate_paqet_server_config, generate_paqet_client_config}
use mathlib.Core.Path.{subst}
use hawal.Base.Lists.{All}
use hawal.Base.Rows.{find_row}
use hawal.Agent.{Agent, Host}
use hawal.Agent.Apply.{outdated}
use hawal.Agent.Apply.Settled.{Working, content_of, mark_of, IsCurrent}
use hawal.Agent.Apply.Round.{apply_configs-IsCurrent}
use hawal.Agent.Apply.Marker.{outdated-nonce}
use hawal.Fleet.{sync_round}
use hawal.Fleet.Told.{All-node_configs, Distinct-told}
use hawal.Server.Agents.{cons_some}
use hawal.Server.Sync.{sync_item, paqet_item, gost_item, plain_item, node_configs}

abbrev pub at_nonce : ℕ → Item → Item
at_nonce m i = record i { restart_nonce = m }

abbrev renewed : ℕ → Tunnel → Tunnel
renewed m t = record t { restart_nonce = m }

-- What one test of the code makes of both entries.
both_ways :
    (m : ℕ) (b : Bool) (x y x' y' : Option Item)
    → x' ≡ Option.map (at_nonce m) x
    → y' ≡ Option.map (at_nonce m) y
    → (if b then x' else y') ≡ Option.map (at_nonce m) (if b then x else y)
both_ways m true x y x' y' e f = e
both_ways m false x y x' y' e f = f

module _ (db : Db) (ts : List Tunnel) (n : String) (t : Tunnel) (m : ℕ) where
  abbrev later_db : Db
  later_db = record db { tunnels = ts }

  paqet_item-nonce :
      paqet_item later_db n (renewed m t) ≡ Option.map (at_nonce m) (paqet_item db n t)
  unfolding paqet_item get_node generate_paqet_server_config generate_paqet_client_config
  paqet_item-nonce =
      both_ways m (t.client_node_id == n) _ _ _ _ refl
        (both_ways m (t.server_node_id == n) _ none _ none refl refl)

  gost_item-nonce : gost_item later_db n (renewed m t) ≡ Option.map (at_nonce m) (gost_item db n t)
  unfolding gost_item get_node generate_gost_server_command generate_gost_client_command
  gost_item-nonce =
      both_ways m (t.client_node_id == n) _ _ _ _ refl
        (both_ways m (t.server_node_id == n) _ none _ none refl refl)

  plain_item-nonce :
      plain_item later_db n (renewed m t) ≡ Option.map (at_nonce m) (plain_item db n t)
  unfolding plain_item get_node generate_server_config generate_client_config
      generate_hawal_core_server_config generate_hawal_core_client_config
  plain_item-nonce =
      both_ways m (t.server_node_id == n) _ _ _ _ refl
        (both_ways m (t.client_node_id == n) _ none _ none refl refl)

  -- The nonce of a tunnel goes into its entry and nowhere else.
  sync_item-nonce : sync_item later_db n (renewed m t) ≡ Option.map (at_nonce m) (sync_item db n t)
  unfolding sync_item
  sync_item-nonce =
      both_ways m (t.status == "running") _ none _ none
        (both_ways m (t.core_type == "paqet") (paqet_item db n t) _
          (paqet_item later_db n (renewed m t)) _ paqet_item-nonce
          (both_ways m (t.core_type == "gost") (gost_item db n t) (plain_item db n t)
            (gost_item later_db n (renewed m t)) (plain_item later_db n (renewed m t))
            gost_item-nonce plain_item-nonce))
        refl

module _ (db : Db) (n : String) where
  first_or_rest :
      (o : Option Item) (is : List Item) (P : Item → Type 0)
      → All P (cons_some o is)
      → All P is × ((i : Item) → o ≡ some i → P i)
  first_or_rest none is P a = (a, λ i e. absurd (ground arith))
  first_or_rest (some k) is P a = (a.1, λ i e. subst P (unwrapped k i e) a.0)
    where
      unwrapped : (k i : Item) → some k ≡ some i → k ≡ i
      unwrapped k i e = cc

  -- What holds of all entries holds of the entry of a listed tunnel.
  entry_of :
      (P : Item → Type 0) (ts : List TunnelRow) (j : String) (r : TunnelRow) (i : Item)
      → All P (node_configs db n ts)
      → find_row row_id j ts ≡ some r
      → sync_item db n r.tunnel ≡ some i
      → P i
  unfolding find_row row_id node_configs
  entry_of P [] j r i a e f = absurd (ground arith)
  entry_of P (t ∷ ts) j r i a e f =
      let (rest, first) = first_or_rest (sync_item db n t.tunnel) (node_configs db n ts) P a in
      elim (Bool-cases (t.tunnel.id == j)) [
        | inl g ↦
            let same : t ≡ r = ground (arith, e, g) in
            first i (subst (λ x. sync_item db n x.tunnel ≡ some i) (sym same) f)
        | inr g ↦ entry_of P ts j r i rest (sym (rw g refl) ∙ e) f
      ]

entry_nonce :
    (db : Db) (n : String) (t : Tunnel) (i : Item)
    → sync_item db n t ≡ some i
    → i.restart_nonce ≡ t.restart_nonce
unfolding sync_item
entry_nonce db n t i f = ground (arith, f)

module _ (h : Host) (w : Working h) where
  told-IsCurrent :
      (db : Db) (n j : String) (t : Tunnel) (i : Item) (a : Agent)
      → IsValid db
      → get_tunnel j db ≡ some t
      → sync_item db n t ≡ some i
      → IsCurrent h i (sync_round h n db a)
  told-IsCurrent db n j t i a v e f =
      entry_of db n (λ k. IsCurrent h k (sync_round h n db a)) (list_tunnels db) j (join_nodes db t)
        i
        (apply_configs-IsCurrent h w (node_configs db n (list_tunnels db)) a
          (Distinct-told h db n v.tunnel_ids) (All-node_configs h db n (list_tunnels db)))
        (find_row-listed db j v.tunnel_ids ∙ rw e refl) (unfold join_nodes in f)

  abbrev asked : String → Db → Db
  asked j db = (request_tunnel_restart j db).1

  asked_entry :
      (db : Db) (n j : String) (t : Tunnel) (i : Item)
      → sync_item db n t ≡ some i
      → sync_item (asked j db) n (bump_tunnel t) ≡ some (at_nonce (t.restart_nonce + 1) i)
  unfolding request_tunnel_restart
  asked_entry db n j t i f =
      sync_item-nonce db _ n t (t.restart_nonce + 1)
      ∙ ap (Option.map (at_nonce (t.restart_nonce + 1))) f

  -- On tables with unique keys and a node whose machine works: when a restart of a tunnel is
  -- requested on the panel after a sync, the process that the node then runs is out of date, and the
  -- node's next sync starts it again, under the new nonce and with the same content.
  pub request_restarts :
      (db : Db) (n j : String) (t : Tunnel) (i : Item) (a : Agent)
      → IsValid db
      → get_tunnel j db ≡ some t
      → sync_item db n t ≡ some i
      → let b = sync_round h n db a in
        let new = at_nonce (t.restart_nonce + 1) i in
        (IsCurrent h i b)
        × (outdated h i.tunnel_id (mark_of h new) b ≡ true)
        × (IsCurrent h new (sync_round h n (asked j db) b))
  request_restarts db n j t i a v e f =
      let b = sync_round h n db a in
      let next : t.restart_nonce + 1 ≢ i.restart_nonce =
        λ k. absurd (omega (arith, k, entry_nonce db n t i f)) in
      let now = told-IsCurrent db n j t i a v e f in
      (
        now,
        outdated-nonce h i.tunnel_id (content_of h i.payload) i.restart_nonce (t.restart_nonce + 1)
            b now next,
        told-IsCurrent (asked j db) n j (bump_tunnel t) (at_nonce (t.restart_nonce + 1) i) b
            (request_tunnel_restart-IsValid db v j)
            (get_tunnel-request_tunnel_restart j j db ∙ rw (same_refl j, e) refl)
            (asked_entry db n j t i f),
      )
