-- ===== src/Fleet/Told.antt =====
-- What the answer of `GET /api/agent/sync` lists, app/server.py.
use mathlib.Core.Option
use hawal.Base.{String, ◌≡◌, refl, sym, ◌∙◌, ap, arith, Bool, true, false, ◌||◌, Option, none, some}
use hawal.Base.{List, [], ◌∷◌, ◌++◌, map, inl, inr}
use hawal.Base.Tests.{if◌then◌else◌, Bool-cases}
use hawal.Base.Eq.{◌==◌, string_eq}
use hawal.Base.Lists.{contains, Distinct, All}
use hawal.Base.Rows.{find_row}
use hawal.Db.{Db, Tunnel}
use hawal.Db.Tunnels.{TunnelRow, tunnel_id_of, join_nodes, list_tunnels, get_tunnel}
use hawal.Db.Tunnels.Listed.{row_id, Distinct-listed, find_row-listed}
use hawal.Item.{Item, Payload, server, client}
use hawal.Engine.Gost.{generate_gost_server_command, generate_gost_client_command, extend_args}
use hawal.Server.Sync.{item, sync_item, paqet_item, gost_item, plain_item, node_configs}
use hawal.Server.Agents.{cons_some, ip_or_local}
use hawal.Db.Nodes.{get_node}
use hawal.Agent.{Host}
use hawal.Agent.Apply.{id_of, is_empty}
use hawal.Agent.Apply.Settled.{HasCommand}
use hawal.Fleet.{wanted}

is_some : {A : Type 0} → Option A → Bool
is_some none = false
is_some (some a) = true

-- An entry is made exactly of the tunnels that the node is meant to run.
sync_item-some :
    (db : Db) (n : String) (t : Tunnel) → is_some (sync_item db n t) ≡ wanted n (some t)
unfolding sync_item paqet_item gost_item plain_item is_some
sync_item-some db n t = ground arith

sync_item-id :
    (db : Db) (n : String) (t : Tunnel) {i : Item} → sync_item db n t ≡ some i → i.tunnel_id ≡ t.id
unfolding sync_item paqet_item gost_item plain_item
sync_item-id db n t {i} h = ground arith

abbrev listed_as : Option Item → String → Bool
listed_as none j = false
listed_as (some i) j = i.tunnel_id == j

module _ (h : Host) (db : Db) (n : String) where
  ids : List TunnelRow → List String
  ids ts = map (id_of h) (node_configs db n ts)

  contains-cons_some :
      (o : Option Item) (is : List Item) (j : String)
      → contains (map (id_of h) (cons_some o is)) j
        ≡ (listed_as o j || contains (map (id_of h) is) j)
  unfolding contains
  contains-cons_some none is j = refl
  contains-cons_some (some i) is j = refl

  listed_as-wanted :
      (t : Tunnel) (j : String) (o : Option Item)
      → sync_item db n t ≡ o
      → listed_as o j ≡ (if t.id == j then wanted n (some t) else false)
  unfolding is_some
  listed_as-wanted t j none e = ground (arith, sync_item-some db n t)
  listed_as-wanted t j (some i) e = ground (arith, sync_item-some db n t, sync_item-id db n t e)

  step :
      (t : TunnelRow) (ts : List TunnelRow) (j : String)
      → contains (ids (t ∷ ts)) j
        ≡ ((if t.tunnel.id == j then wanted n (some t.tunnel) else false) || contains (ids ts) j)
  unfolding ids node_configs
  step t ts j =
      contains-cons_some (sync_item db n t.tunnel) (node_configs db n ts) j
      ∙ rw (listed_as-wanted t.tunnel j (sync_item db n t.tunnel) refl) refl

  ids-only :
      (ts : List TunnelRow) (j : String)
      → contains (map row_id ts) j ≡ false
      → contains (ids ts) j ≡ false
  unfolding contains row_id
  ids-only [] j e = unfold ids node_configs in refl
  ids-only (t ∷ ts) j e = step t ts j ∙ ground (arith, ids-only ts j)

  -- With unique ids exactly the tunnels that the node is meant to run are listed.
  contains-node_configs :
      (ts : List TunnelRow) (j : String)
      → Distinct (map row_id ts)
      → contains (ids ts) j ≡ wanted n (Option.map (λ r. r.tunnel) (find_row row_id j ts))
  unfolding find_row row_id
  contains-node_configs [] j d = unfold ids node_configs contains in refl
  contains-node_configs (t ∷ ts) j d = elim (Bool-cases (t.tunnel.id == j)) [
    | inl e ↦
        step t ts j
        ∙ rw
            (
              e,
              ids-only ts j (
                  ap (contains (map row_id ts)) (sym ((string_eq.same_iff t.tunnel.id j).0 e))
                  ∙ d.0),
            )
            (ground arith)
    | inr e ↦ step t ts j ∙ rw e (contains-node_configs ts j d.1)
  ]

  Distinct-cons_some :
      (o : Option Item) (k : String) (is : List Item)
      → ((i : Item) → o ≡ some i → i.tunnel_id ≡ k)
      → contains (map (id_of h) is) k ≡ false
      → Distinct (map (id_of h) is)
      → Distinct (map (id_of h) (cons_some o is))
  Distinct-cons_some none k is same e d = d
  Distinct-cons_some (some i) k is same e d =
      (ap (contains (map (id_of h) is)) (same i refl) ∙ e, d)

  Distinct-node_configs : (ts : List TunnelRow) → Distinct (map row_id ts) → Distinct (ids ts)
  unfolding ids node_configs row_id
  Distinct-node_configs [] d = tt
  Distinct-node_configs (t ∷ ts) d =
      Distinct-cons_some (sync_item db n t.tunnel) t.tunnel.id (node_configs db n ts)
        (λ i e. sync_item-id db n t.tunnel e) (ids-only ts t.tunnel.id d.0)
        (Distinct-node_configs ts d.1)

  abbrev Fine : Option Item → Type 0
  Fine none = Unit
  Fine (some i) = HasCommand h i

  Fine-if : (b : Bool) (x y : Option Item) → Fine x → Fine y → Fine (if b then x else y)
  Fine-if true x y u v = u
  Fine-if false x y u v = v

  is_empty-append : (xs ys : List String) (y : String) → is_empty h (xs ++ y ∷ ys) ≡ false
  is_empty-append [] ys y = refl
  is_empty-append (x ∷ xs) ys y = refl

  paqet_item-Fine : (t : Tunnel) → Fine (paqet_item db n t)
  unfolding paqet_item
  paqet_item-Fine t = ground arith

  -- Neither end of a GOST tunnel is told to run an empty command.
  gost_item-Fine : (t : Tunnel) → Fine (gost_item db n t)
  unfolding gost_item generate_gost_server_command generate_gost_client_command
  gost_item-Fine t =
      let command = generate_gost_client_command t (ip_or_local (get_node t.client_node_id db)) in
      let part = some (item t client (Payload.gost command)) in
      let is_server = t.server_node_id == n in
      Fine-if (t.client_node_id == n)
        (some (item t server (Payload.gost (generate_gost_server_command t))))
        (if is_server then part else none) refl
        (Fine-if is_server part none (is_empty-append (extend_args [] t.ports) _ "-F") tt)

  plain_item-Fine : (t : Tunnel) → Fine (plain_item db n t)
  unfolding plain_item
  plain_item-Fine t = ground arith

  sync_item-Fine : (t : Tunnel) → Fine (sync_item db n t)
  unfolding sync_item
  sync_item-Fine t =
      Fine-if (t.status == "running") _ none
        (Fine-if (t.core_type == "paqet") (paqet_item db n t) _ (paqet_item-Fine t) (
          Fine-if (t.core_type == "gost") (gost_item db n t) (plain_item db n t) (gost_item-Fine t)
            (plain_item-Fine t)))
        tt

  All-cons_some :
      (o : Option Item) (is : List Item)
      → Fine o
      → All (HasCommand h) is
      → All (HasCommand h) (cons_some o is)
  All-cons_some none is f a = a
  All-cons_some (some i) is f a = (f, a)

  pub All-node_configs : (ts : List TunnelRow) → All (HasCommand h) (node_configs db n ts)
  unfolding node_configs
  All-node_configs [] = tt
  All-node_configs (t ∷ ts) =
      All-cons_some (sync_item db n t.tunnel) (node_configs db n ts) (sync_item-Fine t.tunnel)
        (All-node_configs ts)

  pub Distinct-told :
      Distinct (map tunnel_id_of db.tunnels)
      → Distinct (map (id_of h) (node_configs db n (list_tunnels db)))
  unfolding ids
  Distinct-told d = Distinct-node_configs (list_tunnels db) (Distinct-listed db d)

  -- With unique ids the answer to a node lists a tunnel exactly if the node is meant to run it.
  pub contains-told :
      (j : String)
      → Distinct (map tunnel_id_of db.tunnels)
      → contains (map (id_of h) (node_configs db n (list_tunnels db))) j
        ≡ wanted n (get_tunnel j db)
  unfolding ids
  contains-told j d =
      contains-node_configs (list_tunnels db) j (Distinct-listed db d)
      ∙ ap (λ o. wanted n (Option.map (λ r. r.tunnel) o)) (find_row-listed db j d)
      ∙ ap (wanted n) (unjoined (get_tunnel j db))
    where
      unjoined : (o : Option Tunnel) → Option.map (λ r. r.tunnel) (Option.map (join_nodes db) o) ≡ o
      unjoined none = refl
      unjoined (some t) = unfold join_nodes in refl
