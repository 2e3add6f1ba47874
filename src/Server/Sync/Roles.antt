-- ===== src/Server/Sync/Roles.antt =====
-- Who runs what: for each core the two ends of a running tunnel get matching halves.
use hawal.Base.{String, ◌≡◌, ◌≢◌, refl, arith, Bool, true, false, ◌||◌, eq_iff}
use hawal.Base.{Option, none, some, [], inl, inr}
use hawal.Base.Tests.{if◌then◌else◌, Bool-cases}
use hawal.Base.Eq.{◌==◌, string_eq}
use hawal.Db.{Db, Tunnel}
use hawal.Db.Nodes.{get_node}
use hawal.Backhaul.{generate_server_config, generate_client_config}
use hawal.Engine.Core.{generate_hawal_core_server_config, generate_hawal_core_client_config}
use hawal.Engine.Gost.{generate_gost_server_command, generate_gost_client_command}
use hawal.Engine.Paqet.{generate_paqet_server_config, generate_paqet_client_config}
use hawal.Item.{Role, server, client, Payload, Item}
use hawal.Server.Agents.{ip_or_local}
use hawal.Server.Sync.{item, sync_item}

-- Paqet and GOST take the connections of their tunnel at the foreign node, `client_node_id`; the
-- Hawal and Backhaul cores at the Iran node, `server_node_id`.
abbrev pub reversed : Tunnel → Bool
reversed t = t.core_type == "paqet" || t.core_type == "gost"

-- The node that accepts the connections of the core, and the one that makes them.
abbrev pub acceptor : Tunnel → String
acceptor t = if reversed t then t.client_node_id else t.server_node_id

abbrev pub connector : Tunnel → String
connector t = if reversed t then t.server_node_id else t.client_node_id

abbrev pub role_of : Option Item → Option Role
role_of none = none
role_of (some i) = some i.role

-- A node is told to be the server of a tunnel exactly if the tunnel runs and the node accepts its
-- connections, and to be the client exactly if it runs and the node only makes them.
pub sync_item-role :
    (db : Db) (n : String) (t : Tunnel)
    → role_of (sync_item db n t) ≡ (
        if t.status == "running"
        then (if acceptor t == n
            then some server
            else if connector t == n
            then some client
            else none)
        else none)
unfolding sync_item
sync_item-role db n t = ground arith

abbrev pub same_kind : Payload → Payload → Bool
same_kind (Payload.core a) (Payload.core b) = true
same_kind (Payload.backhaul a) (Payload.backhaul b) = true
same_kind (Payload.paqet p a b) (Payload.paqet q c d) = true
same_kind (Payload.gost a) (Payload.gost b) = true
same_kind _ _ = false

-- The two entries of one tunnel fit together.
pub record Paired (t : Tunnel) (a b : Item) : Type 0 where
  pub accepts : a.role ≡ server
  pub connects : b.role ≡ client
  pub same_tunnel : (a.tunnel_id ≡ t.id) × (b.tunnel_id ≡ t.id)
  pub same_nonce : (a.restart_nonce ≡ t.restart_nonce) × (b.restart_nonce ≡ t.restart_nonce)
  pub same_core : same_kind a.payload b.payload ≡ true

module _ (db : Db) (t : Tunnel) (run : (t.status == "running") ≡ true)
    (differ : t.server_node_id ≢ t.client_node_id) where
  abbrev Pair : Type 0
  Pair =
      (a : Item) × (b : Item) × (sync_item db (acceptor t) t ≡ some a)
      × (sync_item db (connector t) t ≡ some b)
      × Paired t a b

  abbrev paqet_ip : String
  paqet_ip = ip_or_local (get_node t.client_node_id db)

  abbrev plain_ip : String
  plain_ip = ip_or_local (get_node t.server_node_id db)

  paired : (p q : Payload) → same_kind p q ≡ true → Paired t (item t server p) (item t client q)
  paired p q h = record {
    accepts = refl;
    connects = refl;
    same_tunnel = (refl, refl);
    same_nonce = (refl, refl);
    same_core = h;
  }

  reversed_pair :
      (p q : Payload)
      → reversed t ≡ true
      → same_kind p q ≡ true
      → ((n : String)
          → sync_item db n t ≡ (
              if t.client_node_id == n
              then some (item t server p)
              else if t.server_node_id == n
              then some (item t client q)
              else none))
      → Pair
  reversed_pair p q r h s = (
    item t server p,
    item t client q,
    ground (arith, s t.client_node_id, eq_iff t.client_node_id t.client_node_id),
    ground (
      arith,
      s t.server_node_id,
      eq_iff t.server_node_id t.server_node_id,
      eq_iff t.client_node_id t.server_node_id,
    ),
    paired p q h,
  )

  plain_pair :
      (p q : Payload)
      → reversed t ≡ false
      → same_kind p q ≡ true
      → ((n : String)
          → sync_item db n t ≡ (
              if t.server_node_id == n
              then some (item t server p)
              else if t.client_node_id == n
              then some (item t client q)
              else none))
      → Pair
  plain_pair p q r h s = (
    item t server p,
    item t client q,
    ground (arith, s t.server_node_id, eq_iff t.server_node_id t.server_node_id),
    ground (
      arith,
      s t.client_node_id,
      eq_iff t.client_node_id t.client_node_id,
      eq_iff t.server_node_id t.client_node_id,
    ),
    paired p q h,
  )

  -- Both ends of a running tunnel between two nodes get an entry: the same tunnel, one server and
  -- one client of the same core, under the same restart nonce.
  pub sync_item-pair : Pair
  unfolding sync_item
  sync_item-pair = elim (Bool-cases (t.core_type == "paqet")) [
    | inl p ↦
        reversed_pair (Payload.paqet t.core_port [] (generate_paqet_server_config t))
          (Payload.paqet t.core_port t.ports (generate_paqet_client_config t paqet_ip))
          (ground arith) refl (λ n. ground arith)
    | inr p ↦ elim (Bool-cases (t.core_type == "gost")) [
      | inl g ↦
          reversed_pair (Payload.gost (generate_gost_server_command t))
            (Payload.gost (generate_gost_client_command t paqet_ip)) (ground arith) refl
            (λ n. ground arith)
      | inr g ↦ elim (Bool-cases (t.core_type == "hawal")) [
        | inl h ↦
            plain_pair (Payload.core (generate_hawal_core_server_config t))
              (Payload.core (generate_hawal_core_client_config t plain_ip)) (ground arith) refl
              (λ n. ground arith)
        | inr h ↦
            plain_pair (Payload.backhaul (generate_server_config t "0.0.0.0"))
              (Payload.backhaul (generate_client_config t plain_ip)) (ground arith) refl
              (λ n. ground arith)
      ]
    ]
  ]
