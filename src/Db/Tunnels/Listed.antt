-- ===== src/Db/Tunnels/Listed.antt =====
-- The listing of the tunnels, app/db.py, searched by a tunnel's id.
use mathlib.Core.Option
use hawal.Base.{String, ◌≡◌, refl, ◌∙◌, ap, List, [], ◌∷◌, map, inl, inr}
use hawal.Base.Tests.{Bool-cases}
use hawal.Base.Eq.{◌==◌, string_eq}
use hawal.Base.Lists.{Distinct}
use hawal.Base.Rows.{find_row}
use hawal.Base.Sort.{order_by}
use hawal.Base.Sort.Find.{Distinct-order_by, find_row-order_by}
use hawal.Db.{Tunnel, Db}
use hawal.Db.Tunnels.{TunnelRow, tunnel_id_of, earlier, join_nodes, list_tunnels, get_tunnel}

unfoldable pub row_id : TunnelRow → String
row_id r = r.tunnel.id

module _ (db : Db) where
  map-row_id : (ts : List Tunnel) → map row_id (map (join_nodes db) ts) ≡ map tunnel_id_of ts
  unfolding row_id join_nodes
  map-row_id [] = refl
  map-row_id (t ∷ ts) = ap (λ l. t.id ∷ l) (map-row_id ts)

  find_row-joined :
      (j : String) (ts : List Tunnel)
      → find_row row_id j (map (join_nodes db) ts)
        ≡ Option.map (join_nodes db) (find_row tunnel_id_of j ts)
  unfolding find_row row_id join_nodes
  find_row-joined j [] = refl
  find_row-joined j (t ∷ ts) = elim (Bool-cases (t.id == j)) [
    | inl e ↦ rw e refl
    | inr e ↦ rw e (find_row-joined j ts)
  ]

  pub Distinct-listed :
      Distinct (map tunnel_id_of db.tunnels) → Distinct (map row_id (list_tunnels db))
  unfolding list_tunnels
  Distinct-listed d =
      rw (map-row_id (order_by earlier db.tunnels))
        (Distinct-order_by tunnel_id_of earlier db.tunnels d)

  -- A search of the listing finds the row of the table, joined.
  pub find_row-listed :
      (j : String)
      → Distinct (map tunnel_id_of db.tunnels)
      → find_row row_id j (list_tunnels db) ≡ Option.map (join_nodes db) (get_tunnel j db)
  unfolding list_tunnels get_tunnel
  find_row-listed j d =
      find_row-joined j (order_by earlier db.tunnels)
      ∙ ap (Option.map (join_nodes db)) (find_row-order_by tunnel_id_of earlier db.tunnels j d)
