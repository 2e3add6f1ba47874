-- ===== src/Server/Collector/Laws.antt =====
-- What a pass of the traffic collector does to the counters.
use mathlib.Core.Option
use mathlib.Core.Path.{subst}
use hawal.Base.{
  String, ◌≡◌, refl, sym, ◌∙◌, ap, arith, inl, inr, Bool, true, false, Option, none, some, List, [],
  ◌∷◌, map,
}
use hawal.Base.Tests.{if◌then◌else◌, Bool-cases}
use hawal.Base.Eq.{◌==◌, string_eq}
use hawal.Base.Lists.{contains, Distinct}
use hawal.Base.Int.{ℤ, ◌≤ℤ◌}
use hawal.Base.Rows.{find_row}
use hawal.Db.{Tunnel, Db}
use hawal.Db.Sqlite.{storable}
use hawal.Db.Tunnels.{
  tunnel_id_of, TunnelRow, join_nodes, list_tunnels, get_tunnel, put_traffic,
  set_tunnel_absolute_traffic,
}
use hawal.Db.Tunnels.Laws.{get_tunnel-edit}
use hawal.Db.Tunnels.Listed.{row_id, Distinct-listed, find_row-listed}
use hawal.Engine.Ports.{port_list}
use hawal.Server.Collector.{grown, count_ports, counted, stored, collect_all, collect_traffic}

-- A tunnel after its turn.
abbrev pub settled : Option (ℤ × ℤ) → Tunnel → Tunnel
settled none = λ t. t
settled (some (new_in, new_out)) =
    if storable new_in new_out then put_traffic new_in new_out else λ t. t

nothing : (b : Bool) (o : Option Tunnel) → o ≡ (if b then Option.map (settled none) o else o)
nothing true none = refl
nothing true (some t) = refl
nothing false o = refl

pub get_tunnel-stored :
    (i j : String) (o : Option (ℤ × ℤ)) (s : Bool × Db)
    → get_tunnel j (stored i o s).1
      ≡ (if i == j then Option.map (settled o) (get_tunnel j s.1) else get_tunnel j s.1)
unfolding set_tunnel_absolute_traffic
get_tunnel-stored i j none s = nothing (i == j) (get_tunnel j s.1)
get_tunnel-stored i j (some (a, b)) s = elim (Bool-cases (storable a b)) [
  | inl e ↦ rw e (get_tunnel-edit i j (put_traffic a b) s.1 (λ t. refl))
  | inr e ↦ rw e (nothing (i == j) (get_tunnel j s.1))
]

module _ (count : List ℤ → Option (ℤ × ℤ)) where
  collect_all-other :
      (ts : List TunnelRow) (j : String) (s : Bool × Db)
      → contains (map row_id ts) j ≡ false
      → get_tunnel j (collect_all count ts s).1 ≡ get_tunnel j s.1
  unfolding collect_all contains row_id
  collect_all-other [] j s h = refl
  collect_all-other (t ∷ ts) j s h =
      collect_all-other ts j _ (ground arith)
      ∙ get_tunnel-stored t.tunnel.id j (counted count t.tunnel) s
      ∙ ground arith

  collect_all-one :
      (ts : List TunnelRow) (j : String) (s : Bool × Db) {r : TunnelRow}
      → Distinct (map row_id ts)
      → find_row row_id j ts ≡ some r
      → get_tunnel j (collect_all count ts s).1
        ≡ Option.map (settled (counted count r.tunnel)) (get_tunnel j s.1)
  unfolding collect_all find_row row_id
  collect_all-one [] j s {r} d h = absurd (ground arith)
  collect_all-one (t ∷ ts) j s {r} d h =
      let next = get_tunnel-stored t.tunnel.id j (counted count t.tunnel) s in
      elim (Bool-cases (t.tunnel.id == j)) [
        | inl e ↦
            let same : t ≡ r = ground arith in
            subst
              (λ x.
                get_tunnel j
                  (collect_all count ts (stored t.tunnel.id (counted count t.tunnel) s)).1
                ≡ Option.map (settled (counted count x.tunnel)) (get_tunnel j s.1))
              same
              (collect_all-other ts j _ (ground (arith, d.0, string_eq.same_iff t.tunnel.id j))
                ∙ next
                ∙ rw e refl)
        | inr e ↦
            collect_all-one ts j (stored t.tunnel.id (counted count t.tunnel) s) {r = r} d.1
              (ground arith)
            ∙ ap (Option.map (settled (counted count r.tunnel))) (next ∙ rw e refl)
      ]

  pub collect_traffic-one :
      (db : Db) (j : String) {t : Tunnel}
      → Distinct (map tunnel_id_of db.tunnels)
      → get_tunnel j db ≡ some t
      → get_tunnel j (collect_traffic count db).1 ≡ some (settled (counted count t) t)
  unfolding collect_traffic
  collect_traffic-one db j {t} d h =
      collect_all-one (list_tunnels db) j (false, db) {r = join_nodes db t} (Distinct-listed db d)
        (find_row-listed db j d ∙ rw h refl)
      ∙ unfold join_nodes in rw h refl

  grown-some :
      (t : Tunnel) (o : Option (ℤ × ℤ)) (a b : ℤ)
      → grown t o ≡ some (a, b)
      → (t.bytes_in ≤ℤ a) × (t.bytes_out ≤ℤ b)
  grown-some t none a b h = absurd (ground arith)
  grown-some t (some (c, d)) a b h = (ground arith, ground arith)

  pub counted-some :
      (t : Tunnel) (a b : ℤ)
      → counted count t ≡ some (a, b)
      → (t.bytes_in ≤ℤ a) × (t.bytes_out ≤ℤ b) × ((t.core_type == "paqet") ≡ false)
  unfolding counted
  counted-some t a b h = elim (Bool-cases (t.core_type == "paqet")) [
    | inl e ↦ absurd (ground arith)
    | inr e ↦
        let (m, n) =
          grown-some t (count_ports count (port_list t.ports t.core_port)) a b
            (sym (rw e refl) ∙ h) in
        (m, n, e)
  ]

  settled-grows :
      (t : Tunnel) (o : Option (ℤ × ℤ))
      → counted count t ≡ o
      → let u = settled o t in
        (t.bytes_in ≤ℤ u.bytes_in)
        × (t.bytes_out ≤ℤ u.bytes_out)
        × ((t.core_type == "paqet") ≡ true → u ≡ t)
        × (u.restart_nonce ≡ t.restart_nonce)
        × (u.status ≡ t.status)
  settled-grows t none h = (ground arith, ground arith, (λ e. refl), refl, refl)
  settled-grows t (some (a, b)) h =
      let (m, n, e) = counted-some t a b h in
      elim (Bool-cases (storable a b)) [
        | inl s ↦ rw s (m, n, (λ f. absurd (ground arith)), refl, refl)
        | inr s ↦ rw s (ground arith, ground arith, (λ f. refl), refl, refl)
      ]

  -- A pass never lowers a counter of a tunnel, and leaves a Paqet tunnel's row as it is: with unique
  -- ids, every tunnel is there afterwards with counters that are as large as before at least.
  pub collect_traffic-grows :
      (db : Db) (j : String) {t : Tunnel}
      → Distinct (map tunnel_id_of db.tunnels)
      → get_tunnel j db ≡ some t
      → (u : Tunnel) × (get_tunnel j (collect_traffic count db).1 ≡ some u)
        × (t.bytes_in ≤ℤ u.bytes_in)
        × (t.bytes_out ≤ℤ u.bytes_out)
        × ((t.core_type == "paqet") ≡ true → u ≡ t)
        × (u.restart_nonce ≡ t.restart_nonce)
        × (u.status ≡ t.status)
  collect_traffic-grows db j {t} d h =
      let (more_in, more_out, same, nonce, status) = settled-grows t (counted count t) refl in
      (
        settled (counted count t) t,
        collect_traffic-one db j d h,
        more_in,
        more_out,
        same,
        nonce,
        status,
      )
