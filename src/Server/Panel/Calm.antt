-- ===== src/Server/Panel/Calm.antt =====
-- The counters in a run in which no request changes them.
use mathlib.Core.Option
use hawal.Base.{String, ◌≡◌, refl, sym, ◌∙◌, arith, Bool, true, false, Option, none, some}
use hawal.Base.{List, [], ◌∷◌, map, inl, inr}
use hawal.Base.Tests.{Bool-cases}
use hawal.Base.Eq.{◌==◌, string_eq}
use hawal.Base.Lists.{contains, Distinct}
use hawal.Base.Int.{ℤ, ◌≤ℤ◌}
use hawal.Base.Rows.{find_row, contains-map_key}
use hawal.Db.Tunnels.Listed.{row_id, Distinct-listed, find_row-listed}
use hawal.Db.{Db, Tunnel}
use hawal.Db.Sqlite.{storable}
use hawal.Db.Valid.{IsValid}
use hawal.Server.Client.{Connection, Library, handle_client}
use hawal.Server.Client.Limits.{handle_client-IsValid}
use hawal.Server.Panel.Safety.{collect_next-IsValid}
use hawal.Db.Tunnels.{TunnelRow, tunnel_id_of, join_nodes, get_tunnel, list_tunnels}
use hawal.Server.{World, Body}
use hawal.Server.Collector.{counted, stored}
use hawal.Server.Collector.Laws.{settled, get_tunnel-stored, counted-some}
use hawal.Server.Route.{Outside}
use hawal.Ping.{PingResult}
use hawal.Server.Panel.{Phase, asleep, polling, Panel, told, collect_next, serve}

-- Both counters of a tunnel.
abbrev pub pair_of : Tunnel → ℤ × ℤ
pair_of t = (t.bytes_in, t.bytes_out)

abbrev pub counters : String → Db → Option (ℤ × ℤ)
counters i db = Option.map pair_of (get_tunnel i db)

-- The tunnel is there before and after or at neither time, and no counter fell.
abbrev pub Grown : Option (ℤ × ℤ) → Option (ℤ × ℤ) → Type 0
Grown none none = Unit
Grown (some a) (some b) = (a.0 ≤ℤ b.0) × (a.1 ≤ℤ b.1)
Grown _ _ = ⊥

Grown-refl : (c : Option (ℤ × ℤ)) → Grown c c
Grown-refl none = tt
Grown-refl (some a) = (ground arith, ground arith)

Grown-trans : (a b c : Option (ℤ × ℤ)) → Grown a b → Grown b c → Grown a c
Grown-trans none none none u v = tt
Grown-trans (some a) (some b) (some c) u v = (ground (arith, u.0, v.0), ground (arith, u.1, v.1))
Grown-trans none (some b) c u v = absurd u
Grown-trans (some a) none c u v = absurd u
Grown-trans none none (some c) u v = absurd v
Grown-trans (some a) (some b) none u v = absurd v

-- The rows that the collector still holds have the counters of the table.
abbrev pub Held : List TunnelRow → Db → Type 0
Held ts db =
    (j : String) (r : TunnelRow)
    → find_row row_id j ts ≡ some r
    → counters j db ≡ some (pair_of r.tunnel)

abbrev pub IsFresh : Db → Phase → Type 0
IsFresh db asleep = Unit
IsFresh db (polling changed ts) = Distinct (map row_id ts) × Held ts db

module _ (count : List ℤ → Option (ℤ × ℤ)) where
  raised :
      (t : Tunnel) (o : Option (ℤ × ℤ)) (c : Option Tunnel)
      → counted count t ≡ o
      → Option.map pair_of c ≡ some (pair_of t)
      → Grown (Option.map pair_of c) (Option.map pair_of (Option.map (settled o) c))
  raised t o none e h = tt
  raised t none (some u) e h = Grown-refl (some (pair_of u))
  raised t (some (a, b)) (some u) e h =
      let (m, n, k) = counted-some count t a b e in
      elim (Bool-cases (storable a b)) [
        | inl s ↦ rw s (ground arith, ground arith)
        | inr s ↦ rw s (Grown-refl (some (pair_of u)))
      ]

  turn-grows :
      (t : TunnelRow) (ts : List TunnelRow) (changed : Bool) (db : Db) (j : String)
      → Held (t ∷ ts) db
      → Grown
          (counters j db)
          (counters j (stored t.tunnel.id (counted count t.tunnel) (changed, db)).1)
  unfolding find_row row_id
  turn-grows t ts changed db j held = elim (Bool-cases (t.tunnel.id == j)) [
    | inl e ↦
        rw (get_tunnel-stored t.tunnel.id j (counted count t.tunnel) (changed, db), e)
          (raised t.tunnel (counted count t.tunnel) (get_tunnel j db) refl (held j t (rw e refl)))
    | inr e ↦
        rw (get_tunnel-stored t.tunnel.id j (counted count t.tunnel) (changed, db), e)
          (Grown-refl (counters j db))
  ]

  turn-Held :
      (t : TunnelRow) (ts : List TunnelRow) (changed : Bool) (db : Db)
      → contains (map row_id ts) t.tunnel.id ≡ false
      → Held (t ∷ ts) db
      → Held ts (stored t.tunnel.id (counted count t.tunnel) (changed, db)).1
  unfolding find_row row_id
  turn-Held t ts changed db d held j r e = elim (Bool-cases (t.tunnel.id == j)) [
    | inl f ↦
        absurd
          (ground (arith, contains-map_key row_id j ts, string_eq.same_iff t.tunnel.id j, d, e, f))
    | inr f ↦
        rw (get_tunnel-stored t.tunnel.id j (counted count t.tunnel) (changed, db), f)
          (held j r (rw f e))
  ]

  told_db : (changed : Bool) (w : World) → (told changed w).db ≡ w.db
  told_db true w = refl
  told_db false w = refl

  wake-Held : (db : Db) → Distinct (map tunnel_id_of db.tunnels) → Held (list_tunnels db) db
  unfolding join_nodes
  wake-Held db d j r e = from (get_tunnel j db) (sym (find_row-listed db j d) ∙ e)
    where
      from :
          (o : Option Tunnel)
          → Option.map (join_nodes db) o ≡ some r
          → Option.map pair_of o ≡ some (pair_of r.tunnel)
      from none h = absurd (ground arith)
      from (some t) h = ground (arith, h)

  collect_next-calm :
      (w : World) (p : Phase) (j : String)
      → IsValid w.db
      → IsFresh w.db p
      → let u = collect_next count w p in
        Grown (counters j w.db) (counters j u.world.db) × IsFresh u.world.db u.phase
  unfolding collect_next row_id
  collect_next-calm w asleep j v f = (
    Grown-refl (counters j w.db),
    (Distinct-listed w.db v.tunnel_ids, wake-Held w.db v.tunnel_ids),
  )
  collect_next-calm w (polling changed []) j v f =
      (rw (told_db changed w) (Grown-refl (counters j w.db)), tt)
  collect_next-calm w (polling changed (t ∷ ts)) j v f =
      (turn-grows t ts changed w.db j f.1, (f.0.1, turn-Held t ts changed w.db f.0.0 f.1))

-- A run in which the requests leave all counters as they are: heartbeats, logs, settings, and so on.
pub data Calm (s : Panel) : Panel → Type 0 where
  here : Calm s s
  turn :
      {t : Panel}
      → Calm s t
      → (count : List ℤ → Option (ℤ × ℤ)) → Calm s (collect_next count t.world t.phase)
  quiet :
      {t : Panel}
      → Calm s t
      → (l : Library) (o : Outside) (show : PingResult → Body) (c : Connection)
      → ((j : String) → counters j (handle_client l o show c t.world).db ≡ counters j t.world.db)
      → Calm s (serve l o show c t)

serve-Fresh :
    (p : Phase) (db db' : Db)
    → ((j : String) → counters j db' ≡ counters j db)
    → IsFresh db p
    → IsFresh db' p
serve-Fresh asleep db db' same f = tt
serve-Fresh (polling changed ts) db db' same f = (f.0, λ j r e. same j ∙ f.1 j r e)

Calm-state :
    {s u : Panel} (j : String)
    → IsValid s.world.db
    → IsFresh s.world.db s.phase
    → Calm s u
    → IsValid u.world.db
      × IsFresh u.world.db u.phase
      × Grown (counters j s.world.db) (counters j u.world.db)
Calm-state {s} j v f here = (v, f, Grown-refl (counters j s.world.db))
Calm-state {s} j v f (turn {t} c count) =
    let (v', f', g) = Calm-state j v f c in
    let (more, fresh) = collect_next-calm count t.world t.phase j v' f' in
    (
      collect_next-IsValid count t.world t.phase v',
      fresh,
      Grown-trans (counters j s.world.db) (counters j t.world.db) _ g more,
    )
Calm-state {s} j v f (quiet {t} c l o show k same) =
    let (v', f', g) = Calm-state j v f c in
    (
      handle_client-IsValid l k o show t.world v',
      serve-Fresh t.phase t.world.db _ same f',
      rw (same j) g,
    )

-- In a run from a valid database and a sleeping collector, whose requests leave the counters alone,
-- every tunnel that was there is there, none is new, and no counter of any has fallen, through
-- any number of passes and wherever the run stops.
pub counters-Calm :
    (w : World) {u : Panel} (j : String)
    → IsValid w.db
    → Calm (record { world = w; phase = asleep }) u
    → Grown (counters j w.db) (counters j u.world.db)
counters-Calm w j v c = let (a, b, g) = Calm-state j v tt c in g
