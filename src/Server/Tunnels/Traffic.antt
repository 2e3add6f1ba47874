-- ===== src/Server/Tunnels/Traffic.antt =====
-- What the traffic reports of the agents add up to.
use mathlib.Core.Option
use hawal.Base.{ℕ, ◌+◌, ◌<◌, String, ◌≡◌, refl, ◌∙◌, ap, arith, true, map}
use hawal.Base.{Option, none, some, List, [], ◌∷◌, inl, inr}
use hawal.Base.Tests.{if◌then◌else◌, Bool-cases, Option-cases}
use hawal.Base.Eq.{◌==◌, string_eq}
use hawal.Base.Lists.{All}
use hawal.Base.Int.{ℤ, pos, ◌+ℤ◌}
use hawal.Base.Result.{Result, ok, err, Raised}
use hawal.Text.Decimal.{parse_int}
use hawal.Db.{Tunnel, Db}
use hawal.Db.Sqlite.{fits, storable, sum_sql}
use hawal.Db.Tunnels.{get_tunnel, add_traffic, put_traffic, update_tunnel_traffic}
use hawal.Db.Tunnels.Laws.{get_tunnel-update_tunnel_traffic, update_tunnel_traffic_wide}
use hawal.Server.{World, Action, ◌>>=◌, ◌>>◌, attempt, raise, returned, pure, or_default}
use hawal.Server.Tunnels.{
  Number, number, digits, float, null, or_raise, to_int, Report, add_reports,
}

-- The reading of a number changes nothing.
to_int-at :
    (n : Number) (k : ℤ → Action Unit) (w : World) (Q : World → Type 0)
    → Q w
    → ((a : ℤ) → Q (k a w).1)
    → Q ((to_int n >>= k) w).1
unfolding to_int or_raise ◌>>=◌ raise pure returned
to_int-at (number a) k w Q h more = more a
to_int-at (digits s) k w Q h more = elim (Option-cases (parse_int s)) [
  | inl e ↦ rw e h
  | inr (a, e) ↦ rw e (more a)
]
to_int-at (float (ok a)) k w Q h more = more a
to_int-at (float (err x)) k w Q h more = h
to_int-at null k w Q h more = h

-- A change of the two counters only.
abbrev pub IsTraffic : (Tunnel → Tunnel) → Type 0
IsTraffic f = (x y : ℤ) (t : Tunnel) → put_traffic x y (f t) ≡ put_traffic x y t

abbrev pub Counted : String → World → World → Type 0
Counted j w u =
    (f : Tunnel → Tunnel) × IsTraffic f × (get_tunnel j u.db ≡ Option.map f (get_tunnel j w.db))

same_tunnel : (o : Option Tunnel) → o ≡ Option.map (λ t. t) o
same_tunnel none = refl
same_tunnel (some t) = refl

Counted-refl : (j : String) (w : World) → Counted j w w
Counted-refl j w = ((λ t. t), (λ x y t. refl), same_tunnel (get_tunnel j w.db))

map-twice :
    (f g : Tunnel → Tunnel) (o : Option Tunnel)
    → Option.map f (Option.map g o) ≡ Option.map (λ t. f (g t)) o
map-twice f g none = refl
map-twice f g (some t) = refl

Counted-trans : (j : String) (w u v : World) → Counted j w u → Counted j u v → Counted j w v
Counted-trans j w u v (f, p, e) (g, q, h) = (
  (λ t. g (f t)),
  (λ x y t. q x y (f t) ∙ p x y t),
  h ∙ ap (Option.map g) e ∙ map-twice g f (get_tunnel j w.db),
)

Counted-one :
    (i j : String) (a b : ℤ) (w : World) (db' : Db)
    → get_tunnel j db'
      ≡ (if i == j then Option.map (add_traffic a b) (get_tunnel j w.db) else get_tunnel j w.db)
    → Counted j w (record w { db = db' })
Counted-one i j a b w db' h = elim (Bool-cases (i == j)) [
  | inl e ↦ (add_traffic a b, (λ x y t. refl), h ∙ rw e refl)
  | inr e ↦ ((λ t. t), (λ x y t. refl), h ∙ rw e (same_tunnel (get_tunnel j w.db)))
]

attempt-ok :
    (f : Db → Result Db) (m : Action Unit) (w : World) {db' : Db}
    → f w.db ≡ ok db'
    → (attempt f >> m) w ≡ m (record w { db = db' })
unfolding attempt ◌>>◌ ◌>>=◌
attempt-ok f m w h = rw (h, attempt) refl

attempt-err :
    (f : Db → Result Db) (m : Action Unit) (w : World) {x : Raised}
    → f w.db ≡ err x
    → (attempt f >> m) w ≡ (err x, w)
unfolding attempt ◌>>◌ ◌>>=◌
attempt-err f m w h = rw (h, attempt) refl

add_one-Counted :
    (i j : String) (a b : ℤ) (m : Action Unit) (w : World)
    → ((u : World) → Counted j u (m u).1)
    → Counted j w ((attempt (update_tunnel_traffic i a b) >> m) w).1
add_one-Counted i j a b m w more = elim (Bool-cases (storable a b)) [
  | inl e ↦
      let (db', f, h) = get_tunnel-update_tunnel_traffic i j a b w.db e in
      let w' : World = record w { db = db' } in
      rw (attempt-ok (update_tunnel_traffic i a b) m w f)
        (Counted-trans j w w' (m w').1 (Counted-one i j a b w db' h) (more w'))
  | inr e ↦
      rw (attempt-err (update_tunnel_traffic i a b) m w (update_tunnel_traffic_wide i a b w.db e))
        (Counted-refl j w)
]

-- Reports change the counters of tunnels and nothing else of them, whatever they hold.
pub add_reports-Counted :
    (rs : List Report) (j : String) (w : World) → Counted j w (add_reports rs w).1
unfolding add_reports pure
add_reports-Counted [] j w = Counted-refl j w
add_reports-Counted (r ∷ rs) j w =
    to_int-at (or_default r.bytes_in (number (pos 0))) _ w (Counted j w) (Counted-refl j w) λ a.
      to_int-at (or_default r.bytes_out (number (pos 0))) _ w (Counted j w) (Counted-refl j w)
        λ b. add_one-Counted r.tunnel_id j a b (add_reports rs) w (λ u. add_reports-Counted rs j u)

-- What an agent reports of one tunnel.
pub record Sent : Type 0 where
  pub tunnel_id : String
  pub bytes_in : ℕ
  pub bytes_out : ℕ

abbrev pub report_of : Sent → Report
report_of s = record {
  tunnel_id = s.tunnel_id;
  bytes_in = some (number (pos s.bytes_in));
  bytes_out = some (number (pos s.bytes_out));
}

-- 2 ^ 63
abbrev pub limit : ℕ
limit = 9223372036854775808

abbrev pub sum_for : (Sent → ℕ) → String → List Sent → ℕ
sum_for of j [] = 0
sum_for of j (s ∷ ss) = (if s.tunnel_id == j then of s else 0) + sum_for of j ss

abbrev pub IsBound : Sent → Type 0
IsBound s = (s.bytes_in < limit) × (s.bytes_out < limit)

abbrev pub in_of : Sent → ℕ
in_of s = s.bytes_in

abbrev pub out_of : Sent → ℕ
out_of s = s.bytes_out

storable-pos : (a b : ℕ) → a < limit → b < limit → storable (pos a) (pos b) ≡ true
unfolding storable fits
storable-pos a b h k = ground (arith, h, k)

sum_sql-pos : (m a : ℕ) → m + a < limit → sum_sql (pos m) (pos a) ≡ pos (m + a)
unfolding sum_sql fits ◌+ℤ◌
sum_sql-pos m a h = ground (arith, h)

added :
    (s : Sent) (j : String) (m n : ℕ) (o : Option Tunnel) (t : Tunnel)
    → o ≡ some (put_traffic (pos m) (pos n) t)
    → m + (if s.tunnel_id == j then s.bytes_in else 0) < limit
    → n + (if s.tunnel_id == j then s.bytes_out else 0) < limit
    → (if s.tunnel_id == j
        then Option.map (add_traffic (pos s.bytes_in) (pos s.bytes_out)) o
        else o)
      ≡ some (
          put_traffic
            (pos (m + (if s.tunnel_id == j then s.bytes_in else 0)))
            (pos (n + (if s.tunnel_id == j then s.bytes_out else 0)))
            t)
added s j m n o t h k l = elim (Bool-cases (s.tunnel_id == j)) [
  | inl e ↦
      let k' : m + s.bytes_in < limit = ground (arith, k, e) in
      let l' : n + s.bytes_out < limit = ground (arith, l, e) in
      rw (e, h, sum_sql-pos m s.bytes_in k', sum_sql-pos n s.bytes_out l') refl
  | inr e ↦ rw e (h ∙ ap some (ground arith))
]

-- Reports of a number of bytes below 2 ^ 63 are all stored, and while its counters stay below 2 ^ 63 a
-- tunnel gains exactly the sums of its own reports, in both directions, and keeps the rest of its row.
pub get_tunnel-add_reports :
    (ss : List Sent) (j : String) (m n : ℕ) (w : World) (t : Tunnel)
    → All IsBound ss
    → get_tunnel j w.db ≡ some (put_traffic (pos m) (pos n) t)
    → m + sum_for in_of j ss < limit
    → n + sum_for out_of j ss < limit
    → get_tunnel j (add_reports (map report_of ss) w).1.db
      ≡ some (put_traffic (pos (m + sum_for in_of j ss)) (pos (n + sum_for out_of j ss)) t)
unfolding add_reports pure to_int ◌>>=◌
get_tunnel-add_reports [] j m n w t b h k l = h ∙ ap some (ground arith)
get_tunnel-add_reports (s ∷ ss) j m n w t b h k l =
    let a' = if s.tunnel_id == j then s.bytes_in else 0 in
    let b' = if s.tunnel_id == j then s.bytes_out else 0 in
    let (db', f, rows) =
      get_tunnel-update_tunnel_traffic s.tunnel_id j (pos s.bytes_in) (pos s.bytes_out) w.db
        (storable-pos s.bytes_in s.bytes_out b.0.0 b.0.1) in
    let next = rows ∙ added s j m n (get_tunnel j w.db) t h (omega (arith, k)) (omega (arith, l)) in
    let rest =
      get_tunnel-add_reports ss j (m + a') (n + b') (record w { db = db' }) t b.1 next
        (omega (arith, k)) (omega (arith, l)) in
    rw
      (attempt-ok (update_tunnel_traffic s.tunnel_id (pos s.bytes_in) (pos s.bytes_out))
        (add_reports (map report_of ss)) w f)
      (rest ∙ ap some (ground arith))
