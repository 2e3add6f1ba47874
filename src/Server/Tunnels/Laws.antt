-- ===== src/Server/Tunnels/Laws.antt =====
-- What the tunnel routes guarantee.
use mathlib.Core.Path.{subst}
use hawal.Base.{ℕ, String, ◌≡◌, refl, ◌∙◌, arith, Bool, true, false}
use hawal.Base.{none, some, List, [], ◌∷◌, ◌++◌}
use hawal.Base.Eq.{◌==◌, string_eq, same_refl}
use hawal.Base.Int.{ℤ, pos}
use hawal.Base.Result.{ok, Raised}
use hawal.Db.{Tunnel, Db}
use hawal.Base.{Option}
use hawal.Db.Sqlite.{fits}
use hawal.Server.{attempt, returned}
use hawal.Db.Tunnels.{both, get_tunnel, update_tunnel, edit_tunnel}
use hawal.Db.Tunnels.Laws.{get_tunnel-update_tunnel}
use hawal.Backhaul.{uses_port, validate_tunnel_ports}
use hawal.Backhaul.Clash.{Apart, any_uses, Apart-find_row, validate_tunnel_ports_exact}
use hawal.Server.{
  World, Action, Body, error, failure, ◌>>=◌, ◌>>◌, gets, raise, pure, parsed, send_json, broadcast,
  guarded, or_default,
}
use hawal.Server.Tunnels.{
  number, to_int, TunnelBody, checked, with_tunnel, post_tunnel, put_tunnel, get_docker, name_or,
  default_transport,
}

abbrev pub with_reply : ℕ → Body → World → World
with_reply status body w = record w {
  replies = w.replies ++ record { status = status; body = body } ∷ [];
}

-- The compose files of a tunnel that exists are never served: the reply is status 500 with a
-- `NameError`, and nothing else changes.
pub get_docker_fails :
    (i : String) (w : World) {t : Tunnel}
    → get_tunnel i w.db ≡ some t
    → guarded (get_docker i) w ≡ with_reply 500 (failure Raised.name_error) w
unfolding get_docker guarded gets ◌>>=◌ with_tunnel raise
get_docker_fails i w {t} h = rw h refl

checked_no :
    (v : Bool × String) (k : Action (Unit {0})) (w : World)
    → v.0 ≡ false
    → checked v k w ≡ (ok tt, with_reply 400 (error v.1) w)
unfolding checked send_json
checked_no (true, m) k w h = absurd (ground arith)
checked_no (false, m) k w h = refl

-- A tunnel on a port that some tunnel of the same server node has is refused with status 400 and
-- the message of the check, and the database is as it was.
pub post_tunnel_refuses :
    (now : ℕ) (serial token : String) (b : TunnelBody) (p : ℤ) (w : World)
    → or_default b.core_port (number (pos 3090)) ≡ number p
    → any_uses p b.server_node_id w.db.tunnels ≡ true
    → post_tunnel now serial token (some b) w
      ≡ (ok tt, with_reply 400 (error (validate_tunnel_ports p b.server_node_id none w.db).1) w)
unfolding post_tunnel parsed pure gets ◌>>=◌ to_int returned
post_tunnel_refuses now serial token b p w port taken = rw port (
    checked_no (validate_tunnel_ports p b.server_node_id none w.db) _ w
      (rw (validate_tunnel_ports_exact p b.server_node_id w.db) (rw taken refl)))

Apart-get_tunnel :
    (i j : String) (db : Db) {t u : Tunnel}
    → Apart db.tunnels
    → get_tunnel i db ≡ some t
    → get_tunnel j db ≡ some u
    → (i == j) ≡ false
    → uses_port t.core_port (some t.server_node_id) u ≡ false
unfolding get_tunnel
Apart-get_tunnel i j db a e f ne = Apart-find_row i j db.tunnels a e f ne

-- The transport and the core that a body gives, as `PUT` reads them.
abbrev pub kinds_of : TunnelBody → Option (String × String)
kinds_of b =
    let core_type = or_default b.core_type (some "hawal") in
    both (or_default b.transport (some (default_transport core_type))) core_type

put_tunnel_writes :
    (i : String) (b : TunnelBody) (w : World) (p : ℤ) {t : Tunnel} {db' : Db}
    → get_tunnel i w.db ≡ some t
    → b.core_port ≡ some (number p)
    → update_tunnel i
        (name_or (or_default b.name none) t.name)
        p
        (or_default b.transport (some (default_transport (or_default b.core_type (some "hawal")))))
        (or_default b.ports [])
        (or_default b.core_type (some "hawal"))
        w.db
      ≡ ok db'
    → (put_tunnel i (some b) w).1.db ≡ db'
unfolding put_tunnel parsed pure gets ◌>>=◌ to_int with_tunnel attempt send_json broadcast ◌>>◌
put_tunnel_writes i b w p ti port e = rw (port, ti, e, attempt) refl

update_tunnel_clashes :
    (i j n : String) (kind : Option String) (ps : List String) (core : Option String) (db : Db)
    (k : String × String) {t u : Tunnel}
    → get_tunnel i db ≡ some t
    → get_tunnel j db ≡ some u
    → (i == j) ≡ false
    → t.server_node_id ≡ u.server_node_id
    → fits u.core_port ≡ true
    → both kind core ≡ some k
    → (db' : Db) × (update_tunnel i n u.core_port kind ps core db ≡ ok db')
      × (Apart db'.tunnels → ⊥)
update_tunnel_clashes i j n kind ps core db k {t} {u} ti uj ne same small given =
    let p = u.core_port in
    let (db', e, rows) = get_tunnel-update_tunnel i n p kind ps core db k.0 k.1 small given in
    let ti' : get_tunnel i db' ≡ some (edit_tunnel n p k.0 ps k.1 t) =
      rows i ∙ rw (same_refl i, ti) refl in
    let uj' : get_tunnel j db' ≡ some u = rows j ∙ rw (ne, uj) refl in
    (
      db',
      e,
      λ apart.
          let free = Apart-get_tunnel i j db' apart ti' uj' ne in
          ground (arith, string_eq.same_iff t.server_node_id u.server_node_id),
    )

-- `PUT` checks no port: two tunnels of one server node whose ports were apart are not any more, once
-- one of them is given the port of the other, with a transport and a core that are not null.
pub put_tunnel_clashes :
    (i j : String) (b : TunnelBody) (w : World) (k : String × String) {t u : Tunnel}
    → get_tunnel i w.db ≡ some t
    → get_tunnel j w.db ≡ some u
    → (i == j) ≡ false
    → t.server_node_id ≡ u.server_node_id
    → fits u.core_port ≡ true
    → b.core_port ≡ some (number u.core_port)
    → kinds_of b ≡ some k
    → Apart (put_tunnel i (some b) w).1.db.tunnels
    → ⊥
put_tunnel_clashes i j b w k {t} {u} ti uj ne same small port given apart =
    let core = or_default b.core_type (some "hawal") in
    let (db', e, clash) =
      update_tunnel_clashes i j (name_or (or_default b.name none) t.name)
        (or_default b.transport (some (default_transport core))) (or_default b.ports []) core w.db k
        ti uj ne same small given in
    clash (subst (λ d. Apart d.tunnels) (put_tunnel_writes i b w u.core_port ti port e) apart)
