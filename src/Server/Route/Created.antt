-- ===== src/Server/Route/Created.antt =====
-- `POST /api/tunnels` of app/server.py: what the creation of a checked tunnel keeps.
use mathlib.Core.Path.{subst}
use hawal.Base.{ℕ, sym, String, ◌<>◌, ◌≡◌, refl, ◌∙◌, Bool, true, false, Option, none}
use hawal.Base.Eq.{string_eq}
use hawal.Base.Result.{ok}
use hawal.Db.{Db}
use hawal.Db.Tunnels.{TunnelArgs, save_tunnel}
use hawal.Backhaul.{validate_tunnel_ports}
use hawal.Server.{World, ◌>>=◌, gets}
use hawal.Server.Keeps.{
  Keeps-parsed, Keeps-to_int, Keeps-send_json, Keeps-done, then-at, attempt-at, quiet-bind,
}
use hawal.Server.Tunnels.{TunnelBody, make_tunnel, checked, post_tunnel}
use hawal.Server.Route.Kept.{Closed}

module _ (P : Db → Type 0) (Ready : String → Db → Type 0) (c : Closed P Ready) where
  -- What a check of the ports that has passed is worth: `new` is what the write keeps.
  make_tunnel-keeps :
      (now : ℕ) (a : TunnelArgs) (v : Bool × String) (w : World)
      → P w.db
      → ((db' : Db) → v.0 ≡ true → save_tunnel a now w.db ≡ ok db' → P db')
      → P (checked v (make_tunnel now a) w).1.db
  unfolding checked make_tunnel
  make_tunnel-keeps now a (true, message) w h k =
      then-at P _ _ w (attempt-at P _ w h (λ db' e. k db' refl e)) (Keeps-done P _ _ _)
  make_tunnel-keeps now a (false, message) w h k = Keeps-send_json P _ _ w h

  ports_checked :
      (now : ℕ) (a : TunnelArgs) (w : World)
      → P w.db
      → Ready a.id w.db
      → P
          ((gets (validate_tunnel_ports a.core_port a.server_node_id none) >>= λ v.
              checked v (make_tunnel now a))
            w).1.db
  unfolding gets ◌>>=◌
  ports_checked now a w h ready =
      make_tunnel-keeps now a (validate_tunnel_ports a.core_port a.server_node_id none w.db) w h
        (λ db' v e. c.save_tunnel_kept a now w.db db' h ready v e)

  pub post_tunnel-keeps :
      (now : ℕ) (serial token : String) (body : Option TunnelBody) (w : World)
      → Ready ("tun_" <> serial) w.db
      → P w.db
      → P (post_tunnel now serial token body w).1.db
  unfolding post_tunnel
  post_tunnel-keeps now serial token body w ready h =
      quiet-bind P _ _ w (Keeps-parsed (λ d. d ≡ w.db) body w refl) h λ b w1 e1.
        quiet-bind P _ _ w1 (Keeps-to_int (λ d. d ≡ w1.db) _ w1 refl) (subst P (sym e1) h)
          λ port w2 e2.
            let e = e2 ∙ e1 in
            let h2 = subst P (sym e) h in ports_checked now _ w2 h2 (subst (Ready _) (sym e) ready)
