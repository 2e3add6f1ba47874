-- ===== src/Server/Route/Dispatch/Laws.antt =====
-- Which requests of app/server.py lead to a change of a tunnel.
use hawal.Base.{String, ◌≡◌, ◌≢◌, refl, arith, Bool, true, false, Option}
use hawal.Base.Tests.{if◌then◌else◌}
use hawal.Base.Eq.{◌==◌, string_eq}
use hawal.Server.Route.Dispatch.{
  Target, get_target, post_target, delete_target, put_target, target_of,
}

get_target-other : (path : String) (k : Option String) → get_target path ≢ Target.change_tunnel k
unfolding get_target
get_target-other path k h = absurd (ground arith)

post_target-other : (path : String) (k : Option String) → post_target path ≢ Target.change_tunnel k
unfolding post_target
post_target-other path k h = absurd (ground arith)

delete_target-other :
    (path : String) (k : Option String) → delete_target path ≢ Target.change_tunnel k
unfolding delete_target
delete_target-other path k h = absurd (ground arith)

if-other :
    (b : Bool) (x y t : Target)
    → (b ≡ true → x ≢ t)
    → (b ≡ false → y ≢ t)
    → (if b then x else y) ≢ t
if-other true x y t f g = f refl
if-other false x y t f g = g refl

not_found-other : (k : Option String) → Target.not_found ≢ Target.change_tunnel k
not_found-other k h = absurd (ground arith)

clash : {b : Bool} → b ≡ true → b ≡ false → ⊥
clash p q = ground arith

-- Only the method PUT changes a tunnel.
pub target_of-other :
    (method path : String) (k : Option String)
    → (method == "PUT") ≡ false
    → target_of method path ≢ Target.change_tunnel k
unfolding target_of
target_of-other method path k other =
    let t = Target.change_tunnel k in
    let last = if method == "PUT" then put_target path else Target.not_found in
    let third = if method == "DELETE" then delete_target path else last in
    let second = if method == "POST" then post_target path else third in
    if-other (method == "GET") (get_target path) second t (λ e. get_target-other path k)
      (λ e.
        if-other (method == "POST") (post_target path) third t (λ f. post_target-other path k)
          (λ f.
            if-other (method == "DELETE") (delete_target path) last t
              (λ g. delete_target-other path k)
              (λ g.
                if-other (method == "PUT") (put_target path) Target.not_found t
                  (λ h. absurd (clash h other)) (λ h. not_found-other k))))
