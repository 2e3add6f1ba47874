-- ===== src/Server/Keeps.antt =====
-- Actions that keep a property of the database, one rule for each way to build an action.
use mathlib.Core.Path.{subst}
use hawal.Base.{ℕ, sym, ◌≡◌, refl, String, Option, none, some}
use hawal.Base.Result.{Result, ok, err, Raised}
use hawal.Db.{Db, Node, Tunnel}
use hawal.Server.{
  returned, World, Action, Body, Event, send_json, broadcast, ◌>>=◌, ◌>>◌, continue, gets, modify,
  attempt, parsed, raise, pure, caught, guarded,
}
use hawal.Server.Logs.{with_node}
use hawal.Server.Tunnels.{float, null, with_tunnel, or_raise, to_int, Number, number, digits}
use hawal.Text.Decimal.{parse_int}
use hawal.Base.Int.{ℤ}

module _ (P : Db → Type 0) where
  abbrev pub Keeps : {A : Type 0} → Action A → Type 0
  Keeps m = (w : World) → P w.db → P (m w).1.db

  Keeps-continue :
      {A B : Type 0} (f : A → Action B) (r : Result A) (w : World)
      → ((a : A) → Keeps (f a))
      → P w.db
      → P (continue f r w).1.db
  Keeps-continue f (ok a) w k h = k a w h
  Keeps-continue f (err x) w k h = h

  pub Keeps-bind :
      {A B : Type 0} (m : Action A) (f : A → Action B)
      → Keeps m
      → ((a : A) → Keeps (f a))
      → Keeps (m >>= f)
  unfolding ◌>>=◌
  Keeps-bind m f km kf w h = let (r, w') = m w in Keeps-continue f r w' kf (km w h)

  pub Keeps-parsed : {A : Type 0} (o : Option A) → Keeps (parsed o)
  unfolding parsed raise pure
  Keeps-parsed none w h = h
  Keeps-parsed (some a) w h = h

  attempt_result :
      (r : Result Db) (w : World)
      → P w.db
      → ((db' : Db) → r ≡ ok db' → P db')
      → P
          (let x : Result (Unit {0}) × World = elim r [
            | ok db ↦ (ok tt, record w { db = db })
            | err x ↦ (err x, w)
          ] in
            x).1.db
  attempt_result (ok db') w h k = k db' refl
  attempt_result (err x) w h k = h

  pub Keeps-attempt :
      (f : Db → Result Db) → ((db db' : Db) → P db → f db ≡ ok db' → P db') → Keeps (attempt f)
  unfolding attempt
  Keeps-attempt f k w h = attempt_result (f w.db) w h (λ db' e. k w.db db' h e)

  pub Keeps-with_node :
      (o : Option Node) (message : String) (f : Node → Action (Unit {0}))
      → ((n : Node) → Keeps (f n))
      → Keeps (with_node o message f)
  unfolding with_node send_json
  Keeps-with_node none message f k w h = h
  Keeps-with_node (some n) message f k w h = k n w h

  pub Keeps-with_tunnel :
      (o : Option Tunnel) (f : Tunnel → Action (Unit {0}))
      → ((t : Tunnel) → Keeps (f t))
      → Keeps (with_tunnel o f)
  unfolding with_tunnel send_json
  Keeps-with_tunnel none f k w h = h
  Keeps-with_tunnel (some t) f k w h = k t w h

  Keeps-or_raise : (o : Option ℤ) → Keeps (or_raise o)
  unfolding or_raise raise pure
  Keeps-or_raise none w h = h
  Keeps-or_raise (some n) w h = h

  pub Keeps-to_int : (n : Number) → Keeps (to_int n)
  unfolding to_int pure returned raise
  Keeps-to_int (number n) w h = h
  Keeps-to_int (digits s) w h = Keeps-or_raise (parse_int s) w h
  Keeps-to_int (float r) w h = h
  Keeps-to_int null w h = h

  caught_db : (r : Result (Unit {0})) (w : World) → P w.db → P (caught r w).db
  caught_db (ok a) w h = h
  caught_db (err x) w h = h

  pub Keeps-guarded : (m : Action (Unit {0})) → Keeps m → (w : World) → P w.db → P (guarded m w).db
  unfolding guarded
  Keeps-guarded m k w h = let (r, w') = m w in caught_db r w' (k w h)

  pub Keeps-then :
      {B : Type 0} (m : Action (Unit {0})) (n : Action B) → Keeps m → Keeps n → Keeps (m >> n)
  unfolding ◌>>◌
  Keeps-then m n km kn = Keeps-bind m (λ u. n) km (λ u. kn)

  pub Keeps-gets : {A : Type 0} (f : Db → A) → Keeps (gets f)
  unfolding gets
  Keeps-gets f w h = h

  pub Keeps-pure : {A : Type 0} (a : A) → Keeps (pure a)
  unfolding pure
  Keeps-pure a w h = h

  pub Keeps-raise : (A : Type 0) (x : Raised) → Keeps (raise {A = A} x)
  unfolding raise
  Keeps-raise A x w h = h

  pub Keeps-modify : (f : Db → Db) → ((db : Db) → P db → P (f db)) → Keeps (modify f)
  unfolding modify
  Keeps-modify f k w h = k w.db h

  pub Keeps-send_json : (status : ℕ) (b : Body) → Keeps (send_json status b)
  unfolding send_json
  Keeps-send_json status b w h = h

  pub Keeps-broadcast : (e : Event) → Keeps (broadcast e)
  unfolding broadcast
  Keeps-broadcast e w h = h

  -- The end of a handler: an answer and a message to the dashboards.
  pub Keeps-done : (status : ℕ) (b : Body) (e : Event) → Keeps (send_json status b >> broadcast e)
  Keeps-done status b e = Keeps-then _ _ (Keeps-send_json status b) (Keeps-broadcast e)

  -- The same rules at one state.
  pub then-at :
      {B : Type 0} (m : Action (Unit {0})) (n : Action B) (w : World)
      → P (m w).1.db
      → Keeps n
      → P ((m >> n) w).1.db
  unfolding ◌>>◌ ◌>>=◌
  then-at m n w h k = let (r, w') = m w in Keeps-continue (λ u. n) r w' (λ u. k) h

  pub attempt-at :
      (f : Db → Result Db) (w : World)
      → P w.db
      → ((db' : Db) → f w.db ≡ ok db' → P db')
      → P (attempt f w).1.db
  unfolding attempt
  attempt-at f w h k = attempt_result (f w.db) w h k

  continue-at :
      {A B : Type 0} (f : A → Action B) (r : Result A) (w : World)
      → P w.db
      → ((a : A) → P (f a w).1.db)
      → P (continue f r w).1.db
  continue-at f (ok a) w h k = k a
  continue-at f (err x) w h k = h

  -- A first part that leaves the database as it is.
  pub quiet-bind :
      {A B : Type 0} (m : Action A) (f : A → Action B) (w : World)
      → (m w).1.db ≡ w.db
      → P w.db
      → ((a : A) (w' : World) → w'.db ≡ w.db → P (f a w').1.db)
      → P ((m >>= f) w).1.db
  unfolding ◌>>=◌
  quiet-bind m f w e h k =
      let (r, w') = m w in continue-at f r w' (subst P (sym e) h) (λ a. k a w' e)

  -- An operation that answers and changes at once is read first and stored next.
  pub Keeps-store :
      {A : Type 0} (f : Db → A × Db) (k : A × Db → Action (Unit {0}))
      → ((db : Db) → P db → P (f db).1)
      → ((r : A × Db) → Keeps (k r))
      → Keeps (gets f >>= λ r. modify (λ db. r.1) >> k r)
  unfolding gets modify ◌>>=◌
  Keeps-store f k kept kk w h =
      then-at (modify (λ db. (f w.db).1)) (k (f w.db)) w (kept w.db h) (kk (f w.db))

  pub guarded-at : (m : Action (Unit {0})) (w : World) → P (m w).1.db → P (guarded m w).db
  unfolding guarded
  guarded-at m w h = let (r, w') = m w in caught_db r w' h
