-- ===== src/Server.antt =====
-- app/server.py: what a request handler reads and writes, and how it answers. A handler is an
-- action: what it wrote before an exception stays written.
pub mod Nodes
pub mod Logs
pub mod Tunnels
pub mod Settings
pub mod Agents
pub mod Sync
pub mod Route
pub mod Files
pub mod Frames
pub mod Collector
pub mod Keeps
pub mod Client
pub mod Panel
pub mod Dashboards
use hawal.Base.{ℕ, String, Bool, true, false, Option, none, some, List, [], ◌∷◌, ◌++◌}
use hawal.Base.Result.{Result, ok, err, Raised}
use hawal.Base.Rows.{find_row}
use hawal.Base.Eq.{string_eq}
use hawal.Db.{Db, Node, Snapshot}
use hawal.Db.Tunnels.{TunnelRow}
use hawal.Db.Pings.{PingView}
use hawal.Geoip.{Cache}
use hawal.Settings.{Dict, ConfigFile}
use hawal.Item.{Item, Role}
use hawal.Ping.{PingResult}

-- What a reply holds; the status stands beside it.
pub data Body : Type 0 where
  error : String → Body
  -- `{"error": str(e)}`
  failure : Raised → Body
  nodes : List Node → Body
  logs : List Snapshot → Body
  deleted_rows : ℕ → Body
  success : Body
  node_made : String → String → String → String → String → String → Body
  deleted : String → Body
  tunnels : List TunnelRow → Body
  tunnel_made : String → String → String → String → Body
  settings : Dict → Body
  tunnel_done : String → Body
  agents_restarted : ℕ → Body
  status_set : String → Body
  pings : List PingView → Body
  heartbeat_ok : List (String × Role × String × ℕ) → Body
  sync : List Item → ℕ → Body
  page : String → Body
  installer : String → String → String → String → Body

pub record Reply : Type 0 where
  pub status : ℕ
  pub body : Body

-- What `broadcast_ws` sends to the dashboards.
pub data Event : Type 0 where
  node_updated : Event
  tunnel_updated : Event
  settings_updated : Event
  node_heartbeat : String → Event
  ping_completed : PingResult → Event

pub record World : Type 0 where
  pub db : Db
  pub cache : Cache
  pub config : ConfigFile
  pub replies : List Reply
  pub events : List Event

abbrev pub Action : Type 0 → Type 0
Action A = World → Result A × World

abbrev pub continue : {A B : Type 0} → (A → Action B) → Result A → Action B
continue f (ok a) w = f a w
continue f (err x) w = (err x, w)

infixl 5 ◌>>=◌ ◌>>◌
unfoldable pub ◌>>=◌ : {A B : Type 0} → Action A → (A → Action B) → Action B
◌>>=◌ m f w = let (r, w') = m w in continue f r w'

unfoldable pub ◌>>◌ : {B : Type 0} → Action Unit → Action B → Action B
m >> n = m >>= λ _. n

unfoldable pub pure : {A : Type 0} → A → Action A
pure a w = (ok a, w)

unfoldable pub raise : {A : Type 0} → Raised → Action A
raise x w = (err x, w)

-- A call of Python that returns or raises.
unfoldable pub returned : {A : Type 0} → Result A → Action A
returned r w = (r, w)

unfoldable pub gets : {A : Type 0} → (Db → A) → Action A
gets f w = (ok (f w.db), w)

unfoldable pub modify : (Db → Db) → Action Unit
modify f w = (ok tt, record w { db = f w.db })

-- A database call that may raise; a call that raises is rolled back.
unfoldable pub attempt : (Db → Result Db) → Action Unit
attempt f w = elim (f w.db) [ ok db ↦ (ok tt, record w { db = db }) | err x ↦ (err x, w) ]

-- `json.loads(body)` for a body that is read as an `A`; none where it is no JSON.
unfoldable pub parsed : {A : Type 0} → Option A → Action A
parsed none = raise Raised.json_error
parsed (some a) = pure a

unfoldable pub send_json : ℕ → Body → Action Unit
send_json status body w =
    (ok tt, record w { replies = w.replies ++ record { status = status; body = body } ∷ [] })

unfoldable pub broadcast : Event → Action Unit
broadcast e w = (ok tt, record w { events = w.events ++ e ∷ [] })

-- `data.get(key, default)`
abbrev pub or_default {ℓ} : {A : Type ℓ} → Option A → A → A
or_default none d = d
or_default (some a) d = a

-- `except Exception` of `handle_client`: an exception is answered with status 500 and its text.
abbrev pub caught : Result (Unit {0}) → World → World
caught (ok a) w = w
caught (err x) w = record w {
  replies = w.replies ++ record { status = 500; body = failure x } ∷ [];
}

unfoldable pub guarded : Action Unit → World → World
guarded m w = let (r, w') = m w in caught r w'
