-- ===== src/Server/Dashboards.antt =====
-- The connected dashboards of app/server.py: `broadcast_ws` and the set that `handle_ws_dashboard`
-- keeps. A writer is a number; the set is a list without repetitions.
pub mod Reached
use hawal.Base.{
  ℕ, ◌≡◌, refl, sym, ap, ◌∙◌, arith, Bool, true, false, not, ◌&&◌, ◌||◌, List, [], ◌∷◌, ◌++◌, ◌↔◌,
  inl, inr,
}
use hawal.Base.Tests.{eqb, if◌then◌else◌, Bool-cases}
use hawal.Base.Eq.{Eq, ◌==◌}
use hawal.Base.Lists.{contains, Distinct}
use hawal.Server.Frames.{encode_ws_frame}

pub eqb_iff : (a b : ℕ) → (eqb a b ≡ true) ↔ (a ≡ b)
eqb_iff a b = ground arith

instance abbrev pub nat_eq : Eq ℕ
nat_eq = record { same = eqb; same_iff = eqb_iff }

-- The set, and the frames that were written, each with its writer.
pub record Hub : Type 0 where
  pub connected : List ℕ
  pub sent : List (ℕ × List ℕ)

-- `CONNECTED_WS_CLIENTS.discard(w)`
unfoldable pub discard : ℕ → List ℕ → List ℕ
discard w [] = []
discard w (x ∷ xs) = let rest = discard w xs in if x == w then rest else x ∷ rest

-- `CONNECTED_WS_CLIENTS.add(writer)`, at the start of `handle_ws_dashboard`
unfoldable pub enter : ℕ → Hub → Hub
unfolding contains
enter w h = record h { connected = if contains h.connected w then h.connected else w ∷ h.connected }

-- Its end, by whatever way.
unfoldable pub leave : ℕ → Hub → Hub
unfolding discard
leave w h = record h { connected = discard w h.connected }

-- The loop over the clients; `takes` says whether a writer takes the message or raises.
unfoldable pub write_all : (ℕ → Bool) → List ℕ → List ℕ → List (ℕ × List ℕ) × List ℕ
write_all takes msg [] = ([], [])
write_all takes msg (w ∷ ws) =
    let (sent, dead) = write_all takes msg ws in
    if takes w then ((w, msg) ∷ sent, dead) else (sent, w ∷ dead)

unfoldable pub discard_all : List ℕ → List ℕ → List ℕ
unfolding discard
discard_all [] ws = ws
discard_all (d ∷ dead) ws = discard_all dead (discard d ws)

-- `broadcast_ws`, on the bytes that `json.dumps` writes.
unfoldable pub broadcast_ws : (ℕ → Bool) → List ℕ → Hub → Hub
unfolding write_all discard_all encode_ws_frame
broadcast_ws takes payload h =
    let (sent, dead) = write_all takes (encode_ws_frame payload 1) h.connected in
    record { connected = discard_all dead h.connected; sent = h.sent ++ sent }

-- The messages that one dashboard was written.
unfoldable pub received : ℕ → List (ℕ × List ℕ) → List (List ℕ)
received w [] = []
received w ((x, msg) ∷ ms) = let rest = received w ms in if x == w then msg ∷ rest else rest

-- What can happen to the hub: a dashboard connects, one ends, or a message goes to all.
pub data HubStep : Hub → Hub → Type 0 where
  entered : {h : Hub} → (w : ℕ) → HubStep h (enter w h)
  left : {h : Hub} → (w : ℕ) → HubStep h (leave w h)
  told :
      {h : Hub} → (takes : ℕ → Bool) → (payload : List ℕ) → HubStep h (broadcast_ws takes payload h)

pub data HubReach : Hub → Type 0 where
  none_yet : HubReach (record { connected = []; sent = [] })
  then_step : {h h' : Hub} → HubReach h → HubStep h h' → HubReach h'
