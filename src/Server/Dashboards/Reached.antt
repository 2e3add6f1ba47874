-- ===== src/Server/Dashboards/Reached.antt =====
-- Which dashboards a message of `broadcast_ws` in app/server.py reaches.
use hawal.Base.{
  ℕ, ◌≡◌, refl, sym, ap, ◌∙◌, arith, Bool, true, false, not, ◌&&◌, List, [], ◌∷◌, ◌++◌, inl, inr,
}
use hawal.Base.Tests.{eqb, if◌then◌else◌, Bool-cases}
use hawal.Base.Eq.{◌==◌}
use hawal.Base.Lists.{contains, Distinct}
use hawal.Server.Frames.{encode_ws_frame}
use hawal.Server.Dashboards.{
  eqb_iff, nat_eq, Hub, discard, enter, leave, write_all, discard_all, broadcast_ws, received,
  HubStep, entered, left, told, HubReach, none_yet, then_step,
}

contains-discard :
    (d w : ℕ) (ws : List ℕ) → contains (discard d ws) w ≡ (contains ws w && not (eqb d w))
unfolding contains discard
contains-discard d w [] = refl
contains-discard d w (x ∷ xs) = ground (arith, contains-discard d w xs)

contains-discard_all :
    (dead ws : List ℕ) (w : ℕ)
    → contains (discard_all dead ws) w ≡ (contains ws w && not (contains dead w))
unfolding contains discard_all
contains-discard_all [] ws w = ground arith
contains-discard_all (d ∷ dead) ws w =
    contains-discard_all dead (discard d ws) w ∙ ground (arith, contains-discard d w ws)

received-append :
    (w : ℕ) (a b : List (ℕ × List ℕ)) → received w (a ++ b) ≡ received w a ++ received w b
unfolding received
received-append w [] b = refl
received-append w ((x, msg) ∷ a) b = elim (Bool-cases (x == w)) [
  | inl e ↦ rw e (ap (λ l. msg ∷ l) (received-append w a b))
  | inr e ↦ rw e (received-append w a b)
]

module _ (takes : ℕ → Bool) (msg : List ℕ) where
  at : (x w : ℕ) {b : Bool} → takes x ≡ b → eqb x w ≡ true → takes w ≡ b
  at x w e s = ap takes (sym ((eqb_iff x w).0 s)) ∙ e

  contains-write_all :
      (ws : List ℕ) (w : ℕ)
      → contains (write_all takes msg ws).1 w ≡ (contains ws w && not (takes w))
  unfolding contains write_all
  contains-write_all [] w = refl
  contains-write_all (x ∷ ws) w = elim (Bool-cases (takes x)) [
    | inl e ↦ rw e (ground (arith, contains-write_all ws w, at x w e))
    | inr e ↦ rw e (ground (arith, contains-write_all ws w, at x w e))
  ]

  received_absent :
      (ws : List ℕ) (w : ℕ) → contains ws w ≡ false → received w (write_all takes msg ws).0 ≡ []
  unfolding contains write_all received
  received_absent [] w h = refl
  received_absent (x ∷ ws) w h = elim (Bool-cases (takes x)) [
    | inl e ↦ rw e (ground (arith, received_absent ws w))
    | inr e ↦ rw e (received_absent ws w (ground arith))
  ]

  received_once :
      (ws : List ℕ) (w : ℕ)
      → Distinct ws
      → received w (write_all takes msg ws).0 ≡ (if contains ws w && takes w then msg ∷ [] else [])
  unfolding contains write_all received
  received_once [] w d = refl
  received_once (x ∷ ws) w d = elim (Bool-cases (takes x)) [
    | inl e ↦ rw e (
        ground (
          arith,
          received_once ws w d.1,
          received_absent ws x d.0,
          received_absent ws w,
          at x w e,
          eqb_iff x w,
        ))
    | inr e ↦
        rw e (ground (arith, received_once ws w d.1, received_absent ws w, at x w e, eqb_iff x w))
  ]

Distinct-discard : (d : ℕ) (ws : List ℕ) → Distinct ws → Distinct (discard d ws)
unfolding discard
Distinct-discard d [] u = tt
Distinct-discard d (x ∷ xs) u = elim (Bool-cases (x == d)) [
  | inl e ↦ rw e (Distinct-discard d xs u.1)
  | inr e ↦ rw e (ground (arith, contains-discard d x xs), Distinct-discard d xs u.1)
]

Distinct-discard_all : (dead ws : List ℕ) → Distinct ws → Distinct (discard_all dead ws)
unfolding discard_all
Distinct-discard_all [] ws u = u
Distinct-discard_all (d ∷ dead) ws u =
    Distinct-discard_all dead (discard d ws) (Distinct-discard d ws u)

Distinct-enter : (w : ℕ) (h : Hub) → Distinct h.connected → Distinct (enter w h).connected
unfolding enter
Distinct-enter w h u = elim (Bool-cases (contains h.connected w)) [
  | inl e ↦ rw e u
  | inr e ↦ rw e (e, u)
]

HubStep-Distinct : {h h' : Hub} → HubStep h h' → Distinct h.connected → Distinct h'.connected
unfolding leave broadcast_ws
HubStep-Distinct (entered {h = h} w) u = Distinct-enter w h u
HubStep-Distinct (left {h = h} w) u = Distinct-discard w h.connected u
HubStep-Distinct (told {h = h} takes payload) u =
    Distinct-discard_all (write_all takes (encode_ws_frame payload 1) h.connected).1 h.connected u

HubReach-Distinct : {h : Hub} → HubReach h → Distinct h.connected
HubReach-Distinct none_yet = tt
HubReach-Distinct (then_step r s) = HubStep-Distinct s (HubReach-Distinct r)

-- However dashboards came and went before, a message to all is written exactly once to each dashboard
-- that is connected and takes it, as one frame behind what it was written before, and to no other;
-- afterwards those dashboards are the connected ones.
pub broadcast_ws-reach :
    (takes : ℕ → Bool) (payload : List ℕ) (h : Hub) (w : ℕ)
    → HubReach h
    → let h' = broadcast_ws takes payload h in
      let takes_part = contains h.connected w && takes w in
      (received w h'.sent
        ≡ received w h.sent ++ (if takes_part then encode_ws_frame payload 1 ∷ [] else []))
      × (contains h'.connected w ≡ takes_part)
unfolding broadcast_ws
broadcast_ws-reach takes payload h w r =
    let msg = encode_ws_frame payload 1 in
    let result = write_all takes msg h.connected in
    (
      received-append w h.sent result.0
          ∙ ap (λ l. received w h.sent ++ l)
              (received_once takes msg h.connected w (HubReach-Distinct r)),
      contains-discard_all result.1 h.connected w
          ∙ ground (arith, contains-write_all takes msg h.connected w),
    )
