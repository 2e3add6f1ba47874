-- ===== src/Agent/Traffic.antt =====
-- The byte counters of `track_and_report_traffic` in app/static/js/agent.py. What a counter reads is
-- the answer of the machine.
use hawal.Base.{ℕ, ◌+◌, ◌-◌, ◌≤◌, String, ◌≡◌, ◌∙◌, arith, Bool, ◌||◌, not, Option, none, some}
use hawal.Base.{List, [], ◌∷◌, ◌++◌}
use hawal.Base.Tests.{eqb, if◌then◌else◌}
use hawal.Base.Eq.{string_eq}
use hawal.Base.Dict.{lookup, put, lookup-put}
use hawal.Base.Rows.{find_row}
use hawal.Base.Int.{ℤ}
use hawal.Item.{server, client}
use hawal.Agent.{Process, Metadata, paqet}

-- Received and sent bytes, or read and written ones.
abbrev pub Reading : Type 0
Reading = ℕ × ℕ

pub record Report : Type 0 where
  pub tunnel_id : String
  pub bytes_in : ℕ
  pub bytes_out : ℕ

-- `_last_paqet_traffic` and `_last_io`
pub record Counters : Type 0 where
  pub last_paqet_traffic : List (String × Reading)
  pub last_io : List (String × Reading)

abbrev pub or_reading : Option Reading → Reading → Reading
or_reading none r = r
or_reading (some l) r = l

-- `max(0, new - last)` is the subtraction of ℕ. A first reading counts as its own predecessor.
unfoldable pub delta : String → Reading → List (String × Reading) → Reading
delta tun_id now last = let l = or_reading (lookup tun_id last) now in (now.0 - l.0, now.1 - l.1)

abbrev pub report : String → Reading → List Report
report tun_id d =
    if not (eqb d.0 0) || not (eqb d.1 0)
    then record { tunnel_id = tun_id; bytes_in = d.0; bytes_out = d.1 } ∷ []
    else []

-- One counter: what is reported, and the dict of last readings; none is a reading that raises.
unfoldable pub observe :
    String → Option Reading → List (String × Reading) → List Report × List (String × Reading)
observe tun_id none last = ([], last)
observe tun_id (some now) last = (report tun_id (delta tun_id now last), put tun_id now last)

module _ (alive : Process → Bool) (paqet_bytes : ℤ → Option Reading)
    (io_bytes : Process → Option Reading) where
  -- The counter that is read for a tunnel, by its details.
  unfoldable pub observe_tunnel :
      String → Process → Option Metadata → Counters → List Report × Counters
  observe_tunnel tun_id proc (some (paqet server core_port ports)) c =
      let (rs, last) = observe tun_id (paqet_bytes core_port) c.last_paqet_traffic in
      (rs, record c { last_paqet_traffic = last })
  observe_tunnel tun_id proc (some (paqet client core_port ports)) c = ([], c)
  observe_tunnel tun_id proc _ c =
      let (rs, last) = observe tun_id (io_bytes proc) c.last_io in (rs, record c { last_io = last })

  -- The loop over the processes; one that has ended is passed over.
  unfoldable pub track_traffic :
      List (String × Process) → List (String × Metadata) → Counters → List Report × Counters
  track_traffic [] metadata c = ([], c)
  track_traffic ((tun_id, proc) ∷ ps) metadata c =
      let (rs, c') =
        (if alive proc then observe_tunnel tun_id proc (lookup tun_id metadata) c else ([], c)) in
      let (more, c'') = track_traffic ps metadata c' in (rs ++ more, c'')

-- The readings of one counter, round by round, and all that is reported of them.
unfoldable pub observe_all : String → List Reading → List (String × Reading) → List Report
observe_all tun_id [] last = []
observe_all tun_id (r ∷ rs) last =
    let (now, next) = observe tun_id (some r) last in now ++ observe_all tun_id rs next

abbrev pub total_in : List Report → ℕ
total_in [] = 0
total_in (r ∷ rs) = r.bytes_in + total_in rs

abbrev pub total_out : List Report → ℕ
total_out [] = 0
total_out (r ∷ rs) = r.bytes_out + total_out rs

-- Both counters never fall.
abbrev pub Rising : Reading → List Reading → Type 0
Rising l [] = Unit
Rising l (r ∷ rs) = (l.0 ≤ r.0) × (l.1 ≤ r.1) × Rising r rs

abbrev pub final : Reading → List Reading → Reading
final l [] = l
final l (r ∷ rs) = final r rs

total-append :
    (xs ys : List Report)
    → (total_in (xs ++ ys) ≡ total_in xs + total_in ys)
      × (total_out (xs ++ ys) ≡ total_out xs + total_out ys)
total-append [] ys = (omega arith, omega arith)
total-append (x ∷ xs) ys = let (e, f) = total-append xs ys in (omega (arith, e), omega (arith, f))

total-report :
    (i : String) (d : Reading) → (total_in (report i d) ≡ d.0) × (total_out (report i d) ≡ d.1)
total-report i d = (ground arith, ground arith)

observe_all-from :
    (i : String) (rs : List Reading) (last : List (String × Reading)) (l : Reading)
    → lookup i last ≡ some l
    → Rising l rs
    → (l.0 + total_in (observe_all i rs last) ≡ (final l rs).0)
      × (l.1 + total_out (observe_all i rs last) ≡ (final l rs).1)
unfolding observe_all observe delta
observe_all-from i [] last l e up = (omega arith, omega arith)
observe_all-from i (r ∷ rs) last l e up =
    let d = delta i r last in
    let (p, q) = total-report i d in
    let next = put i r last in
    let (s, t) = total-append (report i d) (observe_all i rs next) in
    let (u, v) =
      observe_all-from i rs next r (lookup-put i i r last ∙ ground (arith, string_eq.same_iff i i))
        up.2 in
    (ground (arith, e, p, s, u), ground (arith, e, q, t, v))

delta-first : (i : String) (r : Reading) → ((delta i r []).0 ≡ 0) × ((delta i r []).1 ≡ 0)
unfolding delta lookup find_row
delta-first i r = (omega arith, omega arith)

-- Of counters that never fall, the reports of all rounds add up to what was counted since the first
-- round: nothing is reported twice and nothing is lost, in either direction.
pub observe_all-total :
    (i : String) (first : Reading) (rs : List Reading)
    → Rising first rs
    → let reports = observe_all i (first ∷ rs) [] in
      (first.0 + total_in reports ≡ (final first rs).0)
      × (first.1 + total_out reports ≡ (final first rs).1)
unfolding observe_all observe
observe_all-total i first rs up =
    let (p, q) = total-report i (delta i first []) in
    let next = put i first [] in
    let (s, t) = total-append (report i (delta i first [])) (observe_all i rs next) in
    let (u, v) =
      observe_all-from i rs next first
        (lookup-put i i first [] ∙ ground (arith, string_eq.same_iff i i)) up in
    let (m, n) = delta-first i first in (ground (arith, p, s, u, m), ground (arith, q, t, v, n))
