-- ===== src/Engine/Ports.antt =====
-- The port of a forwarding rule as app/server.py reads it, in the traffic collector and in the
-- tunnel test.
use hawal.Base.{String, Bool, ◌&&◌, ◌≡◌, refl, arith}
use hawal.Base.{Option, none, some, List, [], ◌∷◌, ◌++◌}
use hawal.Base.Tests.{if◌then◌else◌}
use hawal.Base.Lists.{All}
use hawal.Base.Int.{ℤ, pos, leb_ℤ, eqb_ℤ, ◌≤ℤ◌}
use hawal.Text.{strip, before, has, last_piece}
use hawal.Text.Decimal.{parse_int}

-- `1 <= p <= 65535`
abbrev pub in_range : ℤ → Bool
in_range p = leb_ℤ (pos 1) p && leb_ℤ p (pos 65535)

abbrev pub when_in_range : Option ℤ → Option ℤ
when_in_range none = none
when_in_range (some p) = if in_range p then some p else none

-- `none`: the rule is passed over.
unfoldable pub rule_port : String → Option ℤ
unfolding strip before has last_piece parse_int
rule_port rule =
    let left = strip (before b'=' (strip rule)) in
    when_in_range (parse_int (if has b':' left then last_piece b':' left else left))

abbrev cons_port : Option ℤ → List ℤ → List ℤ
cons_port none ps = ps
cons_port (some p) ps = p ∷ ps

unfoldable pub rule_ports : List String → List ℤ
unfolding rule_port
rule_ports [] = []
rule_ports (r ∷ rs) = cons_port (rule_port r) (rule_ports rs)

-- `port_list` of `background_traffic_collector`: the ports of the rules and the core port, if it is
-- not zero.
unfoldable pub port_list : List String → ℤ → List ℤ
unfolding rule_ports
port_list rules core_port =
    rule_ports rules ++ (if eqb_ℤ core_port (pos 0) then [] else core_port ∷ [])

-- `test_port` of the tunnel test: the loop breaks at the first port.
unfoldable pub first_port : List String → Option ℤ
unfolding rule_port
first_port [] = none
first_port (r ∷ rs) =
    let rest = first_port rs in elim (rule_port r) [ none ↦ rest | some p ↦ some p ]

unfoldable pub test_port : List String → ℤ → ℤ
unfolding first_port
test_port rules core_port = elim (first_port rules) [ none ↦ core_port | some p ↦ p ]

abbrev pub IsPort : ℤ → Type 0
IsPort p = (pos 1 ≤ℤ p) × (p ≤ℤ pos 65535)

pub when_in_range-IsPort : (o : Option ℤ) {p : ℤ} → when_in_range o ≡ some p → IsPort p
when_in_range-IsPort none h = absurd (ground arith)
when_in_range-IsPort (some q) h = ground arith

pub rule_port-IsPort : (r : String) {p : ℤ} → rule_port r ≡ some p → IsPort p
unfolding rule_port
rule_port-IsPort r h =
    let left = strip (before b'=' (strip r)) in
    when_in_range-IsPort (parse_int (if has b':' left then last_piece b':' left else left)) h

cons_port-IsPort :
    (o : Option ℤ) (ps : List ℤ)
    → ((p : ℤ) → o ≡ some p → IsPort p)
    → All IsPort ps
    → All IsPort (cons_port o ps)
cons_port-IsPort none ps h a = a
cons_port-IsPort (some p) ps h a = (h p refl, a)

-- Every port that is read from the rules is one of TCP.
pub rule_ports-IsPort : (rs : List String) → All IsPort (rule_ports rs)
unfolding rule_ports
rule_ports-IsPort [] = tt
rule_ports-IsPort (r ∷ rs) =
    cons_port-IsPort (rule_port r) (rule_ports rs) (λ p h. rule_port-IsPort r h)
      (rule_ports-IsPort rs)

abbrev pub first_or : ℤ → List ℤ → ℤ
first_or d [] = d
first_or d (p ∷ ps) = p

-- The port that the test probes is the first one that the collector counts, or the core port where
-- no rule has a port.
pub test_port-eq-first :
    (rs : List String) (core_port : ℤ)
    → test_port rs core_port ≡ first_or core_port (port_list rs core_port)
unfolding test_port port_list
test_port-eq-first [] core_port = ground arith
test_port-eq-first (r ∷ rs) core_port = ground (arith, test_port-eq-first rs core_port)
