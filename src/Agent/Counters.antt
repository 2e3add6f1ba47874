-- ===== src/Agent/Counters.antt =====
-- How app/static/js/agent.py reads its two byte counters: `_iptables_bytes`, the bytes of a rule
-- that `iptables -nvxL` lists, and the lines of /proc/<pid>/io.
pub mod Laws
use hawal.Base.{
  ℕ, String, ◌<>◌, Bool, true, false, not, ◌&&◌, ◌||◌, Option, none, some, List, [], ◌∷◌,
}
use hawal.Base.Tests.{if◌then◌else◌}
use hawal.Base.Eq.{◌==◌, string_eq}
use hawal.Base.Int.{ℤ, pos, pos_part, eqb_ℤ}
use hawal.Agent.Traffic.{Reading}
use hawal.Text.{occurs, begins, before, after}
use hawal.Text.Words.{words, splitlines, is_digits}
use hawal.Text.Decimal.{show_int, parse_int}

-- `{"dport": "dpt", "sport": "spt"}.get(port_kind, port_kind)`
abbrev pub display_kind : String → String
display_kind port_kind =
    if port_kind == "dport" then "dpt" else if port_kind == "sport" then "spt" else port_kind

abbrev pub needle : String → ℤ → String
needle port_kind port = display_kind port_kind <> ":" <> show_int port

-- The packets and the bytes of a line, by its columns.
abbrev pub bytes_of : List String → Option ℤ
bytes_of (packets ∷ bytes ∷ columns) =
    if is_digits packets && is_digits bytes then parse_int bytes else none
bytes_of columns = none

unfoldable pub counter_line : String → String → Option ℤ
unfolding occurs words is_digits parse_int
counter_line mark line =
    if not (occurs mark line) || not (occurs "NOTRACK" line) then none else bytes_of (words line)

-- The loop; none is the `RuntimeError` behind it.
unfoldable pub first_counter : String → List String → Option ℤ
unfolding counter_line
first_counter mark [] = none
first_counter mark (line ∷ lines) =
    let rest = first_counter mark lines in
    elim (counter_line mark line) [ some n ↦ some n | none ↦ rest ]

-- `list_chain` is the output of `iptables -t raw -nvxL`, none where it fails.
unfoldable pub iptables_bytes : (String → Option String) → String → String → ℤ → Option ℤ
unfolding first_counter splitlines show_int
iptables_bytes list_chain chain port_kind port = elim (list_chain chain) [
  | none ↦ none
  | some stdout ↦ first_counter (needle port_kind port) (splitlines stdout)
]

-- `int(l.split(":")[1].strip())`, for a line that has a colon
abbrev pub value_of : String → Option ℤ
value_of l = parse_int (before b':' (after b':' l))

abbrev pub read_to : Option ℤ → ℤ → Option (ℤ × ℤ)
read_to none w_bytes = none
read_to (some n) w_bytes = some (n, w_bytes)

abbrev pub write_to : ℤ → Option ℤ → Option (ℤ × ℤ)
write_to r_bytes none = none
write_to r_bytes (some n) = some (r_bytes, n)

-- One line of /proc/<pid>/io; none where `int` raises.
unfoldable pub io_line : String → ℤ × ℤ → Option (ℤ × ℤ)
unfolding begins before after parse_int
io_line l (r_bytes, w_bytes) =
    if begins "read_bytes:" l
    then read_to (value_of l) w_bytes
    else if begins "write_bytes:" l
    then write_to r_bytes (value_of l)
    else if begins "rchar:" l && eqb_ℤ r_bytes (pos 0)
    then read_to (value_of l) w_bytes
    else if begins "wchar:" l && eqb_ℤ w_bytes (pos 0)
    then write_to r_bytes (value_of l)
    else some (r_bytes, w_bytes)

unfoldable pub io_lines : List String → ℤ × ℤ → Option (ℤ × ℤ)
unfolding io_line
io_lines [] s = some s
io_lines (l ∷ ls) s = elim (io_line l s) [ none ↦ none | some s' ↦ io_lines ls s' ]

unfoldable pub io_bytes : List String → Option (ℤ × ℤ)
unfolding io_lines
io_bytes lines = io_lines lines (pos 0, pos 0)

abbrev pub pair_of : Option ℤ → Option ℤ → Option Reading
pair_of (some a) (some b) = some (pos_part a, pos_part b)
pair_of _ _ = none

-- Both counters of a Paqet server.
unfoldable pub paqet_reading : (String → Option String) → ℤ → Option Reading
unfolding iptables_bytes
paqet_reading list_chain core_port =
    pair_of (iptables_bytes list_chain "PREROUTING" "dport" core_port)
      (iptables_bytes list_chain "OUTPUT" "sport" core_port)

-- Both counters of another process; none where the file is not there or cannot be read.
unfoldable pub io_reading : Option (List String) → Option Reading
unfolding io_bytes
io_reading none = none
io_reading (some lines) = elim (io_bytes lines) [
  | none ↦ none
  | some s ↦ pair_of (some s.0) (some s.1)
]
