-- ===== src/Agent/Machine.antt =====
-- What app/static/js/agent.py reads off its machine: the default route of `get_network_info` and the
-- memory of `get_system_metrics`.
use hawal.Base.{◌/◌, arith, String, ◌&&◌, Option, none, some, List, [], ◌∷◌}
use hawal.Base.Tests.{if◌then◌else◌}
use hawal.Base.Eq.{◌==◌, string_eq}
use hawal.Base.Lists.{contains}
use hawal.Base.Dict.{lookup, put}
use hawal.Base.Int.{ℤ, pos, negsuc, ◌-ℤ◌, ◌≤ℤ◌, max_ℤ}
use hawal.Text.{strip, occurs, split}
use hawal.Text.Words.{words, splitlines}
use hawal.Text.Decimal.{parse_int}

-- `parts[parts.index(word) + 1]`; none is an `IndexError`.
unfoldable pub next_word : String → List String → Option String
next_word word [] = none
next_word word (p ∷ []) = none
next_word word (p ∷ q ∷ ps) =
    let rest = next_word word (q ∷ ps) in if p == word then some q else rest

-- The interface and the gateway of the first line with a default route. An `IndexError` leaves what
-- was set before it.
abbrev pub route_parts : List String → String × String
route_parts parts = elim (if contains parts "dev" then next_word "dev" parts else some "") [
  | none ↦ ("", "")
  | some iface ↦ (
    iface,
    elim (if contains parts "via" then next_word "via" parts else some "") [
      | none ↦ ""
      | some gateway_ip ↦ gateway_ip
    ],
  )
]

-- The loop over the lines of `ip route`, up to its `break`.
unfoldable pub first_route : List String → String × String
unfolding occurs words contains next_word
first_route [] = ("", "")
first_route (line ∷ lines) =
    let rest = first_route lines in
    if occurs "default" line && occurs "dev" line then route_parts (words line) else rest

-- `iface` and `gateway_ip`; none is a command that fails.
unfoldable pub default_route : Option String → String × String
unfolding first_route splitlines
default_route none = ("", "")
default_route (some res) = first_route (splitlines res)

-- `int(text.split()[0])`
abbrev pub leading_int : List String → Option ℤ
leading_int [] = none
leading_int (w ∷ ws) = parse_int w

abbrev pub add_entry : String → Option ℤ → List (String × ℤ) → Option (List (String × ℤ))
add_entry k none mem = none
add_entry k (some v) mem = some (put k v mem)

-- One line of /proc/meminfo; none where `int` or the index raises.
abbrev pub mem_parts : List String → List (String × ℤ) → Option (List (String × ℤ))
mem_parts (k ∷ v ∷ []) mem = add_entry (strip k) (leading_int (words v)) mem
mem_parts parts mem = some mem

unfoldable pub mem_lines : List String → List (String × ℤ) → Option (List (String × ℤ))
unfolding split strip words parse_int put
mem_lines [] mem = some mem
mem_lines (line ∷ lines) mem = elim (mem_parts (split b':' line) mem) [
  | none ↦ none
  | some mem' ↦ mem_lines lines mem'
]

-- `n // 1024`
abbrev pub in_mb : ℤ → ℤ
in_mb (pos n) = pos (n / 1024)
in_mb (negsuc n) = negsuc (n / 1024)

abbrev pub or_int : Option ℤ → ℤ → ℤ
or_int none d = d
or_int (some n) d = n

-- What is used and what there is.
abbrev pub usage : Option (List (String × ℤ)) → ℤ × ℤ
usage none = (pos 0, pos 0)
usage (some mem) =
    let total_mb = in_mb (or_int (lookup "MemTotal" mem) (pos 0)) in
    let free = or_int (lookup "MemFree" mem) (pos 0) in
    let avail_mb = in_mb (or_int (lookup "MemAvailable" mem) free) in
    (max_ℤ (pos 0) (total_mb -ℤ avail_mb), total_mb)

-- `ram_used_mb` and `ram_total_mb`, by the lines of the file; both stay 0 where reading fails.
unfoldable pub memory : List String → ℤ × ℤ
unfolding mem_lines lookup
memory lines = usage (mem_lines lines [])

-- Whatever the file says, the memory in use is never negative.
pub memory-used : (lines : List String) → pos 0 ≤ℤ (memory lines).0
unfolding memory
memory-used lines = used (mem_lines lines [])
  where
    used : (o : Option (List (String × ℤ))) → pos 0 ≤ℤ (usage o).0
    used none = ground arith
    used (some mem) = ground arith
