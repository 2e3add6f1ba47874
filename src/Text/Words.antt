-- ===== src/Text/Words.antt =====
-- `str.split()` and `str.splitlines()` of Python.
use Prim.Native.Char.{Char, code}
use hawal.Base.{String, Bool, true, not, ◌&&◌, ◌||◌, List, [], ◌∷◌}
use hawal.Base.Tests.{leb, if◌then◌else◌}
use hawal.Text.{is, is_space, is_empty}

abbrev cons_to_first : Char → List String → List String
cons_to_first c [] = String.◌∷◌ c "" ∷ []
cons_to_first c (p ∷ ps) = String.◌∷◌ c p ∷ ps

-- What stands between the characters that `cut` tells, empty pieces among it.
unfoldable pub pieces : (Char → Bool) → String → List String
pieces cut String.[] = "" ∷ []
pieces cut (String.◌∷◌ c s) =
    let rest = pieces cut s in if cut c then "" ∷ rest else cons_to_first c rest

abbrev pub full : List String → List String
full [] = []
full (p ∷ ps) = if is_empty p then full ps else p ∷ full ps

-- `s.split()`
unfoldable pub words : String → List String
unfolding pieces is_space
words s = full (pieces is_space s)

-- Where `s.splitlines()` cuts.
abbrev pub is_line_end : Char → Bool
is_line_end c =
    (leb 10 (code c) && leb (code c) 13)
    || (leb 28 (code c) && leb (code c) 30)
    || is c 133
    || is c 8232
    || is c 8233

-- `s.splitlines()`, without its empty lines, which no caller reads.
unfoldable pub splitlines : String → List String
unfolding pieces
splitlines s = full (pieces is_line_end s)

-- `s.isdigit()`, of the ASCII digits
abbrev digit : Char → Bool
digit c = leb b'0' (code c) && leb (code c) b'9'

unfoldable pub all_digits : String → Bool
all_digits String.[] = true
all_digits (String.◌∷◌ c s) = digit c && all_digits s

unfoldable pub is_digits : String → Bool
unfolding all_digits
is_digits s = not (is_empty s) && all_digits s
