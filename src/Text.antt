-- ===== src/Text.antt =====
-- The operations of Python's `str` and `int` that the panel and the agent apply to texts. A text is
-- a native string, walked by its characters. Letter case is that of ASCII, and `int` reads ASCII
-- digits.
pub mod Decimal
pub mod Split
pub mod Words
use Prim.Native.Char.{Char, code}
use Prim.Native.String
use hawal.Base.{ℕ, zero, suc, ◌-◌, String, Bool, true, false, ◌&&◌, ◌||◌, Option, none, some}
use hawal.Base.{List, [], ◌∷◌, ◌<>◌}
use hawal.Base.Eq.{◌==◌, string_eq}
use hawal.Base.Tests.{leb, eqb, if◌then◌else◌}

-- `c == "="` and the like
abbrev pub is : Char → ℕ → Bool
is c n = eqb (code c) n

-- The white space that `str.strip` and `str.split` know.
unfoldable pub is_space : Char → Bool
is_space c =
    (leb 9 (code c) && leb (code c) 13)
    || (leb 28 (code c) && leb (code c) 32)
    || is c 133
    || is c 160
    || is c 5760
    || (leb 8192 (code c) && leb (code c) 8202)
    || is c 8232
    || is c 8233
    || is c 8239
    || is c 8287
    || is c 12288

unfoldable pub lstrip : String → String
lstrip String.[] = ""
lstrip (String.◌∷◌ c s) = let rest = lstrip s in if is_space c then rest else String.◌∷◌ c s

abbrev pub is_empty : String → Bool
is_empty String.[] = true
is_empty (String.◌∷◌ c s) = false

unfoldable pub rstrip : String → String
rstrip String.[] = ""
rstrip (String.◌∷◌ c s) =
    let rest = rstrip s in if is_space c && is_empty rest then "" else String.◌∷◌ c rest

-- `s.strip()`
unfoldable pub strip : String → String
unfolding lstrip rstrip
strip s = rstrip (lstrip s)

-- `sep in s`, for one character
unfoldable pub has : ℕ → String → Bool
has sep String.[] = false
has sep (String.◌∷◌ c s) = is c sep || has sep s

-- What stands before the first `sep`: `s.split(sep)[0]`
unfoldable pub before : ℕ → String → String
before sep String.[] = ""
before sep (String.◌∷◌ c s) = let rest = before sep s in if is c sep then "" else String.◌∷◌ c rest

-- What stands behind the first `sep`: `s.split(sep, 1)[1]`, where there is one
unfoldable pub after : ℕ → String → String
after sep String.[] = ""
after sep (String.◌∷◌ c s) = let rest = after sep s in if is c sep then s else rest

-- `s.split(sep)`, in the order of the text
unfoldable pub split : ℕ → String → List String
split sep String.[] = "" ∷ []
split sep (String.◌∷◌ c s) = elim (split sep s) [
  | [] ↦ String.◌∷◌ c "" ∷ []
  | piece ∷ pieces ↦ if is c sep then "" ∷ piece ∷ pieces else String.◌∷◌ c piece ∷ pieces
]

abbrev pub last_or : String → List String → String
last_or d [] = d
last_or d (x ∷ xs) = last_or x xs

-- `s.split(sep)[-1]`
unfoldable pub last_piece : ℕ → String → String
unfolding split
last_piece sep s = last_or "" (split sep s)

-- The character at a place of a text.
abbrev pub nth : String → ℕ → Char → Char
nth String.[] i d = d
nth (String.◌∷◌ c s) zero d = c
nth (String.◌∷◌ c s) (suc i) d = nth s i d

unfoldable pub lower_char : Char → Char
lower_char c =
    if leb b'A' (code c) && leb (code c) b'Z'
    then nth "abcdefghijklmnopqrstuvwxyz" (code c - b'A') c
    else c

-- `s.lower()`
unfoldable pub lower : String → String
unfolding lower_char
lower String.[] = ""
lower (String.◌∷◌ c s) = String.◌∷◌ (lower_char c) (lower s)

-- `s.startswith(p)` and `s.endswith(p)`
unfoldable pub begins : String → String → Bool
begins String.[] s = true
begins (String.◌∷◌ c p) String.[] = false
begins (String.◌∷◌ c p) (String.◌∷◌ d s) = is c (code d) && begins p s

unfoldable pub ends : String → String → Bool
ends p String.[] = p == ""
ends p (String.◌∷◌ c s) = p == String.◌∷◌ c s || ends p s

-- `p in s`
unfoldable pub occurs : String → String → Bool
unfolding begins
occurs p String.[] = begins p ""
occurs p (String.◌∷◌ c s) = begins p (String.◌∷◌ c s) || occurs p s

-- `sep.join(parts)`
unfoldable pub join : String → List String → String
join sep [] = ""
join sep (p ∷ []) = p
join sep (p ∷ q ∷ ps) = p <> sep <> join sep (q ∷ ps)

unfoldable pub size : String → ℕ
size String.[] = 0
size (String.◌∷◌ c s) = suc (size s)

-- The walk of `s.replace(p, new)`: `skip` characters still belong to an occurrence that was
-- replaced. The pattern is not empty.
unfoldable pub replace_from : String → String → ℕ → String → String
unfolding begins size
replace_from p new skip String.[] = ""
replace_from p new (suc skip) (String.◌∷◌ c s) = replace_from p new skip s
replace_from p new zero (String.◌∷◌ c s) =
    let hit = begins p (String.◌∷◌ c s) in
    let rest = replace_from p new (if hit then size p - 1 else 0) s in
    if hit then new <> rest else String.◌∷◌ c rest

-- `s.replace(p, new)`
unfoldable pub replace : String → String → String → String
unfolding replace_from
replace p new s = replace_from p new 0 s

-- `s[:n]` and `s[n:]`
unfoldable pub take_text : ℕ → String → String
take_text zero s = ""
take_text (suc n) String.[] = ""
take_text (suc n) (String.◌∷◌ c s) = String.◌∷◌ c (take_text n s)

unfoldable pub drop_text : ℕ → String → String
drop_text zero s = s
drop_text (suc n) String.[] = ""
drop_text (suc n) (String.◌∷◌ c s) = drop_text n s

-- `s[-n:]`, for a positive `n`
unfoldable pub last_text : ℕ → String → String
unfolding size drop_text
last_text n s = drop_text (size s - n) s

-- `s.rstrip(sep)`, for one character
unfoldable pub rstrip_of : ℕ → String → String
rstrip_of sep String.[] = ""
rstrip_of sep (String.◌∷◌ c s) =
    let rest = rstrip_of sep s in if is c sep && is_empty rest then "" else String.◌∷◌ c rest
