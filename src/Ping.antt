-- ===== src/Ping.antt =====
-- `run_ping` of app/ping_tool.py: what the panel reads from the output of ping. A float stands for
-- the decimals that it was read from; digits are those of ASCII.
pub mod Loss
use Prim.Native.Char.{Char, code}
use Prim.Native.String
use hawal.Base.{
  ℕ, zero, suc, ◌+◌, ◌-◌, ◌*◌, String, ◌<>◌, Bool, true, false, not, ◌&&◌, ◌||◌, Option, none, some,
  List,
}
use hawal.Base.Tests.{leb, if◌then◌else◌}
use hawal.Base.Fixed.{Fixed, below}
use hawal.Text.{is, is_space, is_empty}

-- How the run of ping ends: with an exception and its text, or with "the return code is 0" and the
-- output.
pub data Ran : Type 0 where
  raised : String → Ran
  exited : Bool → String → Ran

-- The last key of the result, `"raw"` or `"error"`.
pub data Said : Type 0 where
  raw error : String → Said

pub record PingResult : Type 0 where
  pub success : Bool
  pub target : Option String
  pub min_ms : Fixed
  pub avg_ms : Fixed
  pub max_ms : Fixed
  pub packet_loss : Fixed
  pub said : Said

abbrev pub whole : ℕ → Fixed
whole n = record { digits = n; places = 0 }

infixl 5 ◌>>=◌
abbrev pub ◌>>=◌ {ℓ κ} : {A : Type ℓ} {B : Type κ} → Option A → (A → Option B) → Option B
none >>= k = none
some a >>= k = k a

-- `[0-9]`
abbrev pub is_digit : Char → Bool
is_digit c = leb b'0' (code c) && leb (code c) b'9'

abbrev pub dot : ℕ
dot = b'.'

-- The longest part in front whose characters are of a kind, and what is behind it.
unfoldable pub span : (Char → Bool) → String → String × String
span kind String.[] = ("", "")
span kind (String.◌∷◌ c s) =
    let (front, back) = span kind s in
    if kind c then (String.◌∷◌ c front, back) else ("", String.◌∷◌ c s)

-- The part, which must not be empty.
abbrev pub some_of : String × String → Option (String × String)
some_of (front, back) = if is_empty front then none else some (front, back)

unfoldable pub skip : String → String → Option String
skip String.[] s = some s
skip (String.◌∷◌ c p) String.[] = none
skip (String.◌∷◌ c p) (String.◌∷◌ d s) = let rest = skip p s in if is c (code d) then rest else none

-- `float(s)` of digits and dots; none is a `ValueError`.
unfoldable pub fixed_from : String → ℕ → ℕ → Bool → Bool → Option Fixed
fixed_from String.[] n places dotted seen =
    if seen then some (record { digits = n; places = places }) else none
fixed_from (String.◌∷◌ c s) n places dotted seen =
    let at_dot = is c dot in
    let rest =
      fixed_from s (if at_dot then n else n * 10 + (code c - b'0'))
        (if dotted && not at_dot then places + 1 else places) (dotted || at_dot)
        (seen || not at_dot) in
    if at_dot && dotted then none else rest

unfoldable pub fixed_of : String → Option Fixed
unfolding fixed_from
fixed_of s = fixed_from s 0 0 false false

abbrev pub after_dot : String → String → Option (String × String) → String × String
after_dot front back none = (front, back)
after_dot front back (some (decimals, rest)) = (front <> "." <> decimals, rest)

-- `(?:\.\d+)?`, with what was read before it.
abbrev pub fraction : String → String → Option String → String × String
fraction front back none = (front, back)
fraction front back (some s) = after_dot front back (some_of (span is_digit s))

-- `%\s+packet\s+loss`
unfoldable pub percent : String → Option String
unfolding skip span is_space
percent s = do
  s₁ ← skip "%" s
  (gap, s₂) ← some_of (span is_space s₁)
  s₃ ← skip "packet" s₂
  (gap', s₄) ← some_of (span is_space s₃)
  skip "loss" s₄

-- The group of the first pattern, where it matches at the front.
unfoldable pub loss_at : String → Option String
unfolding span skip percent
loss_at s = do
  (front, back) ← some_of (span is_digit s)
  let (number, rest) = fraction front back (skip "." back)
  end ← percent rest
  some number

-- `([\d\.]+)`
abbrev pub figure : String → Option (String × String)
unfolding span
figure s = some_of (span (λ c. is_digit c || is c dot) s)

-- The first three groups of the second pattern, where it matches at the front.
unfoldable pub rtt_at : String → Option (String × String × String)
unfolding skip span is_space
rtt_at s = do
  s₁ ← skip "rtt" s
  (gap, s₂) ← some_of (span is_space s₁)
  s₃ ← skip "min/avg/max/mdev" s₂
  s₄ ← skip "=" (span is_space s₃).1
  (min_ms, s₅) ← figure (span is_space s₄).1
  (avg_ms, s₆) ← skip "/" s₅ >>= figure
  (max_ms, s₇) ← skip "/" s₆ >>= figure
  (mdev, s₈) ← skip "/" s₇ >>= figure
  some (min_ms, avg_ms, max_ms)

-- `re.search`
unfoldable pub search {ℓ} : {A : Type ℓ} → (String → Option A) → String → Option A
search match_at String.[] = match_at ""
search match_at (String.◌∷◌ c s) =
    let later = search match_at s in
    elim (match_at (String.◌∷◌ c s)) [ none ↦ later | some x ↦ some x ]

abbrev pub failed : Option String → String → PingResult
failed target text = record {
  success = false;
  target = target;
  min_ms = whole 0;
  avg_ms = whole 0;
  max_ms = whole 0;
  packet_loss = whole 100;
  said = Said.error text;
}

-- The text of the `ValueError` of `float(s)`.
abbrev pub no_float : String → String
no_float s = "could not convert string to float: '" <> s <> "'"

-- The three `float(…)` of the second pattern, with what the first that raises says.
abbrev pub read_rtt :
    Option String → Option (String × String × String) → Bool → Fixed → String → PingResult
read_rtt target none ok loss output = record {
  success = ok || below loss 100;
  target = target;
  min_ms = whole 0;
  avg_ms = whole 0;
  max_ms = whole 0;
  packet_loss = loss;
  said = Said.raw output;
}
read_rtt target (some (lowest, mean, highest)) ok loss output =
    with_min (fixed_of lowest) (fixed_of mean) (fixed_of highest)
  where
    with_min : Option Fixed → Option Fixed → Option Fixed → PingResult
    with_min none mean' highest' = failed target (no_float lowest)
    with_min (some a) none highest' = failed target (no_float mean)
    with_min (some a) (some b) none = failed target (no_float highest)
    with_min (some a) (some b) (some c) = record {
      success = ok || below loss 100;
      target = target;
      min_ms = a;
      avg_ms = b;
      max_ms = c;
      packet_loss = loss;
      said = Said.raw output;
    }

abbrev pub or_all : Option Fixed → Fixed
or_all none = whole 100
or_all (some x) = x

-- `packet_loss`; the first pattern only finds what `float` reads.
abbrev pub loss_in : Option String → Fixed
loss_in none = whole 100
loss_in (some s) = or_all (fixed_of s)

-- `run_ping`
unfoldable pub run_ping : Option String → Ran → PingResult
unfolding search loss_at rtt_at fixed_of
run_ping target (raised text) = failed target text
run_ping target (exited ok output) =
    read_rtt target (search rtt_at output) ok (loss_in (search loss_at output)) output
