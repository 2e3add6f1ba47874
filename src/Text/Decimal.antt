-- ===== src/Text/Decimal.antt =====
-- `str(n)` and `int(s)`, and that the second reads what the first writes.
use Prim.Native.Char.{Char, code}
use mathlib.Core.Option
use mathlib.Core.Option.{none-ne-some}
use hawal.Base.{ℕ, zero, suc, ◌+◌, ◌-◌, ◌*◌, ◌/◌, ◌%◌, ◌<◌, ◌≡◌, refl, ◌∙◌, ap, sym, ◌≢◌, arith}
use hawal.Base.{String, Bool, true, false, ◌&&◌, ◌||◌, Option, none, some}
use hawal.Base.Tests.{leb, ltb, if◌then◌else◌}
use hawal.Base.Int.{ℤ, pos, negsuc, sub_ℕ}
use hawal.Text.{is, is_space, lstrip, rstrip, strip, nth}

digit : ℕ → Char
digit d = nth "0123456789" d "0"

-- The digits of `n` before `out`. A round takes one digit off; fuel above `n` is enough.
digits : ℕ → ℕ → String → String
digits zero n out = out
digits (suc fuel) n out =
    let more = digits fuel (n / 10) (String.◌∷◌ (digit (n % 10)) out) in
    if ltb n 10 then String.◌∷◌ (digit n) out else more

unfoldable pub show_nat : ℕ → String
unfolding digits digit
show_nat n = digits (suc n) n ""

-- `str(n)`
unfoldable pub show_int : ℤ → String
unfolding show_nat
show_int (pos n) = show_nat n
show_int (negsuc n) = String.◌∷◌ "-" (show_nat (suc n))

is_digit : Char → Bool
is_digit c = leb b'0' (code c) && leb (code c) b'9'

-- Digits with single underscores between them; `seen` says that the last character was a digit.
scan : String → Bool → ℕ → Option ℕ
unfolding is_digit
scan String.[] seen n = if seen then some n else none
scan (String.◌∷◌ c s) seen n =
    let next = scan s (is_digit c) (if is_digit c then n * 10 + (code c - b'0') else n) in
    if is_digit c || (is c b'_' && seen) then next else none

signed : String → Option ℤ
unfolding scan
signed String.[] = none
signed (String.◌∷◌ c s) =
    if is c b'-'
    then Option.map (λ n. sub_ℕ 0 n) (scan s false 0)
    else if is c b'+'
    then Option.map pos (scan s false 0)
    else Option.map pos (scan (String.◌∷◌ c s) false 0)

-- `int(s)`; `none` is a `ValueError`
unfoldable pub parse_int : String → Option ℤ
unfolding signed strip
parse_int s = signed (strip s)

code-digit : (d : ℕ) → d < 10 → code (digit d) ≡ b'0' + d
unfolding digit
code-digit zero h = refl
code-digit (suc zero) h = refl
code-digit (suc (suc zero)) h = refl
code-digit (suc (suc (suc zero))) h = refl
code-digit (suc (suc (suc (suc zero)))) h = refl
code-digit (suc (suc (suc (suc (suc zero))))) h = refl
code-digit (suc (suc (suc (suc (suc (suc zero)))))) h = refl
code-digit (suc (suc (suc (suc (suc (suc (suc zero))))))) h = refl
code-digit (suc (suc (suc (suc (suc (suc (suc (suc zero)))))))) h = refl
code-digit (suc (suc (suc (suc (suc (suc (suc (suc (suc zero))))))))) h = refl
code-digit (suc (suc (suc (suc (suc (suc (suc (suc (suc (suc d)))))))))) h = absurd (omega arith)

-- A text is written behind digits only.
scan-digit :
    (d n : ℕ) (out : String) (seen : Bool)
    → d < 10
    → scan (String.◌∷◌ (digit d) out) seen n ≡ scan out true (n * 10 + d)
unfolding scan
scan-digit d n out seen h = ground (arith, code-digit d)

scan-digits :
    (fuel n : ℕ) (out : String) (seen : Bool)
    → n < fuel
    → scan (digits fuel n out) seen 0 ≡ scan out true n
unfolding digits
scan-digits zero n out seen h = absurd (omega arith)
scan-digits (suc fuel) n out seen h = ground (
  arith,
  scan-digit n 0 out seen,
  scan-digits fuel (n / 10) (String.◌∷◌ (digit (n % 10)) out) seen,
  scan-digit (n % 10) (n / 10) out true,
)

-- The printed digits begin with a digit and hold no white space.
plain : String → Bool
plain String.[] = true
plain (String.◌∷◌ c s) = (is_digit c || is c b'-') && plain s

plain-digits : (fuel n : ℕ) (out : String) → plain out ≡ true → plain (digits fuel n out) ≡ true
unfolding digits plain is_digit
plain-digits zero n out h = h
plain-digits (suc fuel) n out h = ground (
  arith,
  code-digit n,
  code-digit (n % 10),
  plain-digits fuel (n / 10) (String.◌∷◌ (digit (n % 10)) out),
)

rstrip-plain : (s : String) → plain s ≡ true → rstrip s ≡ s
unfolding rstrip plain is_digit is_space
rstrip-plain String.[] h = refl
rstrip-plain (String.◌∷◌ c s) h = ground (arith, rstrip-plain s)

lstrip-plain : (s : String) → plain s ≡ true → lstrip s ≡ s
unfolding lstrip plain is_digit is_space
lstrip-plain String.[] h = refl
lstrip-plain (String.◌∷◌ c s) h = ground arith

strip-plain : (s : String) → plain s ≡ true → strip s ≡ s
unfolding strip
strip-plain s h = ap rstrip (lstrip-plain s h) ∙ rstrip-plain s h

head_digit : String → Bool
head_digit String.[] = false
head_digit (String.◌∷◌ c s) = is_digit c

head_digit-digits : (fuel n : ℕ) (out : String) → n < fuel → head_digit (digits fuel n out) ≡ true
unfolding digits head_digit is_digit
head_digit-digits zero n out h = absurd (omega arith)
head_digit-digits (suc fuel) n out h =
    ground (arith, code-digit n, head_digit-digits fuel (n / 10) (String.◌∷◌ (digit (n % 10)) out))

signed_unsigned : (s : String) → head_digit s ≡ true → signed s ≡ Option.map pos (scan s false 0)
unfolding signed head_digit is_digit
signed_unsigned String.[] h = cc
signed_unsigned (String.◌∷◌ c s) h = ground arith

scan-show_nat : (n : ℕ) → scan (show_nat n) false 0 ≡ some n
unfolding show_nat scan
scan-show_nat n = scan-digits (suc n) n "" false (omega arith)

plain-show_nat : (n : ℕ) → plain (show_nat n) ≡ true
unfolding show_nat plain
plain-show_nat n = plain-digits (suc n) n "" refl

head_digit-show_nat : (n : ℕ) → head_digit (show_nat n) ≡ true
unfolding show_nat
head_digit-show_nat n = head_digit-digits (suc n) n "" (omega arith)

plain-show_int : (n : ℤ) → plain (show_int n) ≡ true
unfolding show_int plain is_digit
plain-show_int (pos n) = plain-show_nat n
plain-show_int (negsuc n) = rw plain-show_nat

signed-show_int : (n : ℤ) → signed (show_int n) ≡ some n
unfolding show_int signed
signed-show_int (pos n) = signed_unsigned (show_nat n) (head_digit-show_nat n) ∙ rw scan-show_nat
signed-show_int (negsuc n) = rw scan-show_nat (ground arith)

-- `s.strip()` of a printed integer is that text.
pub strip-show_int : (n : ℤ) → strip (show_int n) ≡ show_int n
strip-show_int n = strip-plain (show_int n) (plain-show_int n)

-- `int(str(n))` is `n`.
pub parse_int-show_int : (n : ℤ) → parse_int (show_int n) ≡ some n
unfolding parse_int
parse_int-show_int n = ap signed (strip-show_int n) ∙ signed-show_int n

-- A printed integer is not the empty text.
pub show_int-ne-empty : (n : ℤ) → show_int n ≢ ""
unfolding signed
show_int-ne-empty n e = none-ne-some n (ap signed (sym e) ∙ signed-show_int n)
