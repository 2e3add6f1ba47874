-- ===== src/Engine/Gost/Quote.antt =====
-- `urllib.parse.quote(text, safe="")`: unreserved characters stay, the others are written as the
-- percent codes of their UTF-8 bytes.
use Prim.Native.Char.{Char, code}
use hawal.Base.{ℕ, ◌+◌, ◌/◌, ◌%◌, String, ◌<>◌, Bool, ◌&&◌, ◌||◌, List, [], ◌∷◌}
use hawal.Base.Tests.{leb, ltb, if◌then◌else◌}
use hawal.Text.{is, nth}

unreserved : Char → Bool
unreserved c =
    (leb b'a' (code c) && leb (code c) b'z')
    || (leb b'A' (code c) && leb (code c) b'Z')
    || (leb b'0' (code c) && leb (code c) b'9')
    || is c b'_'
    || is c b'.'
    || is c b'-'
    || is c b'~'

utf8 : ℕ → List ℕ
utf8 n =
    if ltb n 128
    then n ∷ []
    else if ltb n 2048
    then (192 + n / 64) ∷ (128 + n % 64) ∷ []
    else if ltb n 65536
    then (224 + n / 4096) ∷ (128 + n / 64 % 64) ∷ (128 + n % 64) ∷ []
    else (240 + n / 262144) ∷ (128 + n / 4096 % 64) ∷ (128 + n / 64 % 64) ∷ (128 + n % 64) ∷ []

hex : ℕ → Char
hex n = nth "0123456789ABCDEF" n "0"

percent : List ℕ → String
percent [] = ""
percent (b ∷ bs) =
    String.◌∷◌ "%" (String.◌∷◌ (hex (b / 16)) (String.◌∷◌ (hex (b % 16)) (percent bs)))

unfoldable pub quote : String → String
unfolding unreserved utf8 hex percent
quote String.[] = ""
quote (String.◌∷◌ c s) =
    if unreserved c then String.◌∷◌ c (quote s) else percent (utf8 (code c)) <> quote s
