-- ===== src/Geoip.antt =====
-- app/geoip.py: the country of an address, from the service or by its prefix, behind a cache that
-- lives as long as the panel. Letter case is that of ASCII.
pub mod Laws
use mathlib.Core.Option
use Prim.Native.Char.{Char, code}
use hawal.Base.{◌-◌, String, Bool, true, false, ◌&&◌, ◌||◌, Option, none, some, List, [], ◌∷◌}
use hawal.Base.Tests.{leb, if◌then◌else◌}
use hawal.Base.Eq.{◌==◌, string_eq}
use hawal.Base.Lists.{contains}
use hawal.Base.Rows.{find_row, upsert}
use hawal.Text.{nth, begins}
use hawal.Db.Nodes.{Geo}

abbrev pub country_flags : List (String × String)
country_flags =
    ("IR", "🇮🇷")
    ∷ ("DE", "🇩🇪")
    ∷ ("NL", "🇳🇱")
    ∷ ("FI", "🇫🇮")
    ∷ ("FR", "🇫🇷")
    ∷ ("US", "🇺🇸")
    ∷ ("GB", "🇬🇧")
    ∷ ("TR", "🇹🇷")
    ∷ ("AE", "🇦🇪")
    ∷ ("SG", "🇸🇬")
    ∷ ("CA", "🇨🇦")
    ∷ ("SE", "🇸🇪")
    ∷ ("CH", "🇨🇭")
    ∷ ("RU", "🇷🇺")
    ∷ ("IT", "🇮🇹")
    ∷ ("ES", "🇪🇸")
    ∷ ("PL", "🇵🇱")
    ∷ ("AT", "🇦🇹")
    ∷ []

abbrev pub country_names_fa : List (String × String)
country_names_fa =
    ("IR", "\u{627}\u{6cc}\u{631}\u{627}\u{646}")
    ∷ ("DE", "\u{622}\u{644}\u{645}\u{627}\u{646}")
    ∷ ("NL", "\u{647}\u{644}\u{646}\u{62f}")
    ∷ ("FI", "\u{641}\u{646}\u{644}\u{627}\u{646}\u{62f}")
    ∷ ("FR", "\u{641}\u{631}\u{627}\u{646}\u{633}\u{647}")
    ∷ ("US", "\u{622}\u{645}\u{631}\u{6cc}\u{6a9}\u{627}")
    ∷ ("GB", "\u{627}\u{646}\u{6af}\u{644}\u{633}\u{62a}\u{627}\u{646}")
    ∷ ("TR", "\u{62a}\u{631}\u{6a9}\u{6cc}\u{647}")
    ∷ ("AE", "\u{627}\u{645}\u{627}\u{631}\u{627}\u{62a}")
    ∷ ("SG", "\u{633}\u{646}\u{6af}\u{627}\u{67e}\u{648}\u{631}")
    ∷ ("CA", "\u{6a9}\u{627}\u{646}\u{627}\u{62f}\u{627}")
    ∷ ("SE", "\u{633}\u{648}\u{626}\u{62f}")
    ∷ ("CH", "\u{633}\u{648}\u{626}\u{6cc}\u{633}")
    ∷ ("RU", "\u{631}\u{648}\u{633}\u{6cc}\u{647}")
    ∷ ("IT", "\u{627}\u{6cc}\u{62a}\u{627}\u{644}\u{6cc}\u{627}")
    ∷ ("ES", "\u{627}\u{633}\u{67e}\u{627}\u{646}\u{6cc}\u{627}")
    ∷ ("PL", "\u{644}\u{647}\u{633}\u{62a}\u{627}\u{646}")
    ∷ ("AT", "\u{627}\u{62a}\u{631}\u{6cc}\u{634}")
    ∷ []

abbrev pub globe : String
globe = "🌐"

abbrev pub abroad : String
abroad = "\u{62e}\u{627}\u{631}\u{62c}"

abbrev pub iran : String
iran = "\u{627}\u{6cc}\u{631}\u{627}\u{646}"

abbrev pub first_of {ℓ} : {A : Type ℓ} → String × A → String
first_of p = p.0

abbrev pub second_of {ℓ} : {A : Type ℓ} → Option (String × A) → A → A
second_of none d = d
second_of (some p) d = p.1

-- `table.get(key, default)`
pub get_or_default : List (String × String) → String → String → String
unfolding find_row
get_or_default table key d = second_of (find_row first_of key table) d

upper_char : Char → Char
upper_char c =
    if leb b'a' (code c) && leb (code c) b'z'
    then nth "ABCDEFGHIJKLMNOPQRSTUVWXYZ" (code c - b'a') c
    else c

unfoldable pub upper : String → String
unfolding upper_char
upper String.[] = ""
upper (String.◌∷◌ c s) = String.◌∷◌ (upper_char c) (upper s)

unfoldable pub get_country_flag : String → String
unfolding get_or_default upper
get_country_flag country_code =
    if country_code == "" then globe else get_or_default country_flags (upper country_code) globe

-- What the service answers. Its absence stands for any failure of the request.
pub record Answer : Type 0 where
  pub status : String
  pub country : Option String
  pub country_code : Option String
  pub city : Option String

abbrev pub or_text : Option String → String → String
or_text none d = d
or_text (some s) d = s

unfoldable pub local_geo : Geo
local_geo = record {
  country_code = "LOCAL";
  country_name =
      "\u{644}\u{648}\u{6a9}\u{627}\u{644} / \u{622}\u{632}\u{645}\u{627}\u{6cc}\u{634}\u{6cc}";
  flag = "💻";
  city = "Localhost";
}

unfoldable pub by_prefix : String → Geo
unfolding begins
by_prefix ip =
    if begins "5.202." ip || begins "185." ip || begins "91.98." ip || begins "94.182." ip
    then record {
      country_code = "IR";
      country_name = iran;
      flag = "🇮🇷";
      city = "\u{62a}\u{647}\u{631}\u{627}\u{646}";
    }
    else record { country_code = "GLOBAL"; country_name = abroad; flag = globe; city = "" }

unfoldable pub from_answer : Answer → Geo
unfolding get_country_flag get_or_default upper
from_answer a =
    let cc = upper (or_text a.country_code "") in
    record {
      country_code = cc;
      country_name = get_or_default country_names_fa cc (or_text a.country abroad);
      flag = get_country_flag cc;
      city = or_text a.city "";
    }

unfoldable pub is_local : String → Bool
unfolding contains
is_local ip = ip == "" || contains ("127.0.0.1" ∷ "localhost" ∷ "0.0.0.0" ∷ []) ip

-- `GEOIP_CACHE`
abbrev pub Cache : Type 0
Cache = List (String × Geo)

unfoldable pub put_cache : String → Geo → Cache → Cache
unfolding upsert
put_cache ip geo cache = upsert first_of (ip, geo) (λ old. (old.0, geo)) cache

abbrev pub fresh_geo : Option Answer → String → Geo
unfolding by_prefix from_answer
fresh_geo none ip = by_prefix ip
fresh_geo (some a) ip = if a.status == "success" then from_answer a else by_prefix ip

module _ (service : String → Option Answer) where
  -- A hit in the cache makes no request.
  unfoldable pub resolve_geoip : String → Cache → Geo × Cache
  resolve_geoip ip cache =
      if is_local ip then (local_geo, cache) else elim (find_row first_of ip cache) [
        | some hit ↦ (hit.1, cache)
        | none ↦ let res = fresh_geo (service ip) ip in (res, put_cache ip res cache)
      ]
