-- ===== src/Server/Nodes/Laws.antt =====
-- What a new node's location does to the locations that are shown later.
use mathlib.Core.Option
use mathlib.Core.Path.{subst}
use hawal.Base.{String, ◌≡◌, refl, ◌∙◌, arith, false, Option, some, List, [], ◌∷◌, inl, inr}
use hawal.Base.Tests.{Bool-cases, Option-cases}
use hawal.Base.Eq.{◌==◌, string_eq, same_refl}
use hawal.Base.Rows.{find_row}
use hawal.Db.Nodes.{Geo}
use hawal.Geoip.{Answer, Cache, is_local, put_cache, resolve_geoip, first_of, fresh_geo}
use hawal.Geoip.Laws.{find_row-put_cache}
use hawal.Server.{World}
use hawal.Server.Nodes.{as_iran, locate}

-- Flag, name and code of Iran.
abbrev pub IsIranian : Geo → Type 0
IsIranian g =
    (g.flag ≡ "🇮🇷")
    × (g.country_name ≡ "\u{627}\u{6cc}\u{631}\u{627}\u{646}")
    × (g.country_code ≡ "IR")

abbrev pub held : String → Cache → Option Geo
held ip cache = Option.map (λ (p : String × Geo). p.1) (find_row first_of ip cache)

abbrev pub HasIran : String → Cache → Type 0
HasIran ip cache = (g : Geo) × (held ip cache ≡ some g) × IsIranian g

as_iran-IsIranian : (g : Geo) → IsIranian (as_iran g)
as_iran-IsIranian g = (refl, refl, refl)

HasIran-put : (ip : String) (g : Geo) (cache : Cache) → HasIran ip (put_cache ip (as_iran g) cache)
HasIran-put ip g cache = (
  as_iran g,
  find_row-put_cache ip ip (as_iran g) cache ∙ rw (same_refl ip) refl,
  as_iran-IsIranian g,
)

HasIran-put_other :
    (ip j : String) (g : Geo) (cache : Cache)
    → (j == ip) ≡ false
    → HasIran ip cache
    → HasIran ip (put_cache j g cache)
HasIran-put_other ip j g cache ne (x, e, i) = (x, find_row-put_cache j ip g cache ∙ rw ne e, i)

HasIran-relabel :
    (ip j : String) (g : Geo) (cache : Cache)
    → HasIran ip cache
    → HasIran ip (put_cache j (as_iran g) cache)
HasIran-relabel ip j g cache h = elim (Bool-cases (j == ip)) [
  | inl e ↦ (as_iran g, find_row-put_cache j ip (as_iran g) cache ∙ rw e refl, as_iran-IsIranian g)
  | inr e ↦ HasIran-put_other ip j (as_iran g) cache e h
]

HasIran-resolve :
    (service : String → Option Answer) (ip j : String) (cache : Cache)
    → HasIran ip cache
    → HasIran ip (resolve_geoip service j cache).1
unfolding resolve_geoip
HasIran-resolve service ip j cache h = elim (Bool-cases (is_local j)) [
  | inl l ↦ rw l h
  | inr l ↦ elim (Option-cases (find_row first_of j cache)) [
    | inl e ↦
        let (g, k, i) = h in
        let ne : (j == ip) ≡ false = ground (arith, e, k, string_eq.same_iff j ip) in
        rw (l, e, resolve_geoip) (HasIran-put_other ip j (fresh_geo (service j) j) cache ne h)
    | inr (p, e) ↦ rw (l, e, resolve_geoip) h
  ]
]

HasIran-locate :
    (service : String → Option Answer) (ip j role : String) (w : World)
    → HasIran ip w.cache
    → HasIran ip (locate service j role w).1.cache
unfolding locate
HasIran-locate service ip j role w h =
    let (geo, cache) = resolve_geoip service j w.cache in
    let h' = HasIran-resolve service ip j w.cache h in
    elim (Bool-cases (role == "iran")) [
      | inr e ↦ rw e h'
      | inl e ↦ elim (Bool-cases (is_local j)) [
        | inl l ↦ rw (e, l) h'
        | inr l ↦ rw (e, l) (HasIran-relabel ip j geo cache h')
      ]
    ]

-- A node that is created later: what the service answers then, and its address and role.
pub record Later : Type 0 where
  pub service : String → Option Answer
  pub ip : String
  pub role : String

abbrev pub located_all : List Later → World → World
located_all [] w = w
located_all (l ∷ ls) w = let (r, w') = locate l.service l.ip l.role w in located_all ls w'

HasIran-located_all :
    (ip : String) (ls : List Later) (w : World)
    → HasIran ip w.cache
    → HasIran ip (located_all ls w).cache
HasIran-located_all ip [] w h = h
HasIran-located_all ip (l ∷ ls) w h =
    HasIran-located_all ip ls (locate l.service l.ip l.role w).1
      (HasIran-locate l.service ip l.ip l.role w h)

IsIranian-resolve :
    (service : String → Option Answer) (ip : String) (cache : Cache)
    → is_local ip ≡ false
    → HasIran ip cache
    → IsIranian (resolve_geoip service ip cache).0
unfolding resolve_geoip
IsIranian-resolve service ip cache out (g, k, i) =
    elim (Option-cases (find_row first_of ip cache)) [
      | inl e ↦ absurd (ground (arith, e, k))
      | inr (p, e) ↦
          let same : g ≡ p.1 = ground (arith, e, k) in
          rw (out, e, resolve_geoip) (subst IsIranian same i)
    ]

-- The label is written to the dict that the cache holds: after an address that is not local has
-- been located for a node in Iran, and whatever nodes are located after it, a look-up of that address
-- gives the flag, the name and the code of Iran, whatever the service answers.
pub locate_relabels :
    (service other : String → Option Answer) (ip : String) (ls : List Later) (w : World)
    → is_local ip ≡ false
    → IsIranian (resolve_geoip other ip (located_all ls (locate service ip "iran" w).1).cache).0
unfolding locate
locate_relabels service other ip ls w out = IsIranian-resolve other ip _ out (
    HasIran-located_all ip ls _ (
      rw out
        (HasIran-put ip (resolve_geoip service ip w.cache).0 (resolve_geoip service ip w.cache).1)))
