-- ===== src/Geoip/Laws.antt =====
-- What the cache of addresses guarantees.
use mathlib.Core.Option
use hawal.Base.{String, ◌≡◌, refl, arith, Option, some, inl, inr}
use hawal.Base.Tests.{if◌then◌else◌, Option-cases, Bool-cases}
use hawal.Base.Eq.{◌==◌, string_eq}
use hawal.Base.Rows.{find_row, find_row-upsert}
use hawal.Db.Nodes.{Geo}
use hawal.Geoip.{Answer, Cache, first_of, is_local, put_cache, fresh_geo, resolve_geoip}

pub find_row-put_cache :
    (ip j : String) (geo : Geo) (cache : Cache)
    → Option.map (λ (p : String × Geo). p.1) (find_row first_of j (put_cache ip geo cache)) ≡ (
        if ip == j
        then some geo
        else Option.map (λ (p : String × Geo). p.1) (find_row first_of j cache))
unfolding put_cache
find_row-put_cache ip j geo cache =
    ground (arith, find_row-upsert first_of j (ip, geo) (λ old. (old.0, geo)) (λ x. refl) cache)

module _ (service other : String → Option Answer) where
  -- Once an address has been looked up, the panel answers it from the cache: the same location, no
  -- request to the service (which may have changed), and an unchanged cache.
  pub resolve_geoip_again :
      (ip : String) (cache : Cache)
      → let (geo, cache') = resolve_geoip service ip cache in
        resolve_geoip other ip cache' ≡ (geo, cache')
  unfolding resolve_geoip
  resolve_geoip_again ip cache = elim (Bool-cases (is_local ip)) [
    | inl e ↦ ground arith
    | inr e ↦ elim (Option-cases (find_row first_of ip cache)) [
      | inl h ↦ ground (
        arith,
        find_row-put_cache ip ip (fresh_geo (service ip) ip) cache,
        string_eq.same_iff ip ip,
      )
      | inr (p, h) ↦ ground arith
    ]
  ]
