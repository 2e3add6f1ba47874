-- ===== src/Base/Dict.antt =====
-- Python's dict with texts as keys, in the order of insertion.
use hawal.Base.Eq.{◌==◌, string_eq}
use hawal.Base.Rows.{
  find_row, upsert, delete_where, find_row-upsert, find_row-delete_where, contains-map_key,
}
use hawal.Base.Tests.{if◌then◌else◌}
use hawal.Base.Lists.{contains}
use Prim.Native.String.{String}
use mathlib.Core.Path.{◌≡◌, refl}
use mathlib.Core.Bool.{false}
use mathlib.Core.Option.{Option, none, some}
use mathlib.Core.List.{List, map}
use native.Mathlib.Omega.{arith}

module _ {V : Type 0} where
  abbrev pub key_of : String × V → String
  key_of p = p.0

  abbrev pub value_of : Option (String × V) → Option V
  value_of none = none
  value_of (some p) = some p.1

  -- `d.get(k)`
  unfoldable pub lookup : String → List (String × V) → Option V
  unfolding find_row
  lookup k d = value_of (find_row key_of k d)

  -- `d[k] = v`
  unfoldable pub put : String → V → List (String × V) → List (String × V)
  unfolding upsert
  put k v d = upsert key_of (k, v) (λ old. (old.0, v)) d

  -- `d.pop(k, None)`
  unfoldable pub pop : String → List (String × V) → List (String × V)
  unfolding delete_where
  pop k d = delete_where key_of k d

  abbrev pub keys : List (String × V) → List String
  keys d = map key_of d

  pub lookup-put :
      (k j : String) (v : V) (d : List (String × V))
      → lookup j (put k v d) ≡ (if k == j then some v else lookup j d)
  unfolding lookup put
  lookup-put k j v d =
      ground (arith, find_row-upsert key_of j (k, v) (λ old. (old.0, v)) (λ x. refl) d)

  pub lookup-pop :
      (k j : String) (d : List (String × V))
      → lookup j (pop k d) ≡ (if k == j then none else lookup j d)
  unfolding lookup pop
  lookup-pop k j d = ground (arith, find_row-delete_where key_of k j d)

  -- A key that is not listed has no value.
  pub lookup-absent :
      (k : String) (d : List (String × V)) → contains (keys d) k ≡ false → lookup k d ≡ none
  unfolding lookup
  lookup-absent k d h = ground (arith, contains-map_key key_of k d)

  -- A key that has no value is not listed.
  pub contains-keys :
      (k : String) (d : List (String × V)) → lookup k d ≡ none → contains (keys d) k ≡ false
  unfolding lookup
  contains-keys k d h = ground (arith, contains-map_key key_of k d)
