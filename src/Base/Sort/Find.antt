-- ===== src/Base/Sort/Find.antt =====
-- A table under a unique key is searched alike before and after it is ordered.
use mathlib.Core.Path.{◌≡◌, refl, ◌∙◌}
use mathlib.Core.Bool.{Bool, false, ◌||◌}
use mathlib.Core.Option.{some}
use mathlib.Core.List.{List, [], ◌∷◌, map}
use native.Mathlib.Omega.{arith}
use hawal.Base.Tests.{if◌then◌else◌, Bool-cases}
use mathlib.Core.Logic.{inl, inr}
use hawal.Base.Eq.{Eq, ◌==◌}
use hawal.Base.Lists.{contains, Distinct}
use hawal.Base.Rows.{find_row}
use hawal.Base.Sort.{insert_by, order_by}

module _ {ℓ κ} {A : Type ℓ} {K : Type κ} ⦃e : Eq K⦄ (key : A → K) (before : A → A → Bool) where
  contains-insert_by :
      (x : A) (xs : List A) (k : K)
      → contains (map key (insert_by before x xs)) k ≡ (key x == k || contains (map key xs) k)
  unfolding contains insert_by
  contains-insert_by x [] k = refl
  contains-insert_by x (y ∷ ys) k = ground (arith, contains-insert_by x ys k)

  Distinct-insert_by :
      (x : A) (xs : List A)
      → contains (map key xs) (key x) ≡ false
      → Distinct (map key xs)
      → Distinct (map key (insert_by before x xs))
  unfolding contains insert_by
  Distinct-insert_by x [] h d = (refl, tt)
  Distinct-insert_by x (y ∷ ys) h d = elim (Bool-cases (before x y)) [
    | inl o ↦ rw o (h, d)
    | inr o ↦ rw o (
      contains-insert_by x ys (key y)
          ∙ ground (arith, d.0, e.same_iff (key x) (key y), e.same_iff (key y) (key x)),
      Distinct-insert_by x ys (ground arith) d.1,
    )
  ]

  find_row-insert_by :
      (x : A) (xs : List A) (j : K)
      → contains (map key xs) (key x) ≡ false
      → find_row key j (insert_by before x xs) ≡ (if key x == j then some x else find_row key j xs)
  unfolding contains insert_by find_row
  find_row-insert_by x [] j h = refl
  find_row-insert_by x (y ∷ ys) j h = ground (
    arith,
    find_row-insert_by x ys j,
    e.same_iff (key x) j,
    e.same_iff (key y) j,
    e.same_iff (key y) (key x),
  )

  pub contains-order_by :
      (xs : List A) (k : K) → contains (map key (order_by before xs)) k ≡ contains (map key xs) k
  unfolding order_by contains
  contains-order_by [] k = refl
  contains-order_by (x ∷ xs) k =
      ground (arith, contains-order_by xs k, contains-insert_by x (order_by before xs) k)

  pub Distinct-order_by :
      (xs : List A) → Distinct (map key xs) → Distinct (map key (order_by before xs))
  unfolding order_by
  Distinct-order_by [] d = tt
  Distinct-order_by (x ∷ xs) d =
      Distinct-insert_by x (order_by before xs) (contains-order_by xs (key x) ∙ d.0)
        (Distinct-order_by xs d.1)

  pub find_row-order_by :
      (xs : List A) (j : K)
      → Distinct (map key xs)
      → find_row key j (order_by before xs) ≡ find_row key j xs
  unfolding order_by find_row
  find_row-order_by [] j d = refl
  find_row-order_by (x ∷ xs) j d = ground (
    arith,
    find_row-insert_by x (order_by before xs) j (contains-order_by xs (key x) ∙ d.0),
    find_row-order_by xs j d.1,
  )
