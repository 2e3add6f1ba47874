-- ===== src/Base/Rows.antt =====
-- Tables of rows found by a key: what the SQL statements and the Python dicts of the program
-- do to one row. Rows stay in the order of their insertion.
use mathlib.Core.Path.{◌≡◌, refl, ◌∙◌}
use mathlib.Core.Logic.{inl, inr}
use mathlib.Core.Bool.{true, false}
use mathlib.Core.Option
use mathlib.Core.Option.{Option, none, some}
use mathlib.Core.List.{List, [], ◌∷◌, ◌++◌, map, map-append}
use native.Mathlib.Omega.{arith}
use hawal.Base.Eq.{Eq, ◌==◌}
use hawal.Base.Tests.{if◌then◌else◌, Option-cases}
use hawal.Base.Lists.{contains, Distinct, Distinct-snoc}

module _ {ℓ κ} {A : Type ℓ} {K : Type κ} ⦃e : Eq K⦄ (key : A → K) where
  -- `SELECT * FROM rows WHERE key = ?`, first row
  unfoldable pub find_row : K → List A → Option A
  find_row k [] = none
  find_row k (x ∷ xs) = if key x == k then some x else find_row k xs

  -- `UPDATE rows SET … WHERE key = ?`
  unfoldable pub update_where : K → (A → A) → List A → List A
  update_where k f [] = []
  update_where k f (x ∷ xs) = (if key x == k then f x else x) ∷ update_where k f xs

  -- `DELETE FROM rows WHERE key = ?`
  unfoldable pub delete_where : K → List A → List A
  delete_where k [] = []
  delete_where k (x ∷ xs) = let rest = delete_where k xs in if key x == k then rest else x ∷ rest

  -- `INSERT … ON CONFLICT(key) DO UPDATE SET …`; `merge` is the update of the row that is there
  unfoldable pub upsert : A → (A → A) → List A → List A
  unfolding find_row update_where
  upsert row merge xs = elim (find_row (key row) xs) [
    | none ↦ xs ++ row ∷ []
    | some _ ↦ update_where (key row) merge xs
  ]

  pub find_row-key : (k : K) (xs : List A) {x : A} → find_row k xs ≡ some x → key x ≡ k
  unfolding find_row
  find_row-key k [] h = cc
  find_row-key k (y ∷ xs) {x} h = ground (arith, find_row-key k xs {x = x}, e.same_iff (key y) k)

  pub find_row-update_where :
      (k j : K) (f : A → A)
      → ((x : A) → key (f x) ≡ key x)
      → (xs : List A)
      → find_row j (update_where k f xs)
        ≡ (if k == j then Option.map f (find_row j xs) else find_row j xs)
  unfolding find_row update_where
  find_row-update_where k j f keeps [] = ground arith
  find_row-update_where k j f keeps (x ∷ xs) = ground (
    arith,
    keeps x,
    find_row-update_where k j f keeps xs,
    e.same_iff (key x) k,
    e.same_iff (key x) j,
    e.same_iff (key (f x)) j,
    e.same_iff k j,
  )

  pub find_row-delete_where :
      (k j : K) (xs : List A)
      → find_row j (delete_where k xs) ≡ (if k == j then none else find_row j xs)
  unfolding find_row delete_where
  find_row-delete_where k j [] = ground arith
  find_row-delete_where k j (x ∷ xs) = ground (
    arith,
    find_row-delete_where k j xs,
    e.same_iff (key x) k,
    e.same_iff (key x) j,
    e.same_iff k j,
  )

  pub find_row-snoc :
      (j : K) (xs : List A) (row : A)
      → find_row j (xs ++ row ∷ [])
        ≡ elim (find_row j xs) [ some x ↦ some x | none ↦ if key row == j then some row else none ]
  unfolding find_row
  find_row-snoc j [] row = refl
  find_row-snoc j (x ∷ xs) row = ground (arith, find_row-snoc j xs row)

  pub find_row-upsert :
      (j : K) (row : A) (merge : A → A)
      → ((x : A) → key (merge x) ≡ key x)
      → (xs : List A)
      → find_row j (upsert row merge xs) ≡ (
          if key row == j
          then elim (find_row j xs) [ some x ↦ some (merge x) | none ↦ some row ]
          else find_row j xs)
  unfolding upsert
  find_row-upsert j row merge keeps xs = ground (
    arith,
    find_row-snoc j xs row,
    find_row-update_where (key row) j merge keeps xs,
    e.same_iff (key row) j,
  )

  -- A row is found exactly if its key is listed.
  pub contains-map_key :
      (k : K) (xs : List A)
      → contains (map key xs) k ≡ elim (find_row k xs) [ none ↦ false | some _ ↦ true ]
  unfolding contains find_row
  contains-map_key k [] = refl
  contains-map_key k (x ∷ xs) = ground (arith, contains-map_key k xs)

  -- A column that the update leaves alone reads the same afterwards.
  pub map-update_where {μ} :
      {B : Type μ} (g : A → B) (k : K) (f : A → A)
      → ((x : A) → g (f x) ≡ g x)
      → (xs : List A) → map g (update_where k f xs) ≡ map g xs
  unfolding update_where
  map-update_where g k f keeps [] = refl
  map-update_where g k f keeps (x ∷ xs) = ground (arith, keeps x, map-update_where g k f keeps xs)

  pub contains-delete_where {μ} :
      {L : Type μ} ⦃d : Eq L⦄ (g : A → L) (k : K) (j : L) (xs : List A)
      → contains (map g xs) j ≡ false
      → contains (map g (delete_where k xs)) j ≡ false
  unfolding contains delete_where
  contains-delete_where g k j [] h = refl
  contains-delete_where g k j (x ∷ xs) h = ground (arith, contains-delete_where g k j xs)

  pub Distinct-delete_where {μ} :
      {L : Type μ} ⦃d : Eq L⦄ (g : A → L) (k : K) (xs : List A)
      → Distinct (map g xs)
      → Distinct (map g (delete_where k xs))
  unfolding delete_where
  Distinct-delete_where g k [] d = tt
  Distinct-delete_where g k (x ∷ xs) d =
      ground (arith, contains-delete_where g k (g x) xs, Distinct-delete_where g k xs d.1)

  pub Distinct-map_snoc {μ} :
      {L : Type μ} ⦃d : Eq L⦄ (g : A → L) (row : A) (xs : List A)
      → Distinct (map g xs)
      → contains (map g xs) (g row) ≡ false
      → Distinct (map g (xs ++ row ∷ []))
  Distinct-map_snoc g row xs d h = rw map-append (Distinct-snoc (map g xs) (g row) d h)

  pub upsert_absent :
      (row : A) (merge : A → A) (xs : List A)
      → find_row (key row) xs ≡ none
      → upsert row merge xs ≡ xs ++ row ∷ []
  unfolding upsert
  upsert_absent row merge xs h = ground arith

  pub upsert_present :
      (row : A) (merge : A → A) (xs : List A) {x : A}
      → find_row (key row) xs ≡ some x
      → upsert row merge xs ≡ update_where (key row) merge xs
  unfolding upsert
  upsert_present row merge xs h = ground arith

  -- The second premise is for a column that must stay unique beside the key.
  pub Distinct-upsert {μ} :
      {L : Type μ} ⦃d : Eq L⦄ (g : A → L) (row : A) (merge : A → A)
      → ((x : A) → g (merge x) ≡ g x)
      → (xs : List A)
      → (contains (map key xs) (key row) ≡ false → contains (map g xs) (g row) ≡ false)
      → Distinct (map g xs)
      → Distinct (map g (upsert row merge xs))
  Distinct-upsert g row merge keeps xs new d = elim (Option-cases (find_row (key row) xs)) [
    | inl h ↦
        rw (upsert_absent row merge xs h)
          (Distinct-map_snoc g row xs d (new (contains-map_key (key row) xs ∙ rw h)))
    | inr (x, h) ↦
        rw (upsert_present row merge xs h) (rw (map-update_where g (key row) merge keeps xs) d)
  ]
