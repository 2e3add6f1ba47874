-- ===== src/Db/Logs/Laws.antt =====
-- What the log snapshots hold after a save, a query and a deletion.

use hawal.Base.{inl, inr, ℕ, zero, suc, ◌+◌, ◌-◌, ◌≤◌, ◌≡◌, refl, ◌∙◌, arith}
use hawal.Base.{
  String, Bool, true, false, not, ◌&&◌, ◌||◌, Option, none, some, List, [], ◌∷◌, ◌++◌, map,
}
use hawal.Base.Tests.{if◌then◌else◌, Bool-cases, Option-cases}
use hawal.Base.Eq.{Key2, ◌==◌, key2_eq, key2_same_iff, string_eq}
use hawal.Base.Lists.{length, All, contains, Distinct}
use hawal.Base.Rows.{find_row, update_where, upsert, Distinct-upsert, find_row-upsert, find_row-key}
use hawal.Base.Sort.{order_by}
use hawal.Text.{size, drop_text, last_text}
use hawal.Db.{Snapshot, snapshot_key, Db}
use hawal.Db.Logs.{
  max_content, new_snapshot, merge_snapshot, save_snapshot, save_log_snapshots, passes, selected,
  keep, get_log_snapshots, delete_log_snapshots,
}

size-drop_text : (n : ℕ) (s : String) → size (drop_text n s) ≡ size s - n
unfolding size drop_text
size-drop_text zero s = omega arith
size-drop_text (suc n) String.[] = omega arith
size-drop_text (suc n) (String.◌∷◌ c s) = omega (arith, size-drop_text n s)

pub size-last_text : (n : ℕ) (s : String) → size (last_text n s) ≤ n
unfolding last_text
size-last_text n s = omega (arith, size-drop_text (size s - n) s)

-- A text that is no longer than the limit is stored as it is.
pub last_text_short : (n : ℕ) (s : String) → size s ≤ n → last_text n s ≡ s
unfolding last_text drop_text
last_text_short n s h = let e : size s - n ≡ 0 = omega arith in rw e

abbrev pub IsShort : Snapshot → Type 0
IsShort s = size s.content ≤ max_content

All-snoc :
    (row : Snapshot) (xs : List Snapshot)
    → All IsShort xs
    → IsShort row
    → All IsShort (xs ++ row ∷ [])
All-snoc row [] h k = (k, tt)
All-snoc row (x ∷ xs) h k = (h.0, All-snoc row xs h.1 k)

All-update :
    (k : Key2) (row : Snapshot) (xs : List Snapshot)
    → All IsShort xs
    → IsShort row
    → All IsShort (update_where snapshot_key k (merge_snapshot row) xs)
unfolding update_where
All-update k row [] h s = tt
All-update k row (x ∷ xs) h s = (ground (arith, h.0, s), All-update k row xs h.1 s)

pub save_snapshot-IsShort :
    (node_id source content : String) (now : ℕ) (db : Db)
    → All IsShort db.log_snapshots
    → All IsShort (save_snapshot node_id source content now db).log_snapshots
unfolding save_snapshot upsert
save_snapshot-IsShort node_id source content now db h =
    let row = new_snapshot node_id source content now in
    ground (
      arith,
      All-snoc row db.log_snapshots h (size-last_text max_content content),
      All-update (snapshot_key row) row db.log_snapshots h (size-last_text max_content content),
    )

pub save_snapshot-Distinct :
    (node_id source content : String) (now : ℕ) (db : Db)
    → Distinct (map snapshot_key db.log_snapshots)
    → Distinct (map snapshot_key (save_snapshot node_id source content now db).log_snapshots)
unfolding save_snapshot
save_snapshot-Distinct node_id source content now db d =
    let row = new_snapshot node_id source content now in
    Distinct-upsert snapshot_key snapshot_key row (merge_snapshot row) (λ x. refl) db.log_snapshots
      (λ h. h) d

module _ {ℓ} {A : Type ℓ} (p : A → Bool) where
  pub keep_none : (xs : List A) → keep p (keep (λ x. not (p x)) xs) ≡ []
  unfolding keep
  keep_none [] = refl
  keep_none (x ∷ xs) = ground (arith, keep_none xs)

  pub length-keep :
      (xs : List A) → length (keep p xs) + length (keep (λ x. not (p x)) xs) ≡ length xs
  unfolding keep
  length-keep [] = omega arith
  length-keep (x ∷ xs) = ground (arith, length-keep xs)

  pub keep-keep :
      (q : A → Bool) (xs : List A)
      → ((x : A) → p x ≡ true → q x ≡ true)
      → keep p (keep q xs) ≡ keep p xs
  unfolding keep
  keep-keep q [] h = refl
  keep-keep q (x ∷ xs) h = ground (arith, keep-keep q xs h, h x)

  pub All-keep {κ} : (P : A → Type κ) (xs : List A) → All P xs → All P (keep p xs)
  unfolding keep
  All-keep P [] h = tt
  All-keep P (x ∷ xs) h = elim (Bool-cases (p x)) [
    | inl e ↦ rw e (h.0, All-keep P xs h.1)
    | inr e ↦ rw e (All-keep P xs h.1)
  ]

module _ (p : Snapshot → Bool) where
  contains-keep :
      (k : Key2) (xs : List Snapshot)
      → contains (map snapshot_key xs) k ≡ false
      → contains (map snapshot_key (keep p xs)) k ≡ false
  unfolding keep contains
  contains-keep k [] h = refl
  contains-keep k (x ∷ xs) h = ground (arith, contains-keep k xs)

  pub Distinct-keep :
      (xs : List Snapshot)
      → Distinct (map snapshot_key xs)
      → Distinct (map snapshot_key (keep p xs))
  unfolding keep
  Distinct-keep [] d = tt
  Distinct-keep (x ∷ xs) d = elim (Bool-cases (p x)) [
    | inl e ↦ rw e (contains-keep (snapshot_key x) xs d.0, Distinct-keep xs d.1)
    | inr e ↦ rw e (Distinct-keep xs d.1)
  ]

find_row-keep :
    (p : Snapshot → Bool) (q : Key2 → Bool)
    → ((s : Snapshot) → p s ≡ q (snapshot_key s))
    → (k : Key2) (xs : List Snapshot)
    → find_row snapshot_key k (keep p xs) ≡ (if q k then find_row snapshot_key k xs else none)
unfolding keep find_row
find_row-keep p q same k [] = ground arith
find_row-keep p q same k (x ∷ xs) = elim (Bool-cases (p x)) [
  | inl e ↦
      rw e
        (ground (arith, find_row-keep p q same k xs, same x, e, key2_same_iff (snapshot_key x) k))
  | inr e ↦
      rw e
        (ground (arith, find_row-keep p q same k xs, same x, e, key2_same_iff (snapshot_key x) k))
]

-- The text of a filter; the empty one asks for every row.
abbrev pub filter_text : Option String → String
filter_text none = ""
filter_text (some s) = s

-- Whether a row under this key is asked for.
abbrev pub is_asked : String → String → Key2 → Bool
is_asked node_id source k =
    (node_id == "" || node_id == k.major) && (source == "" || source == k.minor)

passes-filter_text :
    (o : Option String) (s : String) → passes o s ≡ (filter_text o == "" || filter_text o == s)
passes-filter_text none s = refl
passes-filter_text (some f) s = ground (arith, string_eq.same_iff f s, string_eq.same_iff s f)

selected-is_asked :
    (node_id source : Option String) (s : Snapshot)
    → not (selected node_id source s)
      ≡ not (is_asked (filter_text node_id) (filter_text source) (snapshot_key s))
selected-is_asked node_id source s =
    rw (passes-filter_text node_id s.node_id, passes-filter_text source s.source) refl

-- A deletion removes the rows whose node and source are asked for, an empty or absent filter asking
-- for all, and no other row; it returns how many it removed, and the same query then shows nothing.
pub delete_log_snapshots_exact :
    (node_id source : Option String) (k : Key2) (db : Db)
    → let (count, db') = delete_log_snapshots node_id source db in
      (find_row snapshot_key k db'.log_snapshots ≡ (
        if is_asked (filter_text node_id) (filter_text source) k
        then none
        else find_row snapshot_key k db.log_snapshots))
      × (get_log_snapshots node_id source db' ≡ [])
      × (count + length db'.log_snapshots ≡ length db.log_snapshots)
unfolding delete_log_snapshots get_log_snapshots order_by
delete_log_snapshots_exact node_id source k db = (
  find_row-keep _ (λ k. not (is_asked (filter_text node_id) (filter_text source) k))
        (selected-is_asked node_id source) k db.log_snapshots
      ∙ ground arith,
  rw (keep_none (selected node_id source)) refl,
  length-keep (selected node_id source) db.log_snapshots,
)

pub save_log_snapshots-induction :
    (P : Db → Type 0) (node_id : String) (now : ℕ)
    → ((source content : String) (db : Db) → P db → P (save_snapshot node_id source content now db))
    → (l : List (String × String)) (db : Db) → P db
    → P (save_log_snapshots node_id l now db)
unfolding save_log_snapshots
save_log_snapshots-induction P node_id now step [] db h = h
save_log_snapshots-induction P node_id now step ((source, content) ∷ l) db h =
    save_log_snapshots-induction P node_id now step l (save_snapshot node_id source content now db)
      (step source content db h)

-- The row of one node and source after a save holds the last 24,000 characters of the text and
-- the time; every other row is as it was.
pub find_row-save_snapshot :
    (node_id source content : String) (now : ℕ) (k : Key2) (db : Db)
    → find_row snapshot_key k (save_snapshot node_id source content now db).log_snapshots ≡ (
        if record { major = node_id; minor = source } == k
        then some (new_snapshot node_id source content now)
        else find_row snapshot_key k db.log_snapshots)
unfolding save_snapshot
find_row-save_snapshot node_id source content now k db =
    let row = new_snapshot node_id source content now in
    let e = find_row-upsert snapshot_key k row (merge_snapshot row) (λ x. refl) db.log_snapshots in
    elim (Option-cases (find_row snapshot_key k db.log_snapshots)) [
      | inl h ↦ e ∙ rw h (ground arith)
      | inr (x, h) ↦
          e
          ∙ rw h (
              ground (
                arith,
                key2_same_iff (snapshot_key row) k,
                find_row-key snapshot_key k db.log_snapshots h,
              ))
    ]
