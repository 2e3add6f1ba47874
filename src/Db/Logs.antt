-- ===== src/Db/Logs.antt =====
-- The log snapshots of app/db.py.
pub mod Laws
use hawal.Base.{ℕ, zero, suc, ◌-◌, String, Bool, true, false, not, ◌&&◌, Option, none, some}
use hawal.Base.{List, [], ◌∷◌}
use hawal.Base.Tests.{leb, if◌then◌else◌}
use hawal.Base.Eq.{◌==◌, string_eq, key2_eq}
use hawal.Base.Lists.{length}
use hawal.Base.Rows.{upsert}
use hawal.Base.Sort.{order_by}
use hawal.Text.{last_text}
use hawal.Db.{Snapshot, snapshot_key, Db}

abbrev pub max_content : ℕ
max_content = 24000

abbrev pub new_snapshot : String → String → String → ℕ → Snapshot
new_snapshot node_id source content now = record {
  node_id = node_id;
  source = source;
  content = last_text max_content content;
  updated_at = now;
}

abbrev pub merge_snapshot : Snapshot → Snapshot → Snapshot
merge_snapshot new old = record old { content = new.content; updated_at = new.updated_at }

unfoldable pub save_snapshot : String → String → String → ℕ → Db → Db
unfolding last_text upsert
save_snapshot node_id source content now db =
    let row = new_snapshot node_id source content now in
    record db { log_snapshots = upsert snapshot_key row (merge_snapshot row) db.log_snapshots }

unfoldable pub save_log_snapshots : String → List (String × String) → ℕ → Db → Db
unfolding save_snapshot
save_log_snapshots node_id [] now db = db
save_log_snapshots node_id ((source, content) ∷ rest) now db =
    save_log_snapshots node_id rest now (save_snapshot node_id source content now db)

-- An absent or empty filter passes every row.
abbrev pub passes : Option String → String → Bool
passes none s = true
passes (some f) s = if f == "" then true else s == f

abbrev pub selected : Option String → Option String → Snapshot → Bool
selected node_id source s = passes node_id s.node_id && passes source s.source

unfoldable pub keep {ℓ} : {A : Type ℓ} → (A → Bool) → List A → List A
keep p [] = []
keep p (x ∷ xs) = let rest = keep p xs in if p x then x ∷ rest else rest

abbrev pub newer : Snapshot → Snapshot → Bool
newer a b = leb b.updated_at a.updated_at

unfoldable pub get_log_snapshots : Option String → Option String → Db → List Snapshot
unfolding keep order_by
get_log_snapshots node_id source db =
    order_by newer (keep (selected node_id source) db.log_snapshots)

-- The row count, and the database without the rows.
unfoldable pub delete_log_snapshots : Option String → Option String → Db → ℕ × Db
unfolding keep
delete_log_snapshots node_id source db = (
  length (keep (selected node_id source) db.log_snapshots),
  record db { log_snapshots = keep (λ s. not (selected node_id source s)) db.log_snapshots },
)
