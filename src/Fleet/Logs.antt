-- ===== src/Fleet/Logs.antt =====
-- The logs of a node, from its agent, app/static/js/agent.py, to the tables of app/db.py.
use mathlib.Core.Path.{subst}
use hawal.Base.{
  ℕ, ◌≤◌, String, ◌≡◌, refl, sym, ◌∙◌, ap, arith, Option, none, some, List, [], ◌∷◌, inl, inr,
}
use hawal.Base.Tests.{Bool-cases}
use hawal.Base.Eq.{◌==◌, string_eq, key2_eq, Key2, same_refl}
use hawal.Base.Lists.{contains, Distinct}
use hawal.Base.Rows.{find_row, Distinct-upsert}
use hawal.Base.Dict.{lookup, put, keys, key_of, lookup-put, lookup-absent}
use hawal.Text.{size, last_text}
use hawal.Db.{Db, Snapshot, snapshot_key}
use hawal.Db.Logs.{save_snapshot, save_log_snapshots, new_snapshot, max_content}
use hawal.Db.Logs.Laws.{find_row-save_snapshot, size-last_text, last_text_short}
use hawal.Agent.Reports.{add_log, add_logs, log_snapshots, log_path, max_report}

abbrev pub row_of : String → String → Key2
row_of node_id source = record { major = node_id; minor = source }

-- A dict of logs is stored row by row.
find_row-save_log_snapshots :
    (n s : String) (l : List (String × String)) (now : ℕ) (db : Db)
    → Distinct (keys l)
    → find_row snapshot_key (row_of n s) (save_log_snapshots n l now db).log_snapshots
      ≡ elim (lookup s l) [
        | some c ↦ some (new_snapshot n s c now)
        | none ↦ find_row snapshot_key (row_of n s) db.log_snapshots
      ]
unfolding save_log_snapshots lookup find_row
find_row-save_log_snapshots n s [] now db d = refl
find_row-save_log_snapshots n s ((source, c) ∷ l) now db d =
    let next = find_row-save_log_snapshots n s l now (save_snapshot n source c now db) d.1 in
    let one = find_row-save_snapshot n source c now (row_of n s) db in
    elim (Bool-cases (source == s)) [
      | inl e ↦
          let same = (string_eq.same_iff source s).0 e in
          let gone : lookup s l ≡ none =
            lookup-absent s l (ap (contains (keys l)) (sym same) ∙ d.0) in
          next
          ∙ rw (gone, e) (one ∙ rw (same_refl n, e) (ap (λ k. some (new_snapshot n k c now)) same))
      | inr e ↦ next ∙ rw e (later (lookup s l) (one ∙ rw (same_refl n, e) refl))
    ]
  where
    later :
        (o : Option String) {x y : Option Snapshot}
        → x ≡ y
        → elim o [ some c ↦ some (new_snapshot n s c now) | none ↦ x ]
          ≡ elim o [ some c ↦ some (new_snapshot n s c now) | none ↦ y ]
    later none e = e
    later (some c) e = refl

put-Distinct :
    (k v : String) (d : List (String × String)) → Distinct (keys d) → Distinct (keys (put k v d))
unfolding put
put-Distinct k v d h =
    Distinct-upsert key_of key_of (k, v) (λ old. (old.0, v)) (λ x. refl) d (λ e. e) h

add_logs-Distinct :
    (file : String → Option String) (ids : List String) (d : List (String × String))
    → Distinct (keys d)
    → Distinct (keys (add_logs file ids d))
unfolding add_logs
add_logs-Distinct file [] d h = h
add_logs-Distinct file (i ∷ ids) d h = add_logs-Distinct file ids _ (one (file (log_path i)))
  where
    one : (o : Option String) → Distinct (keys (add_log i o d))
    one none = h
    one (some text) = put-Distinct _ _ d h

-- Every log that is sent is short.
abbrev Sized : List (String × String) → Type 0
Sized d = (s c : String) → lookup s d ≡ some c → size c ≤ max_report

unwrapped : (a b : String) → some a ≡ some b → a ≡ b
unwrapped a b e = cc

put-Sized :
    (k text : String) (d : List (String × String))
    → Sized d
    → Sized (put k (last_text max_report text) d)
put-Sized k text d h s c e = elim (Bool-cases (k == s)) [
  | inl f ↦
      subst (λ t. size t ≤ max_report)
        (unwrapped _ c (sym (lookup-put k s (last_text max_report text) d ∙ rw f refl) ∙ e))
        (size-last_text max_report text)
  | inr f ↦ h s c (sym (lookup-put k s (last_text max_report text) d ∙ rw f refl) ∙ e)
]

add_logs-Sized :
    (file : String → Option String) (ids : List String) (d : List (String × String))
    → Sized d
    → Sized (add_logs file ids d)
unfolding add_logs
add_logs-Sized file [] d h = h
add_logs-Sized file (i ∷ ids) d h = add_logs-Sized file ids _ (one (file (log_path i)))
  where
    one : (o : Option String) → Sized (add_log i o d)
    one none = h
    one (some text) = put-Sized _ text d h

-- What an agent reports of a log, the panel keeps whole: after the report is stored, the row of the
-- node and the log holds the text as it was sent, under the time of the request; a log that is not
-- in the report keeps its row.
pub find_row-log_snapshots :
    (node_id source journal : String) (file : String → Option String) (ids : List String) (now : ℕ)
    (db : Db)
    → let sent = log_snapshots journal file ids in
      find_row snapshot_key
        (row_of node_id source)
        (save_log_snapshots node_id sent now db).log_snapshots
      ≡ elim (lookup source sent) [
        | some c ↦
            some (record { node_id = node_id; source = source; content = c; updated_at = now })
        | none ↦ find_row snapshot_key (row_of node_id source) db.log_snapshots
      ]
unfolding log_snapshots
find_row-log_snapshots node_id source journal file ids now db =
    find_row-save_log_snapshots node_id source sent now db
      (add_logs-Distinct file ids _ (put-Distinct "agent" (last_text max_report journal) [] tt))
    ∙ whole (lookup source sent)
        (λ c e. add_logs-Sized file ids _ (put-Sized "agent" journal [] nothing) source c e)
  where
    sent : List (String × String)
    sent = log_snapshots journal file ids

    nothing : Sized []
    nothing s c e = absurd (unfold lookup find_row in ground (arith, e))

    whole :
        (o : Option String)
        → ((c : String) → o ≡ some c → size c ≤ max_report)
        → elim o [
          | some c ↦ some (new_snapshot node_id source c now)
          | none ↦ find_row snapshot_key (row_of node_id source) db.log_snapshots
        ]
          ≡ elim o [
            | some c ↦
                some (record { node_id = node_id; source = source; content = c; updated_at = now })
            | none ↦ find_row snapshot_key (row_of node_id source) db.log_snapshots
          ]
    whole none short = refl
    whole (some c) short =
        ap
          (λ t. some (record { node_id = node_id; source = source; content = t; updated_at = now }))
          (last_text_short max_content c (omega (arith, short c refl)))
