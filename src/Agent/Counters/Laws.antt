-- ===== src/Agent/Counters/Laws.antt =====
-- What the byte counters of app/static/js/agent.py read.
use text.Mathlib.TextLemmas.{nil-append, cons-append, append_assoc}
use hawal.Base.{String, ◌<>◌, ◌≡◌, refl, sym, ◌∙◌, ap, arith, true, false}
use hawal.Base.{Option, none, some, List, [], ◌∷◌, ◌++◌, inl, inr}
use hawal.Base.Tests.{Bool-cases, Option-cases}
use hawal.Base.Int.{ℤ, pos}
use hawal.Base.Lists.{All}
use hawal.Text.{occurs, begins}
use hawal.Text.Decimal.{show_int}
use hawal.Agent.Counters.{
  display_kind, needle, counter_line, first_counter, value_of, io_line, io_lines, io_bytes,
}

begins-append : (p s : String) → begins p (p <> s) ≡ true
unfolding begins
begins-append String.[] s = refl
begins-append (String.◌∷◌ c p) s = rw cons-append (ground (arith, begins-append p s))

begins-occurs : (p s : String) → begins p s ≡ true → occurs p s ≡ true
unfolding occurs
begins-occurs p String.[] h = h
begins-occurs p (String.◌∷◌ c s) h = ground (arith, h)

occurs-append : (p a s : String) → occurs p (a <> (p <> s)) ≡ true
unfolding occurs
occurs-append p String.[] s = rw nil-append (begins-occurs p (p <> s) (begins-append p s))
occurs-append p (String.◌∷◌ c a) s = rw cons-append (ground (arith, occurs-append p a s))

-- The sought text of a longer port begins with that of the shorter one.
needle-longer :
    (port_kind : String) (port other : ℤ) (more s : String)
    → show_int other ≡ show_int port <> more
    → needle port_kind other <> s ≡ needle port_kind port <> (more <> s)
needle-longer port_kind port other more s e = rw e (
    rw
      (
        append_assoc (display_kind port_kind) (":" <> show_int port <> more) s,
        append_assoc ":" (show_int port <> more) s,
        append_assoc (show_int port) more s,
        append_assoc (display_kind port_kind) (":" <> show_int port) (more <> s),
        append_assoc ":" (show_int port) (more <> s),
      )
      refl)

counter_line-needle :
    (m mark line : String) (n : ℤ)
    → counter_line mark line ≡ some n
    → occurs m line ≡ true
    → counter_line m line ≡ some n
unfolding counter_line
counter_line-needle m mark line n h k = elim (Bool-cases (occurs mark line)) [
  | inl e ↦ rw k (sym (rw e refl) ∙ h)
  | inr e ↦ absurd (ground (arith, e, h))
]

-- The counter of a port is not told from that of another port whose digits begin with its own: where
-- the line of the other rule is listed first, its bytes are taken, whatever the lines behind it say.
pub first_counter_wrong :
    (port_kind : String) (port other : ℤ) (more a s : String) (lines : List String) (n : ℤ)
    → show_int other ≡ show_int port <> more
    → let line = a <> (needle port_kind other <> s) in
      counter_line (needle port_kind other) line ≡ some n
      → first_counter (needle port_kind port) (line ∷ lines) ≡ some n
unfolding first_counter
first_counter_wrong port_kind port other more a s lines n e h =
    let kind = needle port_kind port in
    let found : occurs kind (a <> (needle port_kind other <> s)) ≡ true =
      ap (λ t. occurs kind (a <> t)) (needle-longer port_kind port other more s e)
      ∙ occurs-append kind a (more <> s) in
    taken (counter_line kind (a <> (needle port_kind other <> s))) (first_counter kind lines) (
      counter_line-needle kind (needle port_kind other) (a <> (needle port_kind other <> s)) n h
        found)
  where
    taken : (o rest : Option ℤ) → o ≡ some n → elim o [ some m ↦ some m | none ↦ rest ] ≡ some n
    taken none rest k = absurd (ground arith)
    taken (some m) rest k = k

-- The line has no say on the bytes that were read.
abbrev pub IsSilent : String → Type 0
IsSilent l = (begins "read_bytes:" l ≡ false) × (begins "rchar:" l ≡ false)

silent_line : (l : String) (s s' : ℤ × ℤ) → IsSilent l → io_line l s ≡ some s' → s'.0 ≡ s.0
unfolding io_line
silent_line l s s' q h = elim (Option-cases (value_of l)) [
  | inl e ↦ ground (arith, q.0, q.1, h, e)
  | inr (v, e) ↦ ground (arith, q.0, q.1, h, e)
]

silent_lines :
    (ls : List String) (s s' : ℤ × ℤ) → All IsSilent ls → io_lines ls s ≡ some s' → s'.0 ≡ s.0
unfolding io_lines
silent_lines [] s s' q h = ground (arith, h)
silent_lines (l ∷ ls) s s' q h = elim (Option-cases (io_line l s)) [
  | inl e ↦ absurd (ground (arith, e, h))
  | inr (t, e) ↦
      silent_lines ls t s' q.1 (sym (rw (e, io_lines) refl) ∙ h) ∙ silent_line l s t q.0 e
]

split_lines :
    (ls more : List String) (s s' : ℤ × ℤ)
    → io_lines (ls ++ more) s ≡ some s'
    → (t : ℤ × ℤ) × (io_lines more t ≡ some s')
unfolding io_lines
split_lines [] more s s' h = (s, h)
split_lines (l ∷ ls) more s s' h = elim (Option-cases (io_line l s)) [
  | inl e ↦ absurd (ground (arith, e, h))
  | inr (t, e) ↦ split_lines ls more t s' (sym (rw (e, io_lines) refl) ∙ h)
]

read_step :
    (l : String) (n : ℤ) (t : ℤ × ℤ)
    → begins "read_bytes:" l ≡ true
    → value_of l ≡ some n
    → io_line l t ≡ some (n, t.1)
unfolding io_line
read_step l n t b v = rw (b, v) refl

-- Whatever the file counts under "rchar", the agent reports the bytes read from storage: where a
-- line "read_bytes" stands behind all lines "rchar", as it does in /proc/<pid>/io, its number is
-- the result, zero or not.
pub io_bytes-storage :
    (ls more : List String) (l : String) (n : ℤ) {s : ℤ × ℤ}
    → begins "read_bytes:" l ≡ true
    → value_of l ≡ some n
    → All IsSilent more
    → io_bytes (ls ++ l ∷ more) ≡ some s
    → s.0 ≡ n
unfolding io_bytes io_lines
io_bytes-storage ls more l n {s} b v q h =
    let (t, e) = split_lines ls (l ∷ more) (pos 0, pos 0) s h in
    silent_lines more (n, t.1) s q (sym (rw (read_step l n t b v, io_lines) refl) ∙ e)
