-- ===== src/Agent/Binaries/Laws.antt =====
-- What the installation of a program by app/static/js/agent.py leaves on the disk.
use hawal.Base.{
  String, ◌<>◌, ◌≡◌, refl, ap, ◌∙◌, arith, Bool, true, false, Option, none, some, inl, inr,
}
use hawal.Base.Tests.{if◌then◌else◌, Bool-cases}
use hawal.Base.Eq.{◌==◌, string_eq, same_refl}
use hawal.Base.Dict.{lookup, pop, lookup-put, lookup-pop}
use hawal.Agent.Binaries.{
  Entry, Disk, Transfer, unreached, broken, complete, Archive, missing, holding, is_folder,
  is_program, written, replaced, hawal_core_bin, gost_bin, ensure_hawal_core_binary, gost_arch,
  from_archive, gost_for, ensure_gost_binary,
}

-- An answer that says yes is true of the disk behind it.
abbrev pub IsHonest : String → Bool × Disk → Type 0
IsHonest path r = r.0 ≡ true → is_program (lookup path r.1) ≡ true

written-IsHonest : (path : String) (t : Transfer) (d : Disk) → IsHonest path (written path t d)
written-IsHonest path unreached d e = absurd (ground arith)
written-IsHonest path broken d e = absurd (ground arith)
written-IsHonest path complete d e =
    rw (lookup-put path path (Entry.file true) d, same_refl path) refl

clash : {b : Bool} → b ≡ true → b ≡ false → ⊥
clash p q = ground arith

replaced-IsHonest : (temp path : String) (r : Bool × Disk) → IsHonest path (replaced temp path r)
replaced-IsHonest temp path (false, d) e = absurd (ground arith)
replaced-IsHonest temp path (true, d) e = elim (Bool-cases (is_folder (lookup path d))) [
  | inl f ↦ absurd (clash e (rw f refl))
  | inr f ↦ rw (f, lookup-put path path (Entry.file true) (pop temp d), same_refl path) refl
]

from_archive-IsHonest :
    (path : String) (a : Archive) (d : Disk) → IsHonest path (from_archive path false a d)
from_archive-IsHonest path Archive.unreached d e = absurd (ground arith)
from_archive-IsHonest path missing d e = absurd (ground arith)
from_archive-IsHonest path (holding t) d e =
    replaced-IsHonest (path <> ".download") path (written (path <> ".download") t d) e

either-IsHonest :
    (path : String) (b : Bool) (x y : Bool × Disk)
    → (b ≡ true → IsHonest path x)
    → IsHonest path y
    → IsHonest path (if b then x else y)
either-IsHonest path true x y h k = h refl
either-IsHonest path false x y h k = k

hawal_core-IsHonest :
    (copy download : Transfer) (d : Disk)
    → IsHonest hawal_core_bin (ensure_hawal_core_binary copy download d)
unfolding ensure_hawal_core_binary
hawal_core-IsHonest copy download d =
    either-IsHonest hawal_core_bin (is_program (lookup hawal_core_bin d)) (true, d) _ (λ e f. e)
      (written-IsHonest hawal_core_bin _ _)

gost-IsHonest :
    (machine : String) (a : Archive) (d : Disk) → IsHonest gost_bin (ensure_gost_binary machine a d)
unfolding ensure_gost_binary
gost-IsHonest machine a d =
    either-IsHonest gost_bin (is_program (lookup gost_bin d)) (true, d) _ (λ e f. e)
      (by_arch (gost_arch machine))
  where
    by_arch : (o : Option String) → IsHonest gost_bin (gost_for a d o)
    by_arch none e = absurd (ground arith)
    by_arch (some arch) e = from_archive-IsHonest gost_bin a d e

lookup-written :
    (path other : String) (t : Transfer) (d : Disk)
    → (path == other) ≡ false
    → lookup other (written path t d).1 ≡ lookup other d
lookup-written path other unreached d h = refl
lookup-written path other broken d h = rw (lookup-put path other (Entry.file false) d, h) refl
lookup-written path other complete d h = rw (lookup-put path other (Entry.file true) d, h) refl

lookup-replaced :
    (temp path other : String) (r : Bool × Disk)
    → (path == other) ≡ false
    → (temp == other) ≡ false
    → lookup other (replaced temp path r).1 ≡ lookup other r.1
lookup-replaced temp path other (false, d) h k = refl
lookup-replaced temp path other (true, d) h k = elim (Bool-cases (is_folder (lookup path d))) [
  | inl f ↦ rw f refl
  | inr f ↦
      rw (f, lookup-put path other (Entry.file true) (pop temp d), h, lookup-pop temp other d, k)
        refl
]

-- GOST's installation touches no other path than GOST's own and its temporary one.
lookup-ensure_gost_binary :
    (machine other : String) (a : Archive) (d : Disk)
    → (gost_bin == other) ≡ false
    → ((gost_bin <> ".download") == other) ≡ false
    → lookup other (ensure_gost_binary machine a d).1 ≡ lookup other d
unfolding ensure_gost_binary
lookup-ensure_gost_binary machine other a d h k =
    elim (Bool-cases (is_program (lookup gost_bin d))) [
      | inl e ↦ rw e refl
      | inr e ↦ rw e (by_arch (gost_arch machine))
    ]
  where
    by_archive : (a : Archive) → lookup other (from_archive gost_bin false a d).1 ≡ lookup other d
    by_archive Archive.unreached = refl
    by_archive missing = refl
    by_archive (holding t) =
        lookup-replaced (gost_bin <> ".download") gost_bin other
          (written (gost_bin <> ".download") t d) h k
        ∙ lookup-written (gost_bin <> ".download") other t d k

    by_arch : (o : Option String) → lookup other (gost_for a d o).1 ≡ lookup other d
    by_arch none = refl
    by_arch (some arch) = by_archive a

first_of : {A : Type 0} {b : Bool} {x : A} (y : A) → b ≡ true → (if b then x else y) ≡ x
first_of {b = true} y h = refl
first_of {b = false} y h = absurd (ground arith)

hawal_core_again :
    (copy download : Transfer) {d : Disk}
    → is_program (lookup hawal_core_bin d) ≡ true
    → ensure_hawal_core_binary copy download d ≡ (true, d)
unfolding ensure_hawal_core_binary
hawal_core_again copy download h = first_of _ h

gost_again :
    (machine : String) (a : Archive) {d : Disk}
    → is_program (lookup gost_bin d) ≡ true
    → ensure_gost_binary machine a d ≡ (true, d)
unfolding ensure_gost_binary
gost_again machine a h = first_of _ h

program_file : (o : Option Entry) → is_program o ≡ true → o ≡ some (Entry.file true)
program_file none h = absurd (ground arith)
program_file (some Entry.folder) h = absurd (ground arith)
program_file (some (Entry.file x)) h = ap (λ b. some (Entry.file b)) h

-- Once the agent has found or installed the Hawal core and then GOST, both are on the disk as files that
-- may be executed; and the next calls, whatever copies and downloads would do by then, find them and
-- change nothing.
pub ensure_binary_again :
    (machine : String) (copy download copy' download' : Transfer) (a a' : Archive) (d : Disk)
    → (ensure_hawal_core_binary copy download d).0 ≡ true
    → let installed = (ensure_hawal_core_binary copy download d).1 in
      (ensure_gost_binary machine a installed).0 ≡ true
      → let both = (ensure_gost_binary machine a installed).1 in
        (lookup "/opt/hawal/bin/hawal-core" both ≡ some (Entry.file true))
        × (lookup "/opt/hawal/bin/gost" both ≡ some (Entry.file true))
        × (ensure_hawal_core_binary copy' download' both ≡ (true, both))
        × (ensure_gost_binary machine a' both ≡ (true, both))
ensure_binary_again machine copy download copy' download' a a' d found ready =
    let installed = (ensure_hawal_core_binary copy download d).1 in
    let both = (ensure_gost_binary machine a installed).1 in
    let core : is_program (lookup hawal_core_bin both) ≡ true =
      ap is_program (lookup-ensure_gost_binary machine hawal_core_bin a installed refl refl)
      ∙ hawal_core-IsHonest copy download d found in
    let gost = gost-IsHonest machine a installed ready in
    (
      program_file (lookup hawal_core_bin both) core,
      program_file (lookup gost_bin both) gost,
      hawal_core_again copy' download' core,
      gost_again machine a' gost,
    )
