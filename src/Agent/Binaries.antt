-- ===== src/Agent/Binaries.antt =====
-- `ensure_hawal_core_binary`, `ensure_backhaul_binary`, `ensure_paqet_binary` and
-- `ensure_gost_binary` of app/static/js/agent.py: whether the program of a core is there, and its
-- installation where it is not. The disk is the dict of its paths.
pub mod Laws
use hawal.Base.{String, ◌<>◌, Bool, true, false, not, ◌&&◌, ◌||◌, Option, none, some, List, [], ◌∷◌}
use hawal.Base.Tests.{if◌then◌else◌}
use hawal.Base.Eq.{◌==◌, string_eq}
use hawal.Base.Dict.{lookup, put, pop}
use hawal.Text.{lower, occurs}

-- A file may be executable or not.
pub data Entry : Type 0 where
  folder : Entry
  file : Bool → Entry

abbrev pub Disk : Type 0
Disk = List (String × Entry)

-- How a copy or a download ends: before it wrote anything, in the middle, or well.
pub data Transfer : Type 0 where
  unreached broken complete : Transfer

-- What the request for a release archive brings: nothing, no program in it, or one to be written.
pub data Archive : Type 0 where
  unreached : Archive
  missing : Archive
  holding : Transfer → Archive

abbrev pub exists : Option Entry → Bool
exists none = false
exists (some e) = true

-- `os.path.isfile`
abbrev pub is_file : Option Entry → Bool
is_file (some (Entry.file x)) = true
is_file other = false

abbrev pub is_folder : Option Entry → Bool
is_folder (some Entry.folder) = true
is_folder other = false

-- `os.path.isfile` with `os.access(…, os.X_OK)`
abbrev pub is_program : Option Entry → Bool
is_program (some (Entry.file x)) = x
is_program other = false

-- A file that is written and then made executable.
abbrev pub written : String → Transfer → Disk → Bool × Disk
written path Transfer.unreached d = (false, d)
written path Transfer.broken d = (false, put path (Entry.file false) d)
written path Transfer.complete d = (true, put path (Entry.file true) d)

-- `os.replace`, which fails on a folder.
abbrev pub replaced : String → String → Bool × Disk → Bool × Disk
replaced temp path (false, d) = (false, d)
replaced temp path (true, d) =
    if is_folder (lookup path d)
    then (false, d)
    else (true, put path (Entry.file true) (pop temp d))

abbrev pub hawal_core_bin : String
hawal_core_bin = "/opt/hawal/bin/hawal-core"

abbrev pub backhaul_bin : String
backhaul_bin = "/opt/hawal/bin/backhaul"

abbrev pub paqet_bin : String
paqet_bin = "/opt/hawal/bin/paqet"

abbrev pub gost_bin : String
gost_bin = "/opt/hawal/bin/gost"

-- A folder in the place of the program goes; the panel's own file is preferred to a download.
unfoldable pub ensure_hawal_core_binary : Transfer → Transfer → Disk → Bool × Disk
ensure_hawal_core_binary copy download d =
    if is_program (lookup hawal_core_bin d)
    then (true, d)
    else let cleared = if is_folder (lookup hawal_core_bin d) then pop hawal_core_bin d else d in
      let local = is_file (lookup "/opt/hawal-panel/app/static/bin/hawal-core" cleared) in
      written hawal_core_bin (if local then copy else download) cleared

-- The answer is true in any case.
unfoldable pub ensure_backhaul_binary : Transfer → Disk → Bool × Disk
ensure_backhaul_binary copy d =
    if exists (lookup backhaul_bin d)
    then (true, d)
    else if exists (lookup "/usr/local/bin/backhaul" d)
    then (true, (written backhaul_bin copy d).1)
    else (true, d)

unfoldable pub paqet_arch : String → Option String
unfolding lower occurs
paqet_arch machine =
    let m = lower machine in
    if m == "x86_64" || m == "amd64"
    then some "amd64"
    else if occurs "arm64" m || occurs "aarch64" m
    then some "arm64"
    else if occurs "arm" m
    then some "arm32"
    else none

abbrev pub from_archive : String → Bool → Archive → Disk → Bool × Disk
from_archive path otherwise Archive.unreached d = (false, d)
from_archive path otherwise Archive.missing d = (otherwise, d)
from_archive path otherwise (Archive.holding t) d =
    replaced (path <> ".download") path (written (path <> ".download") t d)

-- A copy into a folder lands inside of it, with the mode of the file that was copied.
abbrev pub copied : String → String → Transfer → Disk → Bool × Disk
copied source path t d =
    if is_folder (lookup path d)
    then with_mode t (is_program (lookup source d))
    else written path t d
  where
    with_mode : Transfer → Bool → Bool × Disk
    with_mode Transfer.unreached x = (false, d)
    with_mode Transfer.broken x = (false, put (path <> "/paqet") (Entry.file false) d)
    with_mode Transfer.complete x = (true, put (path <> "/paqet") (Entry.file x) d)

unfoldable pub ensure_paqet_binary : String → Transfer → Archive → Disk → Bool × Disk
unfolding paqet_arch
ensure_paqet_binary machine copy archive d =
    if is_program (lookup paqet_bin d)
    then (true, d)
    else if is_file (lookup "/opt/hawal-panel/app/static/bin/paqet" d)
    then copied "/opt/hawal-panel/app/static/bin/paqet" paqet_bin copy d
    else elim (paqet_arch machine) [
      | none ↦ (false, d)
      | some arch ↦ from_archive paqet_bin (exists (lookup paqet_bin d)) archive d
    ]

unfoldable pub gost_arch : String → Option String
unfolding lower
gost_arch machine =
    let m = lower machine in
    if m == "x86_64" || m == "amd64"
    then some "amd64"
    else if m == "aarch64" || m == "arm64"
    then some "arm64"
    else none

abbrev pub gost_for : Archive → Disk → Option String → Bool × Disk
gost_for archive d none = (false, d)
gost_for archive d (some arch) = from_archive gost_bin false archive d

unfoldable pub ensure_gost_binary : String → Archive → Disk → Bool × Disk
unfolding gost_arch
ensure_gost_binary machine archive d =
    if is_program (lookup gost_bin d) then (true, d) else gost_for archive d (gost_arch machine)
