-- ===== src/Tests/Daemons.antt =====
-- The theorems on the daemon of a node, its counters, and the older agent.
use hawal.Agent.Binaries.{
  Entry, Disk, unreached, broken, complete, Archive, holding, gost_arch, ensure_hawal_core_binary,
  ensure_gost_binary,
}
use hawal.Agent.Binaries.Laws.{ensure_binary_again}
use hawal.Text.{lower, begins, is_space}
use hawal.Base.{arith, ◌≡◌, refl, true, false, String, ◌<>◌, none, some, List, [], ◌∷◌, map}
use hawal.Base.Int.{ℤ, pos}
use hawal.Base.Rows.{find_row}
use hawal.Base.Dict.{lookup}
use hawal.Text.Decimal.{show_int}
use hawal.Item.{Item, Payload, client}
use hawal.Agent.{Agent}
use hawal.Agent.Apply.{marker}
use hawal.Agent.Apply as New
use hawal.Agent.Old as Old
use hawal.Agent.Old.Simulated.{Same}
use hawal.Agent.Old.Rounds.{apply_configs-Same}
use hawal.Agent.Counters.{needle, counter_line, first_counter, io_bytes}
use hawal.Agent.Counters.Laws.{first_counter_wrong, io_bytes-storage}
use hawal.Agent.Run.{Round, Runner}
use hawal.Tests.Machine.{host, idle, daemon, answer}

abbrev round : Round
round = record {
  answer = some answer;
  now = 5;
  journal = none;
  file = λ path. none;
  sent = λ snapshots. true;
  list_chain = λ chain. none;
  proc_io = λ proc. none;
  signalled = false;
}

abbrev runner : Runner
runner = record {
  daemon = daemon;
  last_log_report = 0;
  counters = record { last_paqet_traffic = []; last_io = [] };
}

abbrev wrong_line : String
wrong_line =
    "  3 700 CT tcp -- * * 0.0.0.0/0 0.0.0.0/0 tcp " <> (needle "dport" (pos 8080) <> " NOTRACK")

first_counter_wrong_example :
    first_counter (needle "dport" (pos 808)) (wrong_line ∷ []) ≡ some (pos 700)
unfolding show_int counter_line
first_counter_wrong_example =
    first_counter_wrong "dport" (pos 808) (pos 8080) "0"
      "  3 700 CT tcp -- * * 0.0.0.0/0 0.0.0.0/0 tcp " " NOTRACK" [] (pos 700) refl refl

abbrev heads : List String
heads = "rchar: 9000" ∷ "wchar: 800" ∷ "syscr: 7" ∷ "syscw: 6" ∷ []

abbrev tails : List String
tails = "write_bytes: 4096" ∷ "cancelled_write_bytes: 0" ∷ []

abbrev no_bytes : ℤ
no_bytes = pos 0

abbrev counted : ℤ × ℤ
counted = (pos 0, pos 4096)

io_bytes-storage_example : counted.0 ≡ no_bytes
unfolding io_bytes begins is_space
io_bytes-storage_example =
    io_bytes-storage heads tails "read_bytes: 0" no_bytes {s = counted} refl refl
      ((refl, refl), ((refl, refl), tt)) refl

abbrev plain_items : List Item
plain_items =
    record {
      tunnel_id = "first";
      role = client;
      payload = Payload.backhaul "[client]";
      restart_nonce = 4;
    }
    ∷ []

abbrev plain_old : Agent
plain_old = idle

abbrev plain_new : Agent
plain_new = record idle { configs = ("old", marker "content" 4) ∷ [] }

Same-start : Same 4 plain_new plain_old
unfolding lookup find_row
Same-start = (("old", marker "content" 4) ∷ [], refl, λ j. ground arith)

apply_configs-Same_example :
    Same 4
      (New.apply_configs host plain_items plain_new)
      (Old.apply_configs host plain_items plain_old)
apply_configs-Same_example =
    apply_configs-Same 4 host plain_items plain_new plain_old ((refl, refl), tt) Same-start

-- A machine with neither program, where both downloads succeed.
abbrev found : Disk
found = (ensure_hawal_core_binary unreached complete []).1

abbrev both : Disk
both = (ensure_gost_binary "x86_64" (holding complete) found).1

ensure_binary_again_example :
    (lookup "/opt/hawal/bin/hawal-core" both ≡ some (Entry.file true))
    × (lookup "/opt/hawal/bin/gost" both ≡ some (Entry.file true))
    × (ensure_hawal_core_binary unreached broken both ≡ (true, both))
    × (ensure_gost_binary "x86_64" Archive.unreached both ≡ (true, both))
unfolding ensure_hawal_core_binary ensure_gost_binary gost_arch lower lookup hawal.Base.Dict.put
ensure_binary_again_example =
    ensure_binary_again "x86_64" unreached complete unreached broken (holding complete)
      Archive.unreached [] refl refl
