-- ===== src/Tests/Cores.antt =====
-- The theorems on the cores, at concrete rules.
use hawal.Base.{String, ◌≡◌, refl, false, some, List, [], ◌∷◌}
use hawal.Base.Eq.{◌==◌, string_eq}
use hawal.Base.Int.{pos}
use hawal.Text.{is_space, strip, after}
use hawal.Engine.Ports.{IsPort, rule_port}
use hawal.Engine.Gost.{gost_rule}
use hawal.Engine.Gost.Laws.{gost_rule_sound}

abbrev rules : List String
rules = "443=127.0.0.1:443" ∷ " 8080 " ∷ "0.0.0.0:53=1.1.1.1:53" ∷ "x=1" ∷ "70000=2" ∷ []

abbrev rule : String
rule = "0.0.0.0:53=1.1.1.1:53"

abbrev target : String
target = "1.1.1.1:53"

gost_rule_sound_example :
    (rule_port rule ≡ some (pos 53))
    × IsPort (pos 53)
    × (target ≡ strip (after b'=' rule))
    × ((target == "") ≡ false)
unfolding gost_rule is_space
gost_rule_sound_example = gost_rule_sound rule {p = pos 53} {target = target} refl
