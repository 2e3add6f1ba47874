-- ===== src/Engine/Gost.antt =====
-- app/gost_engine.py: the arguments of the GOST relay.
pub mod Quote
pub mod Laws
use hawal.Base.{ℕ, String, ◌<>◌, Bool, true, false, not, ◌&&◌, ◌||◌, Option, none, some}
use hawal.Base.{List, [], ◌∷◌, ◌++◌}
use hawal.Base.Tests.{if◌then◌else◌}
use hawal.Base.Eq.{◌==◌, string_eq}
use hawal.Base.Lists.{contains}
use hawal.Base.Int.{ℤ}
use hawal.Text.{strip, before, after, has, last_piece, lower}
use hawal.Text.Decimal.{parse_int, show_int}
use hawal.Db.{Tunnel}
use hawal.Engine.Ports.{when_in_range}
use Quote.{quote}

abbrev pub transports : List String
transports = "tls" ∷ "ws" ∷ "kcp" ∷ "quic" ∷ []

unfoldable pub gost_transport : Tunnel → String
unfolding lower contains
gost_transport t =
    let transport = lower t.transport in if contains transports transport then transport else "tls"

unfoldable pub relay_url : Tunnel → String → String
unfolding gost_transport quote show_int
relay_url t host =
    "relay+"
    <> gost_transport t
    <> "://hawal:"
    <> quote t.token
    <> "@"
    <> host
    <> ":"
    <> show_int t.core_port

unfoldable pub generate_gost_server_command : Tunnel → List String
unfolding relay_url
generate_gost_server_command t = "-L" ∷ relay_url t "" ∷ []

abbrev with_target : String → Option ℤ → Option (ℤ × String)
with_target target none = none
with_target target (some p) = if target == "" then none else some (p, target)

-- One rule; `none` where the `try` ends by `continue`: no "=", no integer before it, no target, or
-- a port out of range.
unfoldable pub gost_rule : String → Option (ℤ × String)
unfolding has strip before after last_piece parse_int
gost_rule rule =
    if has b'=' rule
    then with_target (strip (after b'=' rule))
        (when_in_range (parse_int (last_piece b':' (strip (before b'=' rule)))))
    else none

unfoldable pub listeners : ℤ × String → List String
unfolding show_int
listeners (p, target) =
    "-L"
    ∷ ("tcp://:" <> show_int p <> "/" <> target)
    ∷ "-L"
    ∷ ("udp://:" <> show_int p <> "/" <> target)
    ∷ []

-- The loop, with `args` as its accumulator.
unfoldable pub extend_args : List String → List String → List String
unfolding gost_rule listeners
extend_args args [] = args
extend_args args (rule ∷ rules) =
    extend_args (elim (gost_rule rule) [ none ↦ args | some r ↦ args ++ listeners r ]) rules

unfoldable pub generate_gost_client_command : Tunnel → String → List String
unfolding extend_args relay_url
generate_gost_client_command t server_ip =
    extend_args [] t.ports ++ "-F" ∷ relay_url t server_ip ∷ []
