-- ===== src/Engine/Gost/Laws.antt =====
-- What the GOST arguments hold.
use mathlib.Core.List.{append-nil, append_assoc}
use hawal.Base.{String, ◌≡◌, refl, ◌∙◌, ap, arith, true, false}
use hawal.Base.{Option, none, some, List, [], ◌∷◌, ◌++◌, inl, inr, sym}
use hawal.Base.Tests.{if◌then◌else◌, Bool-cases, Option-cases}
use hawal.Base.Eq.{◌==◌, string_eq}
use hawal.Base.Lists.{contains}
use hawal.Base.Int.{ℤ}
use hawal.Text.{is_space, lower, strip, before, after, has, last_piece}
use hawal.Text.Decimal.{parse_int}
use hawal.Text.Split.{IsPlainCode, strip-before-strip, last_piece_whole}
use hawal.Db.{Tunnel}
use hawal.Engine.Ports.{IsPort, when_in_range, rule_port, when_in_range-IsPort}
use hawal.Engine.Gost.{
  with_target, transports, gost_transport, relay_url, gost_rule, listeners, extend_args,
  generate_gost_client_command,
}

-- The rules that are forwarded, in the order of the tunnel.
abbrev cons_rule : Option (ℤ × String) → List (ℤ × String) → List (ℤ × String)
cons_rule none rs = rs
cons_rule (some r) rs = r ∷ rs

abbrev pub forwarded : List String → List (ℤ × String)
forwarded [] = []
forwarded (r ∷ rs) = cons_rule (gost_rule r) (forwarded rs)

abbrev pub all_listeners : List (ℤ × String) → List String
all_listeners [] = []
all_listeners (r ∷ rs) = listeners r ++ all_listeners rs

extend_args_lem :
    (args rules : List String) → extend_args args rules ≡ args ++ all_listeners (forwarded rules)
unfolding extend_args
extend_args_lem args [] = rw append-nil
extend_args_lem args (rule ∷ rules) = elim (Option-cases (gost_rule rule)) [
  | inl e ↦ rw e (extend_args_lem args rules)
  | inr (r, e) ↦ rw e (extend_args_lem (args ++ listeners r) rules ∙ rw append_assoc)
]

-- The client command is a TCP and a UDP listener for each rule that can be read, in their order,
-- and then the relay of the server.
pub generate_gost_client_command_lem :
    (t : Tunnel) (ip : String)
    → generate_gost_client_command t ip
      ≡ all_listeners (forwarded t.ports) ++ "-F" ∷ relay_url t ip ∷ []
unfolding generate_gost_client_command
generate_gost_client_command_lem t ip = rw (extend_args_lem [] t.ports)

with_target-some :
    (target : String) (o : Option ℤ) {p : ℤ} {u : String}
    → with_target target o ≡ some (p, u)
    → (o ≡ some p) × (u ≡ target) × ((target == "") ≡ false)
with_target-some target none h = absurd (ground arith)
with_target-some target (some q) h = ground arith

solid_eq : IsPlainCode b'='
unfolding is_space
solid_eq c h = ground arith

-- The port behind the last colon, or the whole text where there is no colon.
last_port :
    (left : String) → (if has b':' left then last_piece b':' left else left) ≡ last_piece b':' left
last_port left = elim (Bool-cases (has b':' left)) [
  | inl e ↦ rw e
  | inr e ↦ rw e (sym (last_piece_whole b':' left e))
]

rule_port_of_eq :
    (r : String)
    → has b'=' r ≡ true
    → rule_port r ≡ when_in_range (parse_int (last_piece b':' (strip (before b'=' r))))
unfolding rule_port
rule_port_of_eq r h =
    ap (λ l. when_in_range (parse_int l))
      (last_port (strip (before b'=' (strip r)))
        ∙ ap (last_piece b':') (strip-before-strip b'=' r solid_eq h))

-- A rule that GOST forwards is listened for on the port that the panel reads from it, which is a
-- port of TCP, and its target is the stripped text behind the first "=", which is not empty.
pub gost_rule_sound :
    (r : String) {p : ℤ} {target : String}
    → gost_rule r ≡ some (p, target)
    → (rule_port r ≡ some p) × IsPort p × (target ≡ strip (after b'=' r)) × ((target == "") ≡ false)
unfolding gost_rule
gost_rule_sound r {p} {target} h = elim (Bool-cases (has b'=' r)) [
  | inr e ↦ absurd (ground arith)
  | inl e ↦
      let port = when_in_range (parse_int (last_piece b':' (strip (before b'=' r)))) in
      let text = strip (after b'=' r) in
      let k : with_target text port ≡ some (p, target) = ground arith in
      let (found, same, full) = with_target-some text port k in
      (
        rule_port_of_eq r e ∙ found,
        when_in_range-IsPort (parse_int (last_piece b':' (strip (before b'=' r)))) found,
        same,
        rw same full,
      )
]

-- A rule without "=" gets no listener, whatever port it names.
pub gost_rule-bare : (r : String) → has b'=' r ≡ false → gost_rule r ≡ none
unfolding gost_rule
gost_rule-bare r h = rw h

-- The carrier of the relay is one that GOST knows.
pub gost_transport-known : (t : Tunnel) → contains transports (gost_transport t) ≡ true
unfolding gost_transport
gost_transport-known t = elim (Bool-cases (contains transports (lower t.transport))) [
  | inl e ↦ rw e e
  | inr e ↦ rw e (unfold contains in refl)
]
