-- ===== src/Agent/Firewall.antt =====
-- The iptables rules of a Paqet server in app/static/js/agent.py. A rule's arguments are one text
-- with blanks between them.
pub mod Laws
use hawal.Base.{ℕ, zero, suc, ◌≤◌, String, ◌<>◌, ◌≡◌, refl, ◌∙◌, ap, ◌↔◌, arith, eq_iff, inl, inr}
use hawal.Base.{Bool, true, false, not, ◌&&◌, ◌||◌, Option, none, some, List, [], ◌∷◌, ◌++◌}
use hawal.Base.Tests.{if◌then◌else◌, Bool-cases, Option-cases}
use hawal.Base.Eq.{Eq, ◌==◌, string_eq}
use hawal.Base.Lists.{length, contains, contains-append}
use hawal.Base.Int.{ℤ}
use hawal.Base.Rows.{delete_where}
use hawal.Text.Decimal.{show_int}
use hawal.Item.{Role, server, client}

pub record Rule : Type 0 where
  pub table : String
  pub chain : String
  pub rule : String

abbrev pub same_rule : Rule → Rule → Bool
same_rule a b = a.table == b.table && a.chain == b.chain && a.rule == b.rule

pub same_rule_iff : (a b : Rule) → (same_rule a b ≡ true) ↔ (a ≡ b)
same_rule_iff a b =
    ground (arith, eq_iff a.table b.table, eq_iff a.chain b.chain, eq_iff a.rule b.rule)

instance abbrev pub rule_eq : Eq Rule
rule_eq = record { same = same_rule; same_iff = same_rule_iff }

-- The list `rules` of both functions.
unfoldable pub paqet_rules : Role → ℤ → List Rule
unfolding show_int
paqet_rules server core_port =
    record {
      table = "raw";
      chain = "PREROUTING";
      rule = "-p tcp --dport " <> show_int core_port <> " -j NOTRACK";
    }
    ∷ record {
      table = "raw";
      chain = "OUTPUT";
      rule = "-p tcp --sport " <> show_int core_port <> " -j NOTRACK";
    }
    ∷ record {
      table = "mangle";
      chain = "OUTPUT";
      rule = "-p tcp --sport " <> show_int core_port <> " --tcp-flags RST RST -j DROP";
    }
    ∷ []
paqet_rules client core_port = []

-- `iptables -D`: the first copy goes.
unfoldable pub remove_first : Rule → List Rule → List Rule
remove_first r [] = []
remove_first r (x ∷ xs) = let rest = remove_first r xs in if x == r then xs else x ∷ rest

-- `while self._iptables_rule("-D", …): pass`; a deletion fails once no copy is left.
unfoldable pub delete_loop : ℕ → Rule → List Rule → List Rule
unfolding contains remove_first
delete_loop zero r rules = rules
delete_loop (suc fuel) r rules =
    let rest = delete_loop fuel r (remove_first r rules) in if contains rules r then rest else rules

-- Each round takes a rule away, so the number of rules is fuel enough.
unfoldable pub delete_rule : Rule → List Rule → List Rule
unfolding delete_loop
delete_rule r rules = delete_loop (length rules) r rules

unfoldable pub delete_rules : List Rule → List Rule → List Rule
unfolding delete_rule
delete_rules [] rules = rules
delete_rules (r ∷ rs) rules = delete_rules rs (delete_rule r rules)

unfoldable pub cleanup_paqet_iptables : Role → ℤ → List Rule → List Rule
unfolding delete_rules paqet_rules
cleanup_paqet_iptables role core_port rules = delete_rules (paqet_rules role core_port) rules

module _ (refuses : Rule → Bool) where
  -- `-C`, and `-A` where the rule is missing; none where `-A` fails.
  unfoldable pub ensure_rule : Rule → List Rule → Option (List Rule)
  unfolding contains
  ensure_rule r rules =
      if contains rules r then some rules else if refuses r then none else some (rules ++ r ∷ [])

  unfoldable pub ensure_rules : List Rule → List Rule → Bool × List Rule
  unfolding ensure_rule
  ensure_rules [] rules = (true, rules)
  ensure_rules (r ∷ rs) rules = elim (ensure_rule r rules) [
    | none ↦ (false, rules)
    | some more ↦ ensure_rules rs more
  ]

  unfoldable pub configure_paqet_iptables : Role → ℤ → List Rule → Bool × List Rule
  unfolding ensure_rules
  configure_paqet_iptables role core_port rules =
      let (done, more) = ensure_rules (paqet_rules role core_port) rules in
      if done then (true, more) else (false, cleanup_paqet_iptables role core_port more)
