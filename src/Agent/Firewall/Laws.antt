-- ===== src/Agent/Firewall/Laws.antt =====
-- What the rules of a Paqet server are after they are set and after they are removed.
use hawal.Base.{ℕ, zero, suc, ◌≤◌, ◌≡◌, refl, ◌∙◌, arith, inl, inr}
use hawal.Base.{Bool, true, false, not, ◌&&◌, ◌||◌, some, List, [], ◌∷◌}
use hawal.Base.Tests.{if◌then◌else◌, Bool-cases, Option-cases}
use hawal.Base.Eq.{◌==◌}
use hawal.Base.Lists.{length, contains, contains-append}
use hawal.Base.Int.{ℤ}
use hawal.Item.{Role}
use hawal.Agent.Firewall.{
  Rule, rule_eq, same_rule_iff, paqet_rules, remove_first, delete_loop, delete_rule, delete_rules,
  cleanup_paqet_iptables, ensure_rule, ensure_rules, configure_paqet_iptables,
}

length-remove_first :
    (r : Rule) (rules : List Rule)
    → contains rules r ≡ true
    → suc (length (remove_first r rules)) ≡ length rules
unfolding contains remove_first
length-remove_first r [] h = absurd (ground arith)
length-remove_first r (x ∷ xs) h = ground (arith, length-remove_first r xs)

contains-remove_first :
    (r x : Rule) (rules : List Rule)
    → (r == x) ≡ false
    → contains (remove_first r rules) x ≡ contains rules x
unfolding contains remove_first
contains-remove_first r x [] ne = refl
contains-remove_first r x (y ∷ ys) ne =
    ground
      (arith, contains-remove_first r x ys, same_rule_iff y r, same_rule_iff y x, same_rule_iff r x)

contains-delete_loop :
    (fuel : ℕ) (r x : Rule) (rules : List Rule)
    → length rules ≤ fuel
    → contains (delete_loop fuel r rules) x ≡ (contains rules x && not (r == x))
unfolding delete_loop
contains-delete_loop zero r x [] h = unfold contains in refl
contains-delete_loop zero r x (y ∷ ys) h = absurd (omega arith)
contains-delete_loop (suc fuel) r x rules h = elim (Bool-cases (contains rules r)) [
  | inl e ↦ rw e (
      contains-delete_loop fuel r x (remove_first r rules)
        (omega (arith, length-remove_first r rules e))
      ∙ kept (contains-remove_first r x rules))
  | inr e ↦ rw e (ground (arith, same_rule_iff r x))
]
  where
    kept :
        ((r == x) ≡ false → contains (remove_first r rules) x ≡ contains rules x)
        → (contains (remove_first r rules) x && not (r == x)) ≡ (contains rules x && not (r == x))
    kept k = elim (Bool-cases (r == x)) [ inl e ↦ rw e (ground arith) | inr e ↦ rw (e, k e) refl ]

contains-delete_rules :
    (rs rules : List Rule) (x : Rule)
    → contains (delete_rules rs rules) x ≡ (contains rules x && not (contains rs x))
unfolding delete_rules delete_rule
contains-delete_rules [] rules x = unfold contains in ground arith
contains-delete_rules (r ∷ rs) rules x =
    contains-delete_rules rs (delete_rule r rules) x
    ∙ unfold contains in ground (arith, contains-delete_loop (length rules) r x rules (omega arith))

-- The removal of a tunnel's rules takes away every copy of each of them and no other rule.
pub cleanup_paqet_iptables_exact :
    (role : Role) (core_port : ℤ) (rules : List Rule) (x : Rule)
    → contains (cleanup_paqet_iptables role core_port rules) x
      ≡ (contains rules x && not (contains (paqet_rules role core_port) x))
unfolding cleanup_paqet_iptables
cleanup_paqet_iptables_exact role core_port rules x =
    contains-delete_rules (paqet_rules role core_port) rules x

module _ (refuses : Rule → Bool) where
  contains-ensure_rule :
      (r : Rule) (rules : List Rule) (x : Rule) {more : List Rule}
      → ensure_rule refuses r rules ≡ some more
      → contains more x ≡ (contains rules x || r == x)
  unfolding ensure_rule contains
  contains-ensure_rule r rules x {more} h =
      ground (arith, contains-append rules (r ∷ []) x, same_rule_iff r x)

  -- What one of the rules does with a failure and without one.
  contains-ensure_rules :
      (rs rules : List Rule) (x : Rule)
      → let (done, more) = ensure_rules refuses rs rules in
        (done ≡ true → contains more x ≡ (contains rules x || contains rs x))
        × ((contains more x && not (contains rs x)) ≡ (contains rules x && not (contains rs x)))
  unfolding ensure_rules
  contains-ensure_rules [] rules x = unfold contains in (λ h. ground arith, refl)
  contains-ensure_rules (r ∷ rs) rules x = elim (Option-cases (ensure_rule refuses r rules)) [
    | inl e ↦ rw (e, ensure_rules) ((λ h. absurd (ground arith)), refl)
    | inr (more, e) ↦
        let added = contains-ensure_rule r rules x e in
        let (all, rest) = contains-ensure_rules rs more x in
        rw (e, ensure_rules)
          (
            (λ h. all h ∙ unfold contains in ground (arith, added)),
            unfold contains in ground (arith, added, rest),
          )
  ]

  -- The rules of a tunnel are all there after a success; after a failure none of them is, and in
  -- both cases every other rule is as it was.
  pub configure_paqet_iptables_exact :
      (role : Role) (core_port : ℤ) (rules : List Rule) (x : Rule)
      → let (done, more) = configure_paqet_iptables refuses role core_port rules in
        let own = contains (paqet_rules role core_port) x in
        contains more x ≡ (if done then contains rules x || own else contains rules x && not own)
  unfolding configure_paqet_iptables
  configure_paqet_iptables_exact role core_port rules x =
      let (all, rest) = contains-ensure_rules (paqet_rules role core_port) rules x in
      let more = (ensure_rules refuses (paqet_rules role core_port) rules).1 in
      elim (Bool-cases (ensure_rules refuses (paqet_rules role core_port) rules).0) [
        | inl e ↦ rw e (all e)
        | inr e ↦ rw e (cleanup_paqet_iptables_exact role core_port more x ∙ rest)
      ]
