-- ===== src/Agent/Apply/Marker.antt =====
-- The markers by which the agent of app/static/js/agent.py knows what it started.
use hawal.Base.{ℕ, String, ◌<>◌, ◌≡◌, ◌≢◌, sym, ◌∙◌, ap, arith, true, false, inl, inr}
use hawal.Base.Tests.{Bool-cases, Option-cases}
use hawal.Base.Eq.{◌==◌, string_eq}
use hawal.Base.Dict.{lookup}
use hawal.Base.Int.{pos}
use hawal.Text.{drop_text, size}
use hawal.Text.Split.{drop_text-append}
use hawal.Text.Decimal.{show_nat, show_int, parse_int, parse_int-show_int}
use hawal.Agent.{Agent, Host}
use hawal.Agent.Apply.{marker, outdated}

append-cancel : (s x y : String) → s <> x ≡ s <> y → x ≡ y
append-cancel s x y h =
    sym (drop_text-append s x) ∙ ap (drop_text (size s)) h ∙ drop_text-append s y

show_nat-cancel : (n m : ℕ) → show_nat n ≡ show_nat m → n ≡ m
show_nat-cancel n m h =
    let same : show_int (pos n) ≡ show_int (pos m) = unfold show_int in h in
    let e = sym (parse_int-show_int (pos n)) ∙ ap parse_int same ∙ parse_int-show_int (pos m) in
    ground (arith, e)

marker-nonce : (content : String) (n m : ℕ) → marker content n ≡ marker content m → n ≡ m
unfolding marker
marker-nonce content n m h =
    show_nat-cancel n m (append-cancel "\0restart:" _ _ (append-cancel content _ _ h))

-- A new restart nonce is enough: a tunnel that is current under one nonce is outdated under every
-- other one, with the same content.
pub outdated-nonce :
    (h : Host) (tun_id content : String) (n m : ℕ) (a : Agent)
    → outdated h tun_id (marker content n) a ≡ false
    → m ≢ n
    → outdated h tun_id (marker content m) a ≡ true
unfolding outdated
outdated-nonce h tun_id content n m a v ne = elim (Option-cases (lookup tun_id a.configs)) [
  | inl e ↦ rw e (ground arith)
  | inr (c, e) ↦ elim (Bool-cases (c == marker content m)) [
    | inr f ↦ ground (arith, e)
    | inl f ↦ absurd (
        ne (
          marker-nonce content m n (
            ground (
              arith,
              e,
              string_eq.same_iff c (marker content m),
              string_eq.same_iff c (marker content n),
            ))))
  ]
]
