-- ===== src/Ping/Loss.antt =====
-- Which number `run_ping` of app/ping_tool.py takes for the packet loss.
use Prim.Native.Char.{Char, code}
use text.Mathlib.TextLemmas.{append_assoc, nil-append, cons-append}
use hawal.Base.{
  ◌≡◌, refl, sym, ap, ◌∙◌, arith, String, ◌<>◌, Bool, true, false, ◌||◌, Option, none, some, inl,
  inr,
}
use hawal.Base.Tests.{eqb, if◌then◌else◌, Bool-cases}
use hawal.Base.Fixed.{Fixed, below}
use hawal.Text.{is, has, is_empty, is_space}
use hawal.Text.Words.{is_digits, all_digits}
use hawal.Ping.{
  exited, is_digit, span, skip, after_dot, fraction, percent, loss_at, rtt_at, search, fixed_of,
  or_all, loss_in, run_ping,
}

-- A blank comes before the first percent sign.
late : String → Bool
late String.[] = true
late (String.◌∷◌ c s) = if is c b'%' then false else (is c b' ' || late s)

late-span : (s : String) → late s ≡ true → late (span is_digit s).1 ≡ true
unfolding late span
late-span String.[] h = refl
late-span (String.◌∷◌ c s) h = ground (arith, late-span s)

late-skip : (s : String) → late s ≡ true → skip "%" s ≡ none
unfolding late skip
late-skip String.[] h = refl
late-skip (String.◌∷◌ c s) h = ground arith

late_either :
    (b : Bool) (front back decimals rest : String)
    → late back ≡ true
    → late rest ≡ true
    → late (after_dot front back (if b then none else some (decimals, rest))).1 ≡ true
late_either true front back decimals rest h k = h
late_either false front back decimals rest h k = k

late-fraction : (front s : String) → late s ≡ true → late (fraction front s (skip "." s)).1 ≡ true
unfolding late skip
late-fraction front String.[] h = refl
late-fraction front (String.◌∷◌ c s) h = elim (Bool-cases (eqb b'.' (code c))) [
  | inl e ↦ rw e (
      late_either (is_empty (span is_digit s).0) front (String.◌∷◌ c s) _ _ h
        (late-span s (ground arith)))
  | inr e ↦ rw e h
]

late-percent : (s : String) → late s ≡ true → percent s ≡ none
unfolding percent
late-percent s h = rw (late-skip s h) refl

late-loss_at : (s : String) → late s ≡ true → loss_at s ≡ none
unfolding loss_at
late-loss_at s h = elim (Bool-cases (is_empty (span is_digit s).0)) [
  | inl e ↦ rw e refl
  | inr e ↦ rw e (
      rw (late-percent _ (late-fraction (span is_digit s).0 (span is_digit s).1 (late-span s h)))
        refl)
]

late-append : (u t : String) → has b'%' u ≡ false → late (u <> " " <> t) ≡ true
unfolding late has
late-append String.[] t h = rw (nil-append (" " <> t), cons-append) refl
late-append (String.◌∷◌ c u) t h = rw cons-append (ground (arith, late-append u t))

search_skips :
    (c : Char) (s : String)
    → loss_at (String.◌∷◌ c s) ≡ none
    → search loss_at (String.◌∷◌ c s) ≡ search loss_at s
unfolding search
search_skips c s h = rw (h, search) refl

search-blank : (t : String) → search loss_at (" " <> t) ≡ search loss_at t
unfolding late
search-blank t =
    rw (cons-append " " "" t, nil-append t)
      (search_skips " " t (late-loss_at (String.◌∷◌ " " t) refl))

search-append :
    (u t : String) → has b'%' u ≡ false → search loss_at (u <> " " <> t) ≡ search loss_at t
unfolding has
search-append String.[] t h = rw (nil-append (" " <> t)) (search-blank t)
search-append (String.◌∷◌ c u) t h =
    rw (cons-append c u (" " <> t)) (
      search_skips c (u <> " " <> t) (
        ap loss_at (sym (cons-append c u (" " <> t)))
        ∙ late-loss_at (String.◌∷◌ c u <> " " <> t) (late-append (String.◌∷◌ c u) t h)))
    ∙ search-append u t (ground arith)

span-append :
    (w s : String)
    → all_digits w ≡ true
    → span is_digit s ≡ ("", s)
    → span is_digit (w <> s) ≡ (w, s)
unfolding span all_digits
span-append String.[] s h e = rw (nil-append s) e
span-append (String.◌∷◌ c w) s h e =
    let h' : is_digit c ≡ true = ground arith in
    rw (cons-append c w s, span-append w s (ground arith) e, h') refl

skip-append : (p s : String) → skip p (p <> s) ≡ some s
unfolding skip
skip-append String.[] s = rw (nil-append s) refl
skip-append (String.◌∷◌ c p) s = rw (cons-append c p s) (ground (arith, skip-append p s))

-- Its characters, as far as the pattern looks at them one by one.
sign :
    (rest : String)
    → "% packet loss" <> rest
      ≡ String.◌∷◌ "%" (String.◌∷◌ " " ("packet" <> String.◌∷◌ " " ("loss" <> rest)))
sign rest =
    cons-append "%" " packet loss" rest
    ∙ ap (String.◌∷◌ "%") (
        cons-append " " "packet loss" rest
        ∙ ap (String.◌∷◌ " ") (
            append_assoc "packet" " loss" rest
            ∙ ap (λ s. "packet" <> s) (cons-append " " "loss" rest)))

span-letter :
    (c : Char) (s rest : String)
    → is_space c ≡ false
    → span is_space (String.◌∷◌ c s <> rest) ≡ ("", String.◌∷◌ c s <> rest)
unfolding span
span-letter c s rest h = rw (cons-append c s rest, h) refl

percent-sign : (rest : String) → percent ("% packet loss" <> rest) ≡ some rest
unfolding percent span is_space
percent-sign rest =
    let rest' = String.◌∷◌ " " ("loss" <> rest) in
    rw
      (
        sign rest,
        span-letter "p" "acket" rest' refl,
        skip-append "packet" rest',
        span-letter "l" "oss" rest refl,
        skip-append "loss" rest,
      )
      refl

digits-sign :
    (rest : String) → span is_digit ("% packet loss" <> rest) ≡ ("", "% packet loss" <> rest)
unfolding span
digits-sign rest = rw (cons-append "%" " packet loss" rest) refl

skip_dot-sign : (rest : String) → skip "." ("% packet loss" <> rest) ≡ none
unfolding skip
skip_dot-sign rest = rw (cons-append "%" " packet loss" rest) refl

loss_at-digits :
    (w rest : String) → is_digits w ≡ true → loss_at (w <> "% packet loss" <> rest) ≡ some w
unfolding loss_at is_digits
loss_at-digits w rest h =
    let full : is_empty w ≡ false = ground arith in
    rw (span-append w ("% packet loss" <> rest) (ground arith) (digits-sign rest), full)
      (rw (skip_dot-sign rest) (rw (percent-sign rest) refl))

search-found : (s w : String) → loss_at s ≡ some w → search loss_at s ≡ some w
unfolding search
search-found String.[] w h = h
search-found (String.◌∷◌ c s) w h = rw (h, search) refl

-- If ping ends without its line of times, in its output the first percent sign belongs to a text of
-- digits between a blank and " packet loss", and these digits are the number n, then the result says
-- that n percent were lost, and it counts as a success exactly if the return code was 0 or n is
-- below 100.
pub run_ping-loss :
    (target : Option String) (ok : Bool) (front number rest : String) (n : Fixed)
    → has b'%' front ≡ false
    → is_digits number ≡ true
    → fixed_of number ≡ some n
    → search rtt_at (front <> " " <> number <> "% packet loss" <> rest) ≡ none
    → let r = run_ping target (exited ok (front <> " " <> number <> "% packet loss" <> rest)) in
      (r.packet_loss ≡ n) × (r.success ≡ (ok || below n 100))
unfolding run_ping
run_ping-loss target ok front number rest n h d f t =
    let found : search loss_at (front <> " " <> number <> "% packet loss" <> rest) ≡ some number =
      search-append front (number <> "% packet loss" <> rest) h
      ∙ search-found (number <> "% packet loss" <> rest) number (loss_at-digits number rest d) in
    let lost : loss_in (some number) ≡ n = ap or_all f in rw (t, found, lost) (refl, refl)
