-- ===== src/Server/Client/Named.antt =====
-- Which value a header has for the handlers of app/server.py.
use hawal.Base.{
  String, ◌≡◌, refl, sym, ap, ◌∙◌, arith, Bool, true, false, ◌||◌, Option, none, some, List, [],
  ◌∷◌, inl, inr,
}
use hawal.Base.Tests.{if◌then◌else◌, Bool-cases}
use hawal.Base.Eq.{◌==◌, string_eq}
use hawal.Base.Dict.{key_of, put}
use hawal.Base.Rows.{find_row-upsert}
use hawal.Base.Result.{Result, ok, err}
use hawal.Text.{strip, lower, before, after, has}
use hawal.Server.Agents.{Headers, header}
use hawal.Server.Client.{add_header, read_headers}

-- The name and the value of a line; none of a line without a colon.
abbrev pub named : String → Option (String × String)
named line =
    let header_line = strip line in
    if has b':' header_line
    then some (lower (strip (before b':' header_line)), strip (after b':' header_line))
    else none

abbrev pub is_end : String → Bool
is_end line = line == "" || line == "\r\n"

abbrev pub or_later : Option (String × String) → String → Option String → Option String
or_later o name (some v) = some v
or_later none name none = none
or_later (some (n, v)) name none = if n == name then some v else none

-- The value of the last line before the empty one that has the name.
abbrev pub last_named : String → List String → Option String
last_named name [] = none
last_named name (line ∷ lines) =
    let rest = last_named name lines in
    if is_end line then none else or_later (named line) name rest

abbrev pub or_first : Option String → Option String → Option String
or_first none d = d
or_first (some v) d = some v

header-put :
    (name k v : String) (h : Headers)
    → header name (put k v h) ≡ (if k == name then some v else header name h)
unfolding header put
header-put name k v h =
    ground (arith, find_row-upsert key_of name (k, v) (λ old. (old.0, v)) (λ x. refl) h)

header-add_header :
    (name line : String) (h : Headers)
    → header name (add_header line h) ≡ or_first (or_later (named line) name none) (header name h)
unfolding add_header
header-add_header name line h = elim (Bool-cases (has b':' (strip line))) [
  | inl e ↦ rw e (header-put name _ _ h ∙ ground arith)
  | inr e ↦ rw e refl
]

abbrev value_in : String → Result Headers → Option String
value_in name (ok h) = header name h
value_in name (err x) = none

first :
    (b : Bool) (x y : Result Headers) {r : Result Headers}
    → b ≡ true
    → (if b then x else y) ≡ r
    → x ≡ r
first true x y f e = e
first false x y f e = absurd (ground arith)

second :
    (b : Bool) (x y : Result Headers) {r : Result Headers}
    → b ≡ false
    → (if b then x else y) ≡ r
    → y ≡ r
second true x y f e = absurd (ground arith)
second false x y f e = e

later :
    (o : Option (String × String)) (name : String) (rest d : Option String)
    → or_first rest (or_first (or_later o name none) d) ≡ or_first (or_later o name rest) d
later o name (some v) d = refl
later o name none d = refl

-- Whatever the peer sends, a header that the handlers read has the value of the last of its lines
-- before the empty line; names are compared without white space and in lower case. A header
-- without a line is as it was.
pub header-read_headers :
    (name : String) (silent : Bool) (lines : List String) (h : Headers) {h' : Headers}
    → read_headers silent lines h ≡ ok h'
    → header name h' ≡ or_first (last_named name lines) (header name h)
unfolding read_headers
header-read_headers name silent [] h {h'} e = elim (Bool-cases silent) [
  | inl f ↦ absurd (ground (arith, e, f))
  | inr f ↦ ap (value_in name) (sym (second silent _ (ok h) f e))
]
header-read_headers name silent (line ∷ lines) h {h'} e = elim (Bool-cases (is_end line)) [
  | inl f ↦ rw f (ap (value_in name) (sym (first (is_end line) (ok h) _ f e)))
  | inr f ↦ rw f (
      header-read_headers name silent lines (add_header line h) {h' = h'}
        (second (is_end line) (ok h) _ f e)
      ∙ rw (header-add_header name line h)
          (later (named line) name (last_named name lines) (header name h)))
]
