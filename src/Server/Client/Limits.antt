-- ===== src/Server/Client/Limits.antt =====
-- What `handle_client` of app/server.py lets through to the handlers.
use hawal.Base.{ℕ, zero, suc, ◌≤◌, String, ◌≡◌, refl, sym, ◌∙◌, ap, arith, Bool, true, false, ◌||◌}
use hawal.Base.{Option, none, some, List, [], ◌∷◌, inl, inr}
use hawal.Base.Tests.{leb, if◌then◌else◌, Bool-cases}
use hawal.Base.Eq.{◌==◌, string_eq}
use hawal.Base.Int.{ℤ, pos, negsuc, ltb_ℤ}
use hawal.Base.Result.{Result, ok, err, ◌>>=◌}
use hawal.Text.{strip, size, take_text}
use hawal.Text.Words.{words}
use hawal.Db.Valid.{IsValid}
use hawal.Server.{World, Body, send_json}
use hawal.Server.Agents.{Headers}
use hawal.Server.Route.{Outside}
use hawal.Ping.{PingResult}
use hawal.Server.Route.Safety.{route_request-IsValid}
use hawal.Server.Client.{
  made_of, read_line, Connection, Library, Incoming, dropped, raised, upgraded, too_large, routed,
  max_http_body_bytes, content_length, sized_body, read_limited, read_body, read_url, read_target,
  read_headers, read_rest, read_connection, read_request, act_on, handle_client,
}

size-take_text : (n : ℕ) (s : String) → leb n (size s) ≡ true → size (take_text n s) ≡ n
unfolding size take_text
size-take_text zero s h = refl
size-take_text (suc n) String.[] h = absurd (ground arith)
size-take_text (suc n) (String.◌∷◌ c s) h = ground (arith, size-take_text n s)

-- The body has the announced length, which is within the limit.
abbrev pub Within : Incoming → Type 0
Within (routed method path query headers body) =
    (content_length headers ≡ ok (pos (size body))) × (size body ≤ 1048576)
Within other = Unit

abbrev WithinResult : Result Incoming → Type 0
WithinResult (ok i) = Within i
WithinResult (err x) = Unit

within_bind :
    {A : Type 0} (r : Result A) (f : A → Result Incoming)
    → ((a : A) → r ≡ ok a → WithinResult (f a))
    → WithinResult (r >>= f)
within_bind (ok a) f k = k a refl
within_bind (err x) f k = tt

within_if :
    (b : Bool) (x y : Result Incoming)
    → (b ≡ true → WithinResult x)
    → (b ≡ false → WithinResult y)
    → WithinResult (if b then x else y)
within_if true x y f g = f refl
within_if false x y f g = g refl

abbrev size_of : Result String → ℕ
size_of (ok s) = size s
size_of (err x) = 0

module _ (l : Library) (c : Connection) where
  sized_body-size : (k : ℕ) (body : String) → sized_body l c (pos k) ≡ ok body → size body ≡ k
  unfolding size
  sized_body-size k body h = elim (Bool-cases (ltb_ℤ (pos 0) (pos k))) [
    | inl a ↦ elim (Bool-cases (leb k (size c.body))) [
      | inl e ↦ ap size_of (sym h) ∙ rw (a, e) (size-take_text k c.body e)
      | inr e ↦ absurd (ground (arith, a, e, h))
    ]
    | inr a ↦ ap size_of (sym h) ∙ rw a (ground (arith, a))
  ]

  abbrev outside_limit : ℤ → Bool
  outside_limit n = ltb_ℤ n (pos 0) || ltb_ℤ max_http_body_bytes n

  announced :
      (headers : Headers) (n : ℤ) (body : String)
      → content_length headers ≡ ok n
      → outside_limit n ≡ false
      → sized_body l c n ≡ ok body
      → (content_length headers ≡ ok (pos (size body))) × (size body ≤ 1048576)
  announced headers (negsuc n) body e f g = absurd (ground (arith, f))
  announced headers (pos n) body e f g =
      let s = sized_body-size n body g in (e ∙ rw s refl, ground (arith, s, f))

  limited_within :
      (method path : String) (query headers : Headers) (n : ℤ)
      → content_length headers ≡ ok n
      → WithinResult (read_limited l c method path query headers n)
  unfolding read_limited
  limited_within method path query headers n e =
      let finish = λ (body : String). ok (routed method path query headers body) in
      within_if (outside_limit n) (ok too_large) (sized_body l c n >>= finish) (λ f. tt)
        (λ f. within_bind (sized_body l c n) finish (λ body g. announced headers n body e f g))

  url_within :
      (method : String) (headers : Headers) (url : Option (String × Headers))
      → WithinResult (read_url l c method headers url)
  unfolding read_url read_body
  url_within method headers none = tt
  url_within method headers (some (path, query)) =
      within_if _ (ok (upgraded _ _)) (read_body l c method path query headers) (λ f. tt)
        λ f.
          within_bind (content_length headers) (read_limited l c method path query headers)
            (λ n e. limited_within method path query headers n e)

  rest_within : (parts lines : List String) → WithinResult (read_rest l c parts lines)
  unfolding read_rest read_target
  rest_within [] lines = tt
  rest_within (method ∷ []) lines = tt
  rest_within (method ∷ path ∷ more) lines =
      within_bind (read_headers c.silent lines []) (read_target l c method path)
        (λ headers f. url_within method headers (l.parse_url path))

  -- A request reaches its handler only with its whole body, of the announced length, which is
  -- 1 MiB at most, whatever the peer sends.
  pub read_request-Within : Within (read_request l c)
  unfolding read_request read_connection words
  read_request-Within = from (read_connection l c) whole
    where
      whole : WithinResult (read_connection l c)
      whole = within_bind (read_line c.silent c.lines) _ λ got e.
          within_if (got.0 == "") (ok dropped) (read_rest l c (words (strip got.0)) got.1) (λ f. tt)
            (λ f. rest_within (words (strip got.0)) got.1)

      from :
          (r : Result Incoming) → WithinResult r → Within (elim r [ ok i ↦ i | err x ↦ raised x ])
      from (ok i) v = v
      from (err x) v = tt

  act_on-IsValid :
      (o : Outside) (show : PingResult → Body) (i : Incoming) (w : World)
      → IsValid w.db
      → IsValid (act_on l o show c i w).db
  unfolding act_on send_json
  act_on-IsValid o show dropped w v = v
  act_on-IsValid o show (raised x) w v = v
  act_on-IsValid o show (upgraded sec_key dashboard) w v = v
  act_on-IsValid o show too_large w v = v
  act_on-IsValid o show (routed method path query headers body) w v =
      route_request-IsValid o show (made_of l c method path query headers body) w v

  -- Whatever a peer sends, a malformed or broken request included, the database stays valid.
  pub handle_client-IsValid :
      (o : Outside) (show : PingResult → Body) (w : World)
      → IsValid w.db
      → IsValid (handle_client l o show c w).db
  unfolding handle_client
  handle_client-IsValid o show w v = act_on-IsValid o show (read_request l c) w v
