-- ===== src/Server/Client.antt =====
-- `handle_client` of app/server.py: how a request is read off its connection, and what is refused
-- before a handler runs. Lines and body are texts, one character for a byte; `urlparse` with
-- `parse_qs`, and the reading of a body as JSON, are what the standard library answers.
pub mod Limits
pub mod Named
use hawal.Base.{ℕ, String, Bool, true, false, not, ◌&&◌, ◌||◌, Option, none, some, List, [], ◌∷◌}
use hawal.Base.Tests.{leb, if◌then◌else◌}
use hawal.Base.Eq.{◌==◌, string_eq}
use hawal.Base.Dict.{put}
use hawal.Base.Int.{ℤ, pos, ltb_ℤ, pos_part}
use hawal.Base.Result.{Result, ok, err, Raised, ◌>>=◌}
use hawal.Text.{strip, lower, before, after, has, size, take_text}
use hawal.Text.Words.{words}
use hawal.Text.Decimal.{parse_int}
use hawal.Server.{World, Body, send_json, caught}
use hawal.Server.Agents.{Headers, header, or_empty}
use hawal.Server.Route.{Request, Reading, Outside, route_request}
use hawal.Ping.{PingResult}

abbrev pub max_http_body_bytes : ℤ
max_http_body_bytes = pos 1048576

-- What a peer sends: the lines that `readline` answers, whether the peer then falls silent (the
-- deadline passes) or closes its end, and the bytes behind the headers.
pub record Connection : Type 0 where
  pub peer : String
  pub lines : List String
  pub silent : Bool
  pub body : String

pub record Library : Type 0 where
  pub parse_url : String → Option (String × Headers)
  pub read_json : String → Reading

-- What `handle_client` makes of a connection.
pub data Incoming : Type 0 where
  -- closed without an answer
  dropped : Incoming
  raised : Raised → Incoming
  -- the handshake of a WebSocket, and whether the dashboard's loop follows
  upgraded : String → Bool → Incoming
  too_large : Incoming
  routed : String → String → Headers → Headers → String → Incoming

-- `await wait_for(reader.readline(), …)`; the empty text is the end of the stream.
abbrev pub read_line : Bool → List String → Result (String × List String)
read_line silent (l ∷ ls) = ok (l, ls)
read_line true [] = err Raised.timeout_error
read_line false [] = ok ("", [])

unfoldable pub add_header : String → Headers → Headers
unfolding strip lower before after has
add_header line headers =
    let header_line = strip line in
    if has b':' header_line
    then put (lower (strip (before b':' header_line))) (strip (after b':' header_line)) headers
    else headers

-- The loop over the header lines.
unfoldable pub read_headers : Bool → List String → Headers → Result Headers
read_headers silent [] headers = if silent then err Raised.timeout_error else ok headers
read_headers silent (line ∷ lines) headers =
    let rest = read_headers silent lines (add_header line headers) in
    if line == "" || line == "\r\n" then ok headers else rest

-- `int(headers.get("content-length", 0))`
abbrev pub or_value_error : Option ℤ → Result ℤ
or_value_error none = err Raised.value_error
or_value_error (some n) = ok n

abbrev pub content_length : Headers → Result ℤ
content_length headers = elim (header "content-length" headers) [
  | none ↦ ok (pos 0)
  | some s ↦ or_value_error (parse_int s)
]

-- `reader.readexactly(n)`
abbrev pub read_exactly : Connection → ℕ → Result String
read_exactly c n =
    if leb n (size c.body)
    then ok (take_text n c.body)
    else err (if c.silent then Raised.timeout_error else Raised.incomplete_read_error)

module _ (l : Library) where
  -- The body, if its announced length is within the limit.
  abbrev pub sized_body : Connection → ℤ → Result String
  sized_body c n = if ltb_ℤ (pos 0) n then read_exactly c (pos_part n) else ok ""

  unfoldable pub read_limited :
      Connection → String → String → Headers → Headers → ℤ → Result Incoming
  read_limited c method path query headers n =
      if ltb_ℤ n (pos 0) || ltb_ℤ max_http_body_bytes n
      then ok Incoming.too_large
      else sized_body c n >>= λ body. ok (Incoming.routed method path query headers body)

  -- Behind the check for a WebSocket.
  unfoldable pub read_body : Connection → String → String → Headers → Headers → Result Incoming
  read_body c method path query headers =
      content_length headers >>= read_limited c method path query headers

  abbrev pub is_upgrade : Headers → Bool
  is_upgrade headers = lower (or_empty (header "upgrade" headers)) == "websocket"

  unfoldable pub read_url :
      Connection → String → Headers → Option (String × Headers) → Result Incoming
  read_url c method headers none = err Raised.value_error
  read_url c method headers (some (raw_path, query)) =
      let sec_key = or_empty (header "sec-websocket-key" headers) in
      if is_upgrade headers && not (sec_key == "")
      then ok (Incoming.upgraded sec_key (raw_path == "/ws"))
      else read_body c method raw_path query headers

  unfoldable pub read_target : Connection → String → String → Headers → Result Incoming
  read_target c method path headers = read_url c method headers (l.parse_url path)

  unfoldable pub read_rest : Connection → List String → List String → Result Incoming
  read_rest c (method ∷ path ∷ more) lines = do
    headers ← read_headers c.silent lines []
    read_target c method path headers
  read_rest c req_parts lines = ok Incoming.dropped

  unfoldable pub read_connection : Connection → Result Incoming
  unfolding words
  read_connection c = do
    got ← read_line c.silent c.lines
    if got.0 == "" then ok Incoming.dropped else read_rest c (words (strip got.0)) got.1

  unfoldable pub read_request : Connection → Incoming
  read_request c = elim (read_connection c) [ ok i ↦ i | err x ↦ Incoming.raised x ]

  abbrev pub made_of : Connection → String → String → Headers → Headers → String → Request
  made_of c method path query headers body = record {
    method = method;
    path = path;
    query = query;
    headers = headers;
    peer = c.peer;
    reading = l.read_json body;
  }

  -- The rest of the handler, by what was read.
  unfoldable pub act_on : Outside → (PingResult → Body) → Connection → Incoming → World → World
  act_on o show c Incoming.dropped w = w
  act_on o show c (Incoming.raised x) w = caught (err x) w
  act_on o show c (Incoming.upgraded sec_key dashboard) w = w
  act_on o show c Incoming.too_large w =
      let (done, w') = send_json 413 (Body.error "request body too large") w in w'
  act_on o show c (Incoming.routed method path query headers body) w =
      route_request o show (made_of c method path query headers body) w

  unfoldable pub handle_client : Outside → (PingResult → Body) → Connection → World → World
  unfolding read_request
  handle_client o show c w = act_on o show c (read_request c) w
