-- ===== src/Tests/Clients.antt =====
-- The theorems on the reading of requests.
use hawal.Base.{◌≡◌, refl, false, String, none, some, List, [], ◌∷◌}
use hawal.Base.Result.{ok}
use hawal.Text.{is_space}
use hawal.Base.Dict.{put}
use hawal.Server.Agents.{Headers, header}
use hawal.Server.Client.{Connection, Library, add_header, read_headers, read_request}
use hawal.Server.Client.Limits.{Within, read_request-Within}
use hawal.Server.Client.Named.{last_named, or_first, header-read_headers}
use hawal.Tests.Data.{reading}

abbrev pub library : Library
library = record { parse_url = λ path. some (path, []); read_json = λ body. reading none }

abbrev header_lines : List String
header_lines =
    "Content-Length: 5\r\n" ∷ "content-length : 2000000\r\n" ∷ "\r\n" ∷ "Late: 1\r\n" ∷ []

abbrev big : Connection
big = record {
  peer = "1.2.3.4";
  lines = "POST /api/tunnels HTTP/1.1\r\n" ∷ header_lines;
  silent = false;
  body = "{}";
}

abbrev pub small : Connection
small = record big {
  lines = "POST /api/tunnels HTTP/1.1\r\n" ∷ "Content-Length: 2\r\n" ∷ "\r\n" ∷ [];
}

abbrev headers : Headers
headers = ("content-length", "2000000") ∷ []

all_read : read_headers false header_lines [] ≡ ok headers
unfolding read_headers add_header is_space put
all_read = refl

header-read_headers_example :
    header "content-length" headers
    ≡ or_first (last_named "content-length" header_lines) (header "content-length" [])
header-read_headers_example =
    header-read_headers "content-length" false header_lines [] {h' = headers} all_read

read_request-Within_example : Within (read_request library small)
read_request-Within_example = read_request-Within library small
