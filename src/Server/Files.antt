-- ===== src/Server/Files.antt =====
-- The path of a static file and the address in the installer's script, app/server.py.
use hawal.Base.{String, ◌<>◌, ◌≡◌, refl, ◌∙◌, ap, true, ◌||◌}
use hawal.Base.{Option, none, some}
use hawal.Base.Tests.{if◌then◌else◌}
use hawal.Base.Eq.{◌==◌, string_eq}
use hawal.Base.Int.{ℤ}
use hawal.Base.Result.{Raised}
use hawal.Text.{begins, ends, drop_text, strip, rstrip_of}
use hawal.Text.{size}
use hawal.Text.Decimal.{show_int}
use hawal.Text.Split.{drop_text-append}
use hawal.Settings.{Value, text, get}
use hawal.Server.{Action, Body, ◌>>=◌, pure, raise, send_json, or_default}
use hawal.Server.Settings.{load}
use hawal.Server.Agents.{Headers, header, or_else}

-- `os.path.join(a, b)` of POSIX: an absolute second path stands for itself.
unfoldable pub os_join : String → String → String
unfolding begins ends
os_join a b = if begins "/" b then b else if a == "" || ends "/" a then a <> b else a <> "/" <> b

-- The file of `GET /static/…`: `path.replace("/static/", "", 1)` of a path that begins so.
unfoldable pub static_path : String → String → String
unfolding os_join drop_text
static_path static_dir path = os_join static_dir (drop_text 8 path)

static_rest : (p : String) → drop_text 8 ("/static/" <> p) ≡ p
static_rest p = ap (λ n. drop_text n ("/static/" <> p)) eight ∙ drop_text-append "/static/" p
  where
    eight : 8 ≡ size "/static/"
    eight = unfold size in refl

-- An absolute path behind "/static/" is opened as it is, outside the folder of static files: any
-- file that the panel can read is served.
pub static_path-escapes :
    (static_dir p : String) → begins "/" p ≡ true → static_path static_dir ("/static/" <> p) ≡ p
unfolding static_path
static_path-escapes static_dir p h = rw (static_rest p) (rw h)

abbrev pub as_text : Option Value → Action String
as_text none = pure ""
as_text (some (text s)) = pure s
as_text (some v) = raise Raised.attribute_error

-- `serve_node_installer`: the token, the role, the name and the panel's address of the script.
unfoldable pub serve_node_installer : String → ℤ → Headers → Headers → Action Unit
unfolding header load get strip rstrip_of show_int
serve_node_installer secret port query h = do
  settings ← load secret
  url ← as_text (get "public_panel_url" settings)
  let host = or_default (header "host" h) ("127.0.0.1:" <> show_int port)
  let panel_url = or_else (rstrip_of b'/' (strip url)) ("http://" <> host)
  send_json 200 (
      Body.installer (or_default (header "token" query) "")
        (or_default (header "role" query) "kharej") (or_default (header "name" query) "Auto Node")
        panel_url)
