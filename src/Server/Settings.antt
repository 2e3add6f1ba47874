-- ===== src/Server/Settings.antt =====
-- The settings routes of app/server.py.
use hawal.Base.{String, Option}
use hawal.Settings.{Dict, load_settings, save_settings, update}
use hawal.Base.Result.{ok}
use hawal.Server.{Action, Body, Event, ◌>>=◌, ◌>>◌, parsed, send_json, broadcast}

-- `load_settings()`, which writes a file that is not there.
unfoldable pub load : String → Action Dict
load secret w = let (d, file) = load_settings secret w.config in (ok d, record w { config = file })

unfoldable pub save : Dict → Action Unit
save d w = (ok tt, record w { config = save_settings d w.config })

-- `GET /api/settings`
unfoldable pub get_settings : String → Action Unit
unfolding load
get_settings secret = do current ← load secret; send_json 200 (Body.settings current)

-- `POST /api/settings`
unfoldable pub post_settings : String → Option Dict → Action Unit
unfolding load save
post_settings secret body = do
  current ← load secret
  new ← parsed body
  let merged = update current new
  save merged
  send_json 200 (Body.settings merged)
  broadcast Event.settings_updated
