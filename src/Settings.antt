-- ===== src/Settings.antt =====
-- app/config.py: the settings, the file that keeps them, and the master token.
pub mod Laws
use hawal.Base.{String, Bool, true, false, Option, none, some, List, [], ◌∷◌}
use hawal.Base.Eq.{◌==◌, string_eq}
use hawal.Base.Int.{ℤ, pos}
use hawal.Base.Rows.{find_row, upsert}

-- A JSON value of the settings.
pub data Value : Type 0 where
  text : String → Value
  num : ℤ → Value
  flag : Bool → Value

-- A dict in the order of insertion.
abbrev pub Dict : Type 0
Dict = List (String × Value)

abbrev pub key_of : String × Value → String
key_of p = p.0

abbrev pub value_of : Option (String × Value) → Option Value
value_of none = none
value_of (some p) = some p.1

unfoldable pub get : String → Dict → Option Value
unfolding find_row
get k d = value_of (find_row key_of k d)

-- `d[k] = v`
unfoldable pub put : String → Value → Dict → Dict
unfolding upsert
put k v d = upsert key_of (k, v) (λ old. (old.0, v)) d

-- `d.update(new)`
unfoldable pub update : Dict → Dict → Dict
unfolding put
update d [] = d
update d ((k, v) ∷ new) = update (put k v d) new

abbrev pub default_settings : Dict
default_settings =
    ("app_name", text "Hawal Tunnel (\u{647}\u{647}\u{200c}\u{648}\u{627}\u{6b5})")
    ∷ ("panel_port", num (pos 9090))
    ∷ ("panel_host", text "0.0.0.0")
    ∷ ("public_panel_url", text "")
    ∷ ("default_transport", text "ws")
    ∷ ("default_mux_con", num (pos 8))
    ∷ ("default_keepalive", num (pos 75))
    ∷ ("default_channel_size", num (pos 2048))
    ∷ ("enable_bbr_auto", flag true)
    ∷ ("enable_snappy", flag true)
    ∷ ("mtu_clamp", num (pos 1360))
    ∷ ("docker_image", text "hawal/node:latest")
    ∷ ("sync_interval_sec", num (pos 3))
    ∷ ("master_token", text "")
    ∷ []

-- The file at CONFIG_PATH: not there, not readable as JSON, or a dict.
pub data ConfigFile : Type 0 where
  absent : ConfigFile
  broken : ConfigFile
  stored : Dict → ConfigFile

unfoldable pub save_settings : Dict → ConfigFile → ConfigFile
save_settings d file = stored d

-- `secret` is the token that `secrets.token_hex(16)` would return.
unfoldable pub load_settings : String → ConfigFile → Dict × ConfigFile
unfolding put update save_settings
load_settings secret absent =
    let settings = put "master_token" (text secret) default_settings in
    (settings, save_settings settings absent)
load_settings secret broken = (default_settings, broken)
load_settings secret (stored d) = (update default_settings d, stored d)
