-- ===== src/Settings/Laws.antt =====
-- What is read back from the settings.
use hawal.Base.{String, ◌≡◌, refl, ◌∙◌, arith, Option, none, some, [], ◌∷◌, eq_iff, map, false}
use hawal.Base.Tests.{if◌then◌else◌}
use hawal.Base.Eq.{◌==◌, string_eq}
use hawal.Base.Lists.{contains, Distinct}
use hawal.Base.Rows.{find_row, find_row-upsert, Distinct-upsert, contains-map_key}
use hawal.Settings.{
  Value, text, Dict, key_of, get, put, update, default_settings, ConfigFile, absent, broken, stored,
  save_settings, load_settings,
}

pub get-put :
    (k j : String) (v : Value) (d : Dict) → get j (put k v d) ≡ (if k == j then some v else get j d)
unfolding get put
get-put k j v d = ground (arith, find_row-upsert key_of j (k, v) (λ old. (old.0, v)) (λ x. refl) d)

-- The value that a dict gives a key in the end: the last one that it lists.
abbrev pub or_value : Option Value → Option Value → Option Value
or_value none d = d
or_value (some v) d = some v

abbrev pub last_value : String → Dict → Option Value
last_value j [] = none
last_value j ((k, v) ∷ new) = or_value (last_value j new) (if k == j then some v else none)

pub get-update :
    (j : String) (new d : Dict) → get j (update d new) ≡ or_value (last_value j new) (get j d)
unfolding update
get-update j [] d = refl
get-update j ((k, v) ∷ new) d = get-update j new (put k v d) ∙ ground (arith, get-put k j v d)

get-cons :
    (j k : String) (v : Value) (d : Dict)
    → get j ((k, v) ∷ d) ≡ (if k == j then some v else get j d)
unfolding get find_row
get-cons j k v d = ground arith

get-absent : (k : String) (d : Dict) → contains (map key_of d) k ≡ false → get k d ≡ none
unfolding get
get-absent k d h = ground (arith, contains-map_key key_of k d)

-- In a dict without repeated keys the last value of a key is its value.
last_value_lem : (j : String) (d : Dict) → Distinct (map key_of d) → last_value j d ≡ get j d
last_value_lem j [] u = unfold get find_row in refl
last_value_lem j ((k, v) ∷ d) u =
    ground (arith, get-cons j k v d, last_value_lem j d u.1, get-absent k d u.0, eq_iff k j)

update-Distinct : (new d : Dict) → Distinct (map key_of d) → Distinct (map key_of (update d new))
unfolding update put
update-Distinct [] d u = u
update-Distinct ((k, v) ∷ new) d u =
    update-Distinct new (put k v d)
      (Distinct-upsert key_of key_of (k, v) (λ old. (old.0, v)) (λ x. refl) d (λ h. h) u)

Distinct-defaults : Distinct (map key_of default_settings)
unfolding contains
Distinct-defaults = (
  refl,
  (
    refl,
    (
      refl,
      (refl, (refl, (refl, (refl, (refl, (refl, (refl, (refl, (refl, (refl, (refl, tt))))))))))),
    ),
  ),
)

-- The settings that are loaded hold every default, overruled or not, and each key once.
record IsSettings (d : Dict) : Type 0 where
  unique : Distinct (map key_of d)
  covers : (j : String) → get j d ≡ none → get j default_settings ≡ none

load_settings-IsSettings :
    (secret : String) (file : ConfigFile) → IsSettings (load_settings secret file).0
unfolding load_settings
load_settings-IsSettings secret absent = record {
  unique = update-Distinct (("master_token", text secret) ∷ []) default_settings Distinct-defaults;
  covers = λ j h. ground (arith, get-put "master_token" j (text secret) default_settings);
}
load_settings-IsSettings secret broken = record { unique = Distinct-defaults; covers = λ j h. h }
load_settings-IsSettings secret (stored d) = record {
  unique = update-Distinct d default_settings Distinct-defaults;
  covers = λ j h. ground (arith, get-update j d default_settings);
}

-- After a change of the settings every key that the change names reads as it says, its last
-- mention counting, and every other key reads as before, whatever the file held.
pub load_settings-save_settings :
    (secret secret' j : String) (new : Dict) (file : ConfigFile)
    → let (current, file') = load_settings secret file in
      get j (load_settings secret' (save_settings (update current new) file')).0
      ≡ or_value (last_value j new) (get j current)
unfolding load_settings save_settings
load_settings-save_settings secret secret' j new file =
    let current = (load_settings secret file).0 in
    let s = load_settings-IsSettings secret file in
    ground (
      arith,
      get-update j (update current new) default_settings,
      last_value_lem j (update current new) (update-Distinct new current s.unique),
      get-update j new current,
      s.covers j,
    )
