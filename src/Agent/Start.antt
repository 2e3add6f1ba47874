-- ===== src/Agent/Start.antt =====
-- The start of app/static/js/agent.py: the panel's address, the token, the role and the name of the
-- node, from /etc/hawal/agent.json and the command line.
use hawal.Base.{
  String, ◌≡◌, ◌≢◌, refl, Bool, true, false, not, ◌||◌, Option, none, some, List, [], ◌∷◌, inl, inr,
}
use hawal.Base.Tests.{if◌then◌else◌, Bool-cases}
use hawal.Base.Eq.{◌==◌, string_eq}
use hawal.Base.Dict.{lookup}
use hawal.Text.{begins, rstrip_of}

pub record Choice : Type 0 where
  pub url : Option String
  pub token : Option String
  pub role : String
  pub name : String

abbrev pub or_text : Option String → String → String
or_text none d = d
or_text (some s) d = s

-- The file as a dict of texts; none is a file that is not there or cannot be read.
abbrev pub from_file : Option (List (String × String)) → Choice
from_file none = record { url = none; token = none; role = "kharej"; name = "Node" }
from_file (some cfg) = record {
  url = lookup "panel_url" cfg;
  token = lookup "token" cfg;
  role = or_text (lookup "role" cfg) "kharej";
  name = or_text (lookup "name" cfg) "Node";
}

-- The arguments behind the program's name.
abbrev pub with_role : List String → Choice → Choice
with_role [] c = c
with_role (role ∷ []) c = record c { role = role }
with_role (role ∷ name ∷ more) c = record c { role = role; name = name }

abbrev pub with_arguments : List String → Choice → Choice
with_arguments (url ∷ token ∷ more) c =
    if begins "http" url
    then with_role more (record c { url = some url; token = some token })
    else c
with_arguments args c = c

abbrev pub is_given : Option String → Bool
is_given none = false
is_given (some s) = not (s == "")

-- What the agent is made with: `panel_url.rstrip("/")`, the token, the role and the name; none is
-- `sys.exit(1)`.
unfoldable pub configured :
    Option (List (String × String)) → List String → Option (String × String × String × String)
unfolding lookup begins rstrip_of
configured file args =
    let c = with_arguments args (from_file file) in
    if not (is_given c.url) || not (is_given c.token)
    then none
    else some (rstrip_of b'/' (or_text c.url ""), or_text c.token "", c.role, c.name)

not_empty : (s : String) → s ≢ "" → (s == "") ≡ false
not_empty s full = elim (Bool-cases (s == "")) [
  | inl e ↦ absurd (full ((string_eq.same_iff s "").0 e))
  | inr e ↦ e
]

-- An address and a token on the command line are taken whatever the file says, if the address
-- begins with "http" and the token is not empty; what else the file says of role and name counts
-- where the command line does not give it.
pub configured-arguments :
    (file : Option (List (String × String))) (url token : String) (more : List String)
    → begins "http" url ≡ true
    → url ≢ ""
    → token ≢ ""
    → configured file (url ∷ token ∷ more) ≡ (
        let c = with_role more (from_file file) in some (rstrip_of b'/' url, token, c.role, c.name))
unfolding configured
configured-arguments file url token [] h u t = rw (h, not_empty url u, not_empty token t) refl
configured-arguments file url token (role ∷ []) h u t =
    rw (h, not_empty url u, not_empty token t) refl
configured-arguments file url token (role ∷ name ∷ more) h u t =
    rw (h, not_empty url u, not_empty token t) refl
