-- ===== src/PendingInvites/Users.antt =====
-- The users of a run: those of the command line, and those of a homeserver.yaml.
use synapse_guardian.Prelude.{
  Bool, false, List, [], ◌∷◌, Option, none, some, if◌then◌else◌, Text, codes, text_eq, take, length,
}
use synapse_guardian.Prelude.Result.{Result, ok, err}
use synapse_guardian.Value.{
  Value, str, arr, obj, Items, nil, cons, Fields, end, field, get, get_or, truthy,
}
use synapse_guardian.Config.{set_or_none}
use synapse_guardian.PendingInvites.{Stopped, system_exit, attribute_error, type_error}

-- str(v).startswith("synapse_guardian"); no other value is written with these letters first
unfoldable pub names_module : Value → Bool
names_module (str name) =
    text_eq (take (length (codes "synapse_guardian")) name) (codes "synapse_guardian")
names_module _ = false

unfoldable pub characters : Text → Items
characters [] = nil
characters (c ∷ s) = cons (str (c ∷ [])) (characters s)

unfoldable pub keys : Fields → Items
keys end = nil
keys (field k v rest) = cons (str k) (keys rest)

-- list(v or [])
unfoldable pub list_of : Value → Result Stopped Items
list_of (arr items) = ok items
list_of (str s) = ok (characters s)
list_of (obj m) = ok (keys m)
list_of v = if truthy v then err type_error else ok nil

-- (v or {}).get("protected_users"), and the list of it
unfoldable pub protected_in : Value → Result Stopped Items
protected_in (obj config) = list_of (get (codes "protected_users") config)
protected_in v = if truthy v then err attribute_error else ok nil

-- the loop over the modules
unfoldable pub users_among : Items → Result Stopped Items
users_among nil = err (system_exit (codes "no guardian module found in config"))
users_among (cons (obj entry) items) =
    let later = users_among items in
    if names_module (get_or (codes "module") (str []) entry)
    then protected_in (get (codes "config") entry)
    else later
users_among (cons _ items) = err attribute_error

-- `users_from_config`, of the mapping that the file holds
unfoldable pub users_from_config : Value → Result Stopped Items
users_from_config (obj cfg) = elim (get_or (codes "modules") (arr nil) cfg) [
  | arr modules ↦ users_among modules
  | obj end ↦ users_among nil
  | str [] ↦ users_among nil
  | obj (field k v rest) ↦ err attribute_error
  | str (c ∷ s) ↦ err attribute_error
  | _ ↦ err type_error
]
users_from_config _ = err attribute_error

-- the admin's token: the argument, or the environment's
unfoldable pub chosen_token : Option Text → Option Text → Result Stopped Text
chosen_token argument environment = elim (set_or_none argument) [
  | some token ↦ ok token
  | none ↦ elim (set_or_none environment) [
    | some token ↦ ok token
    | none ↦ err (system_exit (codes "no admin token"))
  ]
]

unfoldable pub joined : List Text → Items → Items
joined [] items = items
joined (user ∷ users) items = cons (str user) (joined users items)

abbrev pub some_users : Items → Result Stopped Items
some_users nil = err (system_exit (codes "no users given"))
some_users (cons v items) = ok (cons v items)

-- the users of the arguments, and of the file that `--config` names, if it is given
unfoldable pub chosen_users : List Text → Option Value → Result Stopped Items
chosen_users arguments none = some_users (joined arguments nil)
chosen_users arguments (some config) = elim (users_from_config config) [
  | err why ↦ err why
  | ok items ↦ some_users (joined arguments items)
]
