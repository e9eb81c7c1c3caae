-- ===== src/Login.antt =====
-- The login: web/src/components/loginMemory.ts and web/src/components/LoginPage.tsx. JSON is a
-- codec of the browser, of which the client uses the text of a saved login and the fields of an
-- object.
pub mod Memory
mod Tests
use file_harbor.Base.{
  ℕ, suc, Bool, true, false, ◌&&◌, List, [], ◌∷◌, ◌++◌, Option, none, some, Text, codes, truthy,
  ◌≡◌, ◌==◌, if◌then◌else◌,
}
use file_harbor.Base.OrderedMap
use file_harbor.Base.Results.{error_key, Failure, api_error, js_error, other_value, Result, ok, err}
use file_harbor.Api.Records.{BrowserSession}
use file_harbor.Browser.{LocalStorage, get_item, set_item, remove_item}
use file_harbor.Routes.{trim}

pub record SavedLogin : Type 0 where
  pub username : Text
  pub password : Text

pub data JsonField : Type 0 where
  json_number : ℕ → JsonField
  json_text : Text → JsonField
  json_other : JsonField

-- A JSON text that parses: an object with its fields, or null or no object.
pub data Json : Type 0 where
  json_object : List (Text × JsonField) → Json
  json_no_object : Json

abbrev pub login_fields : SavedLogin → List (Text × JsonField)
login_fields login =
    (codes "version", json_number 1)
    ∷ (codes "username", json_text login.username)
    ∷ (codes "password", json_text login.password)
    ∷ []

-- `JSON.stringify` of a saved login and `JSON.parse`, which throws on other texts.
pub record JsonCodec : Type 0 where
  pub stringify : SavedLogin → Text
  pub parse : Text → Option Json
  -- The text of an object parses to its fields.
  pub parse-stringify :
      (login : SavedLogin) → parse (stringify login) ≡ some (json_object (login_fields login))
  -- The text of an object is not empty.
  pub stringify-truthy : (login : SavedLogin) → truthy (stringify login) ≡ true

pub data LoginMemory : Type 0 where
  nothing_saved memory_failed : LoginMemory
  login_saved : SavedLogin → LoginMemory

abbrev is_version_one : Option JsonField → Bool
is_version_one (some (json_number n)) = n == 1
is_version_one _ = false

abbrev text_field : Option JsonField → Text
text_field (some (json_text s)) = s
text_field _ = []

-- The tests of `readLoginMemory` on the parsed value.
unfoldable pub checked_login : Json → LoginMemory
unfolding OrderedMap.get
checked_login json_no_object = memory_failed
checked_login (json_object fields) =
    let username = text_field (OrderedMap.get (codes "username") fields) in
    let password = text_field (OrderedMap.get (codes "password") fields) in
    if is_version_one (OrderedMap.get (codes "version") fields)
      && truthy username
      && truthy password
    then login_saved (record { username = username; password = password })
    else memory_failed

abbrev parsed_login : Option Json → LoginMemory
parsed_login none = memory_failed
parsed_login (some json) = checked_login json

abbrev read_login : JsonCodec → Option (Option Text) → LoginMemory
read_login codec none = memory_failed
read_login codec (some none) = nothing_saved
read_login codec (some (some raw)) =
    if truthy raw then parsed_login (codec.parse raw) else nothing_saved

-- ``fileharbor.login.v1:${getRuntime().basePath || '/'}``
unfoldable pub memory_key : Text → Text
memory_key base_path =
    codes "fileharbor.login.v1:" ++ (if truthy base_path then base_path else codes "/")

pub record LoginValues : Type 0 where
  pub username : Text
  pub password : Text
  pub remember : Bool
  pub remember_password : Bool

-- `loginSchema`: the name is trimmed; neither may then be empty.
unfoldable pub validated : LoginValues → Option LoginValues
unfolding trim
validated values =
    if truthy (trim values.username) && truthy values.password
    then some (record values { username = trim values.username })
    else none

-- The page's state, with the storage, the session that it set and how often it went on.
pub record LoginPage : Type 0 where
  pub storage : LocalStorage
  pub memory_error : Option Text
  pub authenticated : Bool
  pub server_error : Option Text
  pub session : Option BrowserSession
  pub left : ℕ

abbrev pub memory_notice : LoginMemory → Option Text
memory_notice memory_failed = some (codes "login.memoryReadFailed")
memory_notice _ = none

-- What follows the write to the storage.
abbrev pub after_store : LoginPage → LoginValues → LocalStorage × Bool → LoginPage
after_store p values (s, true) = record p { storage = s; left = suc p.left }
after_store p values (s, false) = record p {
  storage = s;
  memory_error = some (
      if values.remember_password
      then codes "login.memorySaveFailed"
      else codes "login.memoryClearFailed");
}

-- `onSubmit` up to its await, and whether it asks the server.
unfoldable pub submit_begin : LoginPage → LoginPage × Bool
submit_begin p = if p.authenticated then (p, false) else (record p { server_error = none }, true)

module _ (codec : JsonCodec) (base_path : Text) where
  unfoldable pub read_login_memory : LocalStorage → LoginMemory
  unfolding get_item memory_key checked_login
  read_login_memory s = read_login codec (get_item s (memory_key base_path))

  unfoldable pub save_login_memory : LocalStorage → SavedLogin → LocalStorage × Bool
  unfolding set_item memory_key
  save_login_memory s login = set_item s (memory_key base_path) (codec.stringify login)

  unfoldable pub clear_login_memory : LocalStorage → LocalStorage × Bool
  unfolding remove_item memory_key
  clear_login_memory s = remove_item s (memory_key base_path)

  unfoldable pub open_page : LocalStorage → LoginPage
  unfolding read_login_memory
  open_page s = record {
    storage = s;
    memory_error = memory_notice (read_login_memory s);
    authenticated = false;
    server_error = none;
    session = none;
    left = 0;
  }

  -- `onSubmit` after its await.
  unfoldable pub submit_end : LoginPage → LoginValues → Result BrowserSession → LoginPage
  unfolding save_login_memory clear_login_memory
  submit_end p values (ok session) =
      after_store (record p { session = some session; authenticated = true }) values
        (if values.remember_password
          then save_login_memory p.storage
              (record { username = values.username; password = values.password })
          else clear_login_memory p.storage)
  submit_end p values (err e) = record p { server_error = some (error_key e) }
