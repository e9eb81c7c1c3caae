-- ===== src/Login/Tests.antt =====
-- A login that is remembered, with a codec that writes the length of the name before it.
use file_harbor.Base.{
  ◌≡◌, refl, ap, List, [], ◌∷◌, ◌++◌, true, false, Option, none, some, Text, codes, length, take,
  drop,
}
use file_harbor.Base.Results.{ok}
use file_harbor.Api.Records.{BrowserSession, en}
use file_harbor.Browser.{LocalStorage}
use file_harbor.Login.{
  SavedLogin, JsonCodec, Json, json_object, login_fields, login_saved, read_login_memory,
  LoginValues, validated, LoginPage, submit_end,
}
use file_harbor.Login.Memory.{login_remembered}

take-append {ℓ} : {A : Type ℓ} (xs ys : List A) → take (length xs) (xs ++ ys) ≡ xs
take-append [] ys = refl
take-append (x ∷ xs) ys = ap (x ∷◌) (take-append xs ys)

drop-append {ℓ} : {A : Type ℓ} (xs ys : List A) → drop (length xs) (xs ++ ys) ≡ ys
drop-append [] ys = refl
drop-append (x ∷ xs) ys = drop-append xs ys

abbrev written : SavedLogin → Text
written login = length login.username ∷ (login.username ++ login.password)

abbrev parsed : Text → Option Json
parsed [] = none
parsed (n ∷ rest) =
    some (json_object (login_fields (record { username = take n rest; password = drop n rest })))

parsed-written :
    (login : SavedLogin) → parsed (written login) ≡ some (json_object (login_fields login))
parsed-written login =
    rw (take-append login.username login.password, drop-append login.username login.password) refl

abbrev counting : JsonCodec
counting = record {
  stringify = written;
  parse = parsed;
  parse-stringify = parsed-written;
  stringify-truthy = λ login. refl;
}

abbrev empty_storage : LocalStorage
empty_storage = record { items = []; readable = true; writable = true }

abbrev values : LoginValues
values = record {
  username = codes "ann";
  password = codes "secret";
  remember = false;
  remember_password = true;
}

abbrev session : BrowserSession
session = record {
  username = codes "ann";
  csrf_token = codes "t";
  expires_at = [];
  base_path = codes "/";
  language = en;
  capabilities = record { browse = true; upload = true; mutate = true; editor_save = true };
}

abbrev page : LoginPage
page = record {
  storage = empty_storage;
  memory_error = none;
  authenticated = false;
  server_error = none;
  session = none;
  left = 0;
}

login_remembered_example :
    read_login_memory counting
      (codes "/app")
      (submit_end counting (codes "/app") page values (ok session)).storage
    ≡ login_saved (record { username = codes "ann"; password = codes "secret" })
login_remembered_example =
    login_remembered counting (codes "/app") page values session refl refl refl refl

-- A name of blanks is refused.
blank_name : validated (record values { username = codes "  " }) ≡ none
unfolding validated
blank_name = refl
