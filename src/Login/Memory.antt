-- ===== src/Login/Memory.antt =====
-- A login that was saved is offered again.
use file_harbor.Base.{◌≡◌, refl, Bool, true, false, some, Text, truthy, ===_refl, if◌then◌else◌}
use file_harbor.Base.OrderedMap
use file_harbor.Base.OrderedMap.{get-put, get-delete}
use file_harbor.Base.Results.{ok}
use file_harbor.Api.Records.{BrowserSession}
use file_harbor.Browser.{LocalStorage, get_item, set_item, remove_item}
use file_harbor.Login.{
  SavedLogin, JsonCodec, json_object, login_fields, after_store, LoginMemory, login_saved,
  nothing_saved, checked_login, memory_key, read_login_memory, save_login_memory,
  clear_login_memory, LoginValues, LoginPage, submit_end,
}

checked_login-fields :
    (login : SavedLogin)
    → truthy login.username ≡ true
    → truthy login.password ≡ true
    → checked_login (json_object (login_fields login)) ≡ login_saved login
unfolding checked_login OrderedMap.get
checked_login-fields login u p = rw (u, p) refl

read_login_memory-save :
    (codec : JsonCodec) (base_path : Text) (s : LocalStorage) (login : SavedLogin)
    → s.readable ≡ true
    → s.writable ≡ true
    → truthy login.username ≡ true
    → truthy login.password ≡ true
    → read_login_memory codec base_path (save_login_memory codec base_path s login).0
      ≡ login_saved login
unfolding read_login_memory save_login_memory get_item set_item
read_login_memory-save codec base_path s login r w u p =
    let key = memory_key base_path in
    rw
      (
        w,
        r,
        get-put key key (codec.stringify login) s.items,
        ===_refl key,
        codec.stringify-truthy login,
        codec.parse-stringify login,
      )
      (checked_login-fields login u p)

read_login_memory-clear :
    (codec : JsonCodec) (base_path : Text) (s : LocalStorage)
    → s.readable ≡ true
    → s.writable ≡ true
    → read_login_memory codec base_path (clear_login_memory codec base_path s).0 ≡ nothing_saved
unfolding read_login_memory clear_login_memory get_item remove_item
read_login_memory-clear codec base_path s r w =
    let key = memory_key base_path in rw (w, r, get-delete key key s.items, ===_refl key) refl

-- If the storage can be read and written, and neither name nor password is empty, then after a
-- login that the server accepts the next page offers exactly this name and password if the user
-- asked for it, and none otherwise, whatever was stored before.
pub login_remembered :
    (codec : JsonCodec) (base_path : Text) (p : LoginPage) (values : LoginValues)
    (session : BrowserSession)
    → (p.storage).readable ≡ true
    → (p.storage).writable ≡ true
    → truthy values.username ≡ true
    → truthy values.password ≡ true
    → read_login_memory codec base_path (submit_end codec base_path p values (ok session)).storage
      ≡ (if values.remember_password
          then login_saved (record { username = values.username; password = values.password })
          else nothing_saved)
unfolding submit_end
login_remembered codec base_path p values session r w u q = chosen values.remember_password
  where
    login : SavedLogin
    login = record { username = values.username; password = values.password }

    left_by : LocalStorage × Bool → LocalStorage
    left_by x =
        (after_store (record p { session = some session; authenticated = true }) values x).storage

    stored :
        (x : LocalStorage × Bool) (m : LoginMemory)
        → read_login_memory codec base_path x.0 ≡ m
        → read_login_memory codec base_path (left_by x) ≡ m
    stored (s, true) m h = h
    stored (s, false) m h = h

    chosen :
        (b : Bool)
        → read_login_memory codec base_path (
            left_by (
              if b
              then save_login_memory codec base_path p.storage login
              else clear_login_memory codec base_path p.storage))
          ≡ (if b then login_saved login else nothing_saved)
    chosen true =
        stored (save_login_memory codec base_path p.storage login) (login_saved login)
          (read_login_memory-save codec base_path p.storage login r w u q)
    chosen false =
        stored (clear_login_memory codec base_path p.storage) nothing_saved
          (read_login_memory-clear codec base_path p.storage r w)
