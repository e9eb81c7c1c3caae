-- ===== src/Appearance/Tests.antt =====
-- Choices of palette in small storages.
use file_harbor.Base.{◌≡◌, refl, true, false, [], some, codes}
use file_harbor.Browser.{LocalStorage}
use file_harbor.Appearance.{
  harbor, set_accent_id, open_tab, accent_of, system_mode, light_scheme, forest, Tab,
  read_stored_theme_mode, resolve_color_scheme,
}
use file_harbor.Appearance.Stored.{accent_survives}

abbrev empty_storage : LocalStorage
empty_storage = record { items = []; readable = true; writable = true }

abbrev tab : Tab
tab = record { storage = empty_storage; accent = forest }

accent_survives_example :
    ((set_accent_id tab (codes "harbor")).accent ≡ harbor)
    × ((open_tab (set_accent_id tab (codes "harbor")).storage).accent ≡ harbor)
accent_survives_example =
    accent_survives tab (codes "harbor") harbor refl refl (unfold accent_of in refl)

-- A storage that may not be read gives the mode of the system.
unread : read_stored_theme_mode (record empty_storage { readable = false }) ≡ system_mode
unfolding read_stored_theme_mode
unread = refl

system_light : resolve_color_scheme (some system_mode) false ≡ light_scheme
unfolding resolve_color_scheme
system_light = refl
