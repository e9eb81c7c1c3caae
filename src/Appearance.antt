-- ===== src/Appearance.antt =====
-- The stored choices of mode and palette: web/src/theme.ts, and the provider of
-- web/src/appearance/ThemePreferencesProvider.tsx.
pub mod Colors
pub mod Palettes
pub mod Stored
mod Tests
use file_harbor.Base.{
  ℕ, Bool, true, false, List, [], ◌∷◌, Option, none, some, Text, codes, find, ◌===◌, if◌then◌else◌,
  get_or_else,
}
use file_harbor.Browser.{LocalStorage, get_item, set_item}

pub data ThemeMode : Type 0 where
  light_mode dark_mode system_mode : ThemeMode

pub data ColorScheme : Type 0 where
  light_scheme dark_scheme : ColorScheme

pub data AccentId : Type 0 where
  forest harbor slate orchid cedar fjord juniper ember dune saffron mulberry graphite : AccentId

abbrev pub accent_ids : List AccentId
accent_ids =
    forest ∷ harbor ∷ slate ∷ orchid ∷ cedar ∷ fjord ∷ juniper ∷ ember ∷ dune ∷ saffron ∷ mulberry
    ∷ graphite ∷ []

abbrev pub default_accent_id : AccentId
default_accent_id = forest

abbrev pub accent_key : Text
accent_key = codes "fileharbor-accent"

abbrev pub mode_key : Text
mode_key = codes "fileharbor-mode"

-- The string that stands for an id, and for a mode.
abbrev pub accent_text : AccentId → Text
accent_text forest = codes "forest"
accent_text harbor = codes "harbor"
accent_text slate = codes "slate"
accent_text orchid = codes "orchid"
accent_text cedar = codes "cedar"
accent_text fjord = codes "fjord"
accent_text juniper = codes "juniper"
accent_text ember = codes "ember"
accent_text dune = codes "dune"
accent_text saffron = codes "saffron"
accent_text mulberry = codes "mulberry"
accent_text graphite = codes "graphite"

-- `isAccentId`: a string is one of the ids; it is returned as such.
unfoldable pub accent_of : Text → Option AccentId
accent_of raw = find (λ id. accent_text id === raw) accent_ids

-- `isThemeMode`
unfoldable pub mode_of : Text → Option ThemeMode
mode_of raw =
    if raw === codes "light"
    then some light_mode
    else if raw === codes "dark"
    then some dark_mode
    else if raw === codes "system"
    then some system_mode
    else none

abbrev pub and_read {ℓ} : {A : Type ℓ} → (Text → Option A) → A → Option (Option Text) → A
and_read parse default none = default
and_read parse default (some none) = default
and_read parse default (some (some raw)) = get_or_else (parse raw) default

unfoldable pub read_stored_theme_mode : LocalStorage → ThemeMode
unfolding mode_of get_item
read_stored_theme_mode s = and_read mode_of system_mode (get_item s mode_key)

unfoldable pub read_stored_accent_id : LocalStorage → AccentId
unfolding accent_of get_item
read_stored_accent_id s = and_read accent_of default_accent_id (get_item s accent_key)

unfoldable pub persist_accent_id : LocalStorage → AccentId → LocalStorage
unfolding set_item
persist_accent_id s id = (set_item s accent_key (accent_text id)).0

unfoldable pub resolve_color_scheme : Option ThemeMode → Bool → ColorScheme
resolve_color_scheme (some light_mode) prefers_dark = light_scheme
resolve_color_scheme (some dark_mode) prefers_dark = dark_scheme
resolve_color_scheme _ prefers_dark = if prefers_dark then dark_scheme else light_scheme

-- `aceThemeForMode`
unfoldable pub ace_theme_for_mode : Option ColorScheme → Text
ace_theme_for_mode (some light_scheme) = codes "github_light_default"
ace_theme_for_mode _ = codes "github_dark"

-- One tab: the accent it shows. All tabs share the storage.
pub record Tab : Type 0 where
  pub storage : LocalStorage
  pub accent : AccentId

-- The provider's first state.
unfoldable pub open_tab : LocalStorage → Tab
unfolding read_stored_accent_id
open_tab s = record { storage = s; accent = read_stored_accent_id s }

-- `setAccentId`, with the value of the radio button.
unfoldable pub set_accent_id : Tab → Text → Tab
unfolding accent_of persist_accent_id
set_accent_id tab raw = elim (accent_of raw) [
  | none ↦ tab
  | some id ↦ record { storage = persist_accent_id tab.storage id; accent = id }
]

-- The listener for writes of other tabs, by which the storage became `s`.
unfoldable pub synchronize : Tab → LocalStorage → Text → Tab
unfolding read_stored_accent_id
synchronize tab s key =
    if key === accent_key
    then record { storage = s; accent = read_stored_accent_id s }
    else record tab { storage = s }
