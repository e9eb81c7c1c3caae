-- ===== src/Appearance/Stored.antt =====
-- A stored choice of palette is found again.
use file_harbor.Base.{◌≡◌, refl, true, some, Text, ===_refl}
use file_harbor.Base.OrderedMap.{get-put}
use file_harbor.Browser.{LocalStorage, get_item, set_item}
use file_harbor.Appearance.{
  AccentId, accent_key, accent_text, accent_of, persist_accent_id, read_stored_accent_id, Tab,
  open_tab, set_accent_id, forest, harbor, slate, orchid, cedar, fjord, juniper, ember, dune,
  saffron, mulberry, graphite,
}

accent_of-accent_text : (id : AccentId) → accent_of (accent_text id) ≡ some id
unfolding accent_of
accent_of-accent_text forest = refl
accent_of-accent_text harbor = refl
accent_of-accent_text slate = refl
accent_of-accent_text orchid = refl
accent_of-accent_text cedar = refl
accent_of-accent_text fjord = refl
accent_of-accent_text juniper = refl
accent_of-accent_text ember = refl
accent_of-accent_text dune = refl
accent_of-accent_text saffron = refl
accent_of-accent_text mulberry = refl
accent_of-accent_text graphite = refl

-- What was written is read.
pub get_item-set_item :
    (s : LocalStorage) (key value : Text)
    → s.readable ≡ true
    → s.writable ≡ true
    → get_item (set_item s key value).0 key ≡ some (some value)
unfolding get_item set_item
get_item-set_item s key value r w = rw (w, r, get-put key key value s.items, ===_refl key) refl

-- If the storage can be read and written, a palette that a tab accepts is the one with which a new
-- tab opens, whatever was stored before.
pub accent_survives :
    (tab : Tab) (raw : Text) (id : AccentId)
    → (tab.storage).readable ≡ true
    → (tab.storage).writable ≡ true
    → accent_of raw ≡ some id
    → ((set_accent_id tab raw).accent ≡ id)
      × ((open_tab (set_accent_id tab raw).storage).accent ≡ id)
unfolding set_accent_id open_tab persist_accent_id read_stored_accent_id
accent_survives tab raw id r w e = rw e (
  refl,
  rw (get_item-set_item tab.storage accent_key (accent_text id) r w, accent_of-accent_text id) refl,
)
