-- ===== src/Browser.antt =====
-- The browser's `localStorage`, which settings may forbid to read or to write, and the `try` blocks
-- that the client puts around it.
use file_harbor.Base.{Bool, true, false, List, Option, none, some, Text, if◌then◌else◌}
use file_harbor.Base.OrderedMap

pub record LocalStorage : Type 0 where
  pub items : List (Text × Text)
  pub readable : Bool
  pub writable : Bool

-- What a read gives; none if it throws, and an inner none if there is no such item.
unfoldable pub get_item : LocalStorage → Text → Option (Option Text)
unfolding OrderedMap.get
get_item s key = if s.readable then some (OrderedMap.get key s.items) else none

-- The storage after a write, and whether it did not throw.
unfoldable pub set_item : LocalStorage → Text → Text → LocalStorage × Bool
unfolding OrderedMap.put
set_item s key value =
    if s.writable then (record s { items = OrderedMap.put key value s.items }, true) else (s, false)

unfoldable pub remove_item : LocalStorage → Text → LocalStorage × Bool
unfolding OrderedMap.delete
remove_item s key =
    if s.writable then (record s { items = OrderedMap.delete key s.items }, true) else (s, false)
