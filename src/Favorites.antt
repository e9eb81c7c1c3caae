-- ===== src/Favorites.antt =====
-- The favourites and their cache: web/src/components/useFavorites.ts. The cache holds the list
-- that the server last answered, if it did.
pub mod Merge
pub mod Panel
mod Tests
use file_harbor.Base.{
  ℕ, zero, suc, Bool, true, false, not, List, [], ◌∷◌, ◌++◌, Option, none, some, Text, codes,
  filter, take, drop, length, get_or_else, ◌===◌, if◌then◌else◌,
}
use file_harbor.Base.Results.{Failure, api_error, js_error, other_value, Result, ok, err}
use file_harbor.Api.Records.{Favorite}

pub data Change : Type 0 where
  add : Text → Text → Change
  rename : Favorite → Text → Change
  remove : Favorite → Change

abbrev pub is_remove : Change → Bool
is_remove (remove entry) = true
is_remove _ = false

-- `findIndex(item => item.id === id)`; none stands for -1.
unfoldable pub find_index : Text → List Favorite → Option ℕ
find_index id [] = none
find_index id (x ∷ xs) =
    let rest = find_index id xs in
    if x.id === id then some 0 else elim rest [ none ↦ none | some i ↦ some (suc i) ]

-- `entries.splice(index, 0, entry)`
unfoldable pub insert_at : ℕ → Favorite → List Favorite → List Favorite
insert_at index entry entries = take index entries ++ entry ∷ drop index entries

-- The function that `onSuccess` gives to `setQueryData`.
unfoldable pub merge : List Favorite → Favorite → Bool → List Favorite
unfolding find_index insert_at
merge previous entry removed =
    let entries = filter (λ item. not (item.id === entry.id)) previous in
    if removed
    then entries
    else insert_at (get_or_else (find_index entry.id previous) (length entries)) entry entries

-- The hook's state: the cache, whether a change runs, and how often the list was invalidated.
pub record Favorites : Type 0 where
  pub cache : Option (List Favorite)
  pub changing : Bool
  pub invalidations : ℕ

-- `change` up to its await; nothing happens while another change runs.
unfoldable pub change_begin : Favorites → Change → Favorites × Bool
change_begin s c = if s.changing then (s, false) else (record s { changing = true }, true)

abbrev pub merged_cache : Option (List Favorite) → Favorite → Change → Option (List Favorite)
merged_cache none entry c = none
merged_cache (some previous) entry c = some (merge previous entry (is_remove c))

-- `onSuccess`, `onSettled` and the rest of `change`: the state and what the caller gets.
unfoldable pub change_end : Favorites → Change → Result Favorite → Favorites × Bool
unfolding merge
change_end s c (ok entry) = (
  record {
    cache = merged_cache s.cache entry c;
    changing = false;
    invalidations = suc s.invalidations;
  },
  true,
)
change_end s c (err e) = (record s { changing = false; invalidations = suc s.invalidations }, false)

-- The field `error` of what the hook returns.
unfoldable pub error_code : Failure → Text
error_code (api_error status code) = code
error_code (js_error message) = codes "generic"
error_code other_value = codes "generic"
