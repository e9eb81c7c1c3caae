-- ===== src/Favorites/Tests.antt =====
-- Changes of a small list of favourites.
use file_harbor.Base.{
  ◌≡◌, refl, true, false, not, [], ◌∷◌, ◌++◌, none, some, codes, filter, map, ◌===◌, if◌then◌else◌,
}
use file_harbor.Base.Results.{ok}
use file_harbor.Api.Records.{Favorite}
use file_harbor.Favorites.{Favorites, rename, change_begin, change_end, merge}
use file_harbor.Favorites.Panel.{Panel, open_begin, open_end, opened}
use file_harbor.Favorites.Merge.{has_id, replaced, merge-replaced}

abbrev docs : Favorite
docs = record {
  id = codes "1";
  path = codes "docs";
  label = codes "Docs";
  revision = 1;
  created_at = [];
  availability = none;
}

abbrev photos : Favorite
photos = record docs { id = codes "2"; path = codes "photos" }

abbrev renamed : Favorite
renamed = record docs { label = codes "Papers"; revision = 2 }

abbrev idle : Favorites
idle = record { cache = some (docs ∷ photos ∷ []); changing = false; invalidations = 0 }

-- The renamed entry stays in its place.
renamed_in_place :
    ((change_end
      (change_begin idle (rename docs (codes "Papers"))).0
      (rename docs (codes "Papers"))
      (ok renamed)).0
    ).cache
    ≡ some (renamed ∷ photos ∷ [])
unfolding change_begin change_end
renamed_in_place = refl

merge-replaced_example :
    (merge (docs ∷ photos ∷ []) renamed true
      ≡ filter (λ item. not (item.id === renamed.id)) (docs ∷ photos ∷ []))
    × (merge (docs ∷ photos ∷ []) renamed false ≡ (
        if has_id renamed.id (docs ∷ photos ∷ [])
        then map (replaced renamed) (docs ∷ photos ∷ [])
        else (docs ∷ photos ∷ []) ++ renamed ∷ []))
merge-replaced_example = merge-replaced (docs ∷ photos ∷ []) renamed (refl, (refl, tt))

abbrev panel : Panel
panel = record {
  opening = none;
  opening_ref = false;
  open_error = none;
  mounted = true;
  visited = [];
  refetches = 0;
}

-- A favourite whose directory is gone is answered with another path, and is not visited.
fallback_refused : ((open_end (open_begin panel docs).0 docs (ok (codes "elsewhere"))).visited ≡ [])
unfolding open_end open_begin opened
fallback_refused = refl
