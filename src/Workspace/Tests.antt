-- ===== src/Workspace/Tests.antt =====
-- The file view on small listings.
use file_harbor.Base.{
  segments, join_slash, ◌≡◌, refl, Bool, true, false, [], ◌∷◌, none, some, Text, codes, length,
  filter, ◌===◌,
}
use mathlib.Core.List.{Perm}
use file_harbor.Api.Records.{file, directory, FileEntry}
use file_harbor.Workspace.Listing.{
  Platform, ListingControls, all_kinds, folders_first, of_kind, matches_query,
  filter_and_sort_entries,
}
use file_harbor.Workspace.Sorted.{IsOrdered, difference-opposite, filter_and_sort_entries_lem}
use file_harbor.Workspace.Listing.{difference}
use file_harbor.Workspace.Selection.{listing_selection_state, listing_selection_state_lem}
use file_harbor.Workspace.Folder.{crumbs, crumbs_from, go_up, navigate}

-- Names by their length, dates as their length, texts as they are.
abbrev pub lengths : Platform
lengths = record {
  compare_names = λ a b. difference (length a) (length b);
  time = λ d. some (length d);
  trim = λ s. s;
  lower_case = λ s. s;
  compare-opposite = λ a b. difference-opposite (length a) (length b);
}

abbrev pub readme : FileEntry
readme = record {
  name = codes "a.md";
  path = codes "a.md";
  kind = file;
  size_bytes = 3;
  modified_at = [];
  mode = [];
  extension = none;
  is_archive = false;
  previewable = true;
  editable = true;
  version = codes "1";
}

abbrev pub folder : FileEntry
folder = record readme {
  name = codes "docs-and-more";
  path = codes "docs-and-more";
  kind = directory;
}

abbrev controls : ListingControls
controls = record { query = []; kind = all_kinds; sort = folders_first }

folder_first :
    filter_and_sort_entries lengths (readme ∷ folder ∷ []) controls ≡ folder ∷ readme ∷ []
unfolding filter_and_sort_entries
folder_first = refl

filter_and_sort_entries_lem_example :
    Perm (filter_and_sort_entries lengths (readme ∷ folder ∷ []) controls) (
      filter (matches_query lengths []) (filter (of_kind lengths all_kinds) (readme ∷ folder ∷ [])))
    × IsOrdered lengths folders_first
        (filter_and_sort_entries lengths (readme ∷ folder ∷ []) controls)
filter_and_sort_entries_lem_example =
    filter_and_sort_entries_lem lengths (readme ∷ folder ∷ []) controls

abbrev has_readme : Text → Bool
has_readme path = path === codes "a.md"

listing_selection_state_lem_example :
    ((listing_selection_state (readme ∷ folder ∷ []) has_readme).all_selected ≡ false)
    × ((listing_selection_state (readme ∷ folder ∷ []) has_readme).partially_selected ≡ true)
listing_selection_state_lem_example = listing_selection_state_lem (readme ∷ folder ∷ []) has_readme

-- The breadcrumbs of a folder, and its parent.
folder_crumbs :
    (crumbs (record { path = codes "a/b/c"; value = [] })
      ≡ codes "a" ∷ codes "a/b" ∷ codes "a/b/c" ∷ [])
    × ((go_up (record { path = codes "a/b/c"; value = [] })).path ≡ codes "a/b")
unfolding crumbs crumbs_from go_up navigate segments join_slash
folder_crumbs = (refl, refl)
