-- ===== src/Workspace/Page.antt =====
-- The state of the file view, web/src/components/Workspace.tsx, and its effects. The route gives the
-- path and the query cache the listing of it.
pub mod Refresh
pub mod Batch
pub mod Commands
pub mod Events
pub mod Named
pub mod ReadOnly
mod Tests
use file_harbor.Base.{
  ℕ, Bool, true, false, not, ◌&&◌, ◌||◌, List, [], ◌∷◌, ◌++◌, Option, none, some, Text, filter, any,
  map, ◌===◌, if◌then◌else◌,
}
use file_harbor.Api.Records.{EntryKind, FileEntry, DirectoryListing}
use file_harbor.Workspace.Listing.{
  Platform, KindFilter, all_kinds, archives, only_kind, ListingSort, folders_first, name_asc,
  name_desc, modified_desc, modified_asc, size_desc, size_asc, ListingControls, same_kind,
  filter_and_sort_entries,
}
use file_harbor.Workspace.Selection.{ListingSelectionState, listing_selection_state}

pub data FormAction : Type 0 where
  newdir newfile rename move copy : FormAction

pub data PendingDelete : Type 0 where
  single : FileEntry → PendingDelete
  batch : List FileEntry → PendingDelete

-- What the snackbar says: a checksum, a refresh, or the key of an error's message.
pub data Notice : Type 0 where
  checksum_notice : Text → Notice
  refreshed_notice : Notice
  error_notice : Text → Notice

pub record Page : Type 0 where
  pub current_path : Text
  pub listing : Option DirectoryListing
  pub fetching : Bool
  pub previous_path : Text
  pub previous_token : Option Text
  pub previous_controls : Option ListingControls
  pub controls : ListingControls
  pub selected : List Text
  pub menu_entry : Option FileEntry
  pub form : Option (FormAction × Option FileEntry)
  pub extract_for : Option FileEntry
  pub archive_preview_for : Option FileEntry
  pub properties_for : Option FileEntry
  pub pending_delete : Option PendingDelete
  pub notice : Option Notice
  pub manual_refresh : Bool
  pub refresh_error : Option Text
  pub favorites_open : Bool
  pub search_open : Bool

abbrev pub first_controls : ListingControls
first_controls = record { query = []; kind = all_kinds; sort = folders_first }

-- The state before the first effects.
unfoldable pub open_page : Text → Option DirectoryListing → Page
open_page path listing = record {
  current_path = path;
  listing = listing;
  fetching = false;
  previous_path = path;
  previous_token = none;
  previous_controls = none;
  controls = first_controls;
  selected = [];
  menu_entry = none;
  form = none;
  extract_for = none;
  archive_preview_for = none;
  properties_for = none;
  pending_delete = none;
  notice = none;
  manual_refresh = false;
  refresh_error = none;
  favorites_open = false;
  search_open = false;
}

-- `listing?.listingToken`
abbrev pub token_of : Option DirectoryListing → Option Text
token_of none = none
token_of (some listing) = some listing.listing_token

abbrev pub same_text : Option Text → Option Text → Bool
same_text none none = true
same_text (some s) (some t) = s === t
same_text _ _ = false

abbrev same_filter : KindFilter → KindFilter → Bool
same_filter all_kinds all_kinds = true
same_filter archives archives = true
same_filter (only_kind k) (only_kind l) = same_kind k l
same_filter _ _ = false

abbrev same_sort : ListingSort → ListingSort → Bool
same_sort folders_first folders_first = true
same_sort name_asc name_asc = true
same_sort name_desc name_desc = true
same_sort modified_desc modified_desc = true
same_sort modified_asc modified_asc = true
same_sort size_desc size_desc = true
same_sort size_asc size_asc = true
same_sort _ _ = false

abbrev pub same_controls : ListingControls → ListingControls → Bool
same_controls a b = a.query === b.query && same_filter a.kind b.kind && same_sort a.sort b.sort

-- What the effect of another path sets.
abbrev pub reset_view : Page → Page
reset_view p = record p {
  previous_path = p.current_path;
  extract_for = none;
  selected = [];
  menu_entry = none;
  form = none;
  properties_for = none;
  archive_preview_for = none;
  pending_delete = none;
  manual_refresh = false;
  refresh_error = none;
  controls = first_controls;
  search_open = false;
  favorites_open = false;
}

unfoldable pub path_effect : Page → Page
path_effect p = if p.previous_path === p.current_path then p else reset_view p

-- `previousListingToken.current === undefined || previousListingToken.current === listingToken`
abbrev pub keeps_token : Option Text → Option Text → Bool
keeps_token none token = true
keeps_token (some previous) token = same_text (some previous) token

-- The effect of another listing token.
unfoldable pub token_effect : Page → Page
token_effect p =
    let token = token_of p.listing in
    record p {
      selected = if keeps_token p.previous_token token then p.selected else [];
      previous_token = token;
    }

abbrev pub keeps_controls : Option ListingControls → ListingControls → Bool
keeps_controls none controls = true
keeps_controls (some previous) controls = same_controls previous controls

-- The effect of other controls.
unfoldable pub controls_effect : Page → Page
controls_effect p = record p {
  selected = if keeps_controls p.previous_controls p.controls then p.selected else [];
  previous_controls = some p.controls;
}

-- The effects that follow a change of the state, with those of the renderings that they cause.
unfoldable pub settle : Page → Page
unfolding path_effect token_effect controls_effect
settle p = controls_effect (token_effect (path_effect p))

abbrev pub entries : Page → List FileEntry
entries p = elim p.listing [ none ↦ [] | some listing ↦ listing.entries ]

-- `selectedForCurrentToken`
unfoldable pub selected_for_current_token : Page → List Text
selected_for_current_token p =
    if keeps_token p.previous_token (token_of p.listing) then p.selected else []

abbrev pub contains : List Text → Text → Bool
contains paths path = any (λ q. q === path) paths

-- `select`
unfoldable pub select : Page → FileEntry → Bool → Page
select p e true = record p {
  selected = if contains p.selected e.path then p.selected else p.selected ++ e.path ∷ [];
}
select p e false = record p { selected = filter (λ q. not (q === e.path)) p.selected }

-- `updateListingControls`
unfoldable pub update_listing_controls : Page → ListingControls → Page
update_listing_controls p controls = record p { selected = []; controls = controls }

module _ (platform : Platform) where
  unfoldable pub displayed_entries : Page → List FileEntry
  unfolding filter_and_sort_entries
  displayed_entries p = filter_and_sort_entries platform (entries p) p.controls

  unfoldable pub selection_state : Page → ListingSelectionState
  unfolding displayed_entries selected_for_current_token listing_selection_state
  selection_state p =
      listing_selection_state (displayed_entries p) (contains (selected_for_current_token p))

  -- The box that selects all.
  unfoldable pub select_all : Page → Bool → Page
  unfolding displayed_entries
  select_all p true = record p { selected = map (λ (e : FileEntry). e.path) (displayed_entries p) }
  select_all p false = record p { selected = [] }
