-- ===== src/Workspace/Page/Events.antt =====
-- What happens to the file view, with the effects that follow each event.
pub mod Settled
pub mod Provenance
use file_harbor.Base.{
  ℕ, Bool, true, false, List, [], ◌∷◌, Option, none, some, Text, get_elem?, is_some, if◌then◌else◌,
}
use file_harbor.Base.Results.{Result}
use file_harbor.Api.Records.{FileEntry, DirectoryListing}
use file_harbor.Workspace.Actions.{EntryActionName}
use file_harbor.Workspace.Listing.{Platform, ListingControls}
use file_harbor.Workspace.Page.{
  Page, FormAction, batch, settle, select, select_all, selection_state, update_listing_controls,
  displayed_entries,
}
use file_harbor.Workspace.Page.Refresh.{refresh_begin, refresh_end}
use file_harbor.Workspace.Page.Commands.{
  perform_entry_action, confirm_delete, mutation_end, batch_end,
}

-- A row is known by its place among those displayed.
pub data Event : Type 0 where
  navigated : Text → Option DirectoryListing → Event
  listed : DirectoryListing → Event
  fetching_changed all_selected : Bool → Event
  row_selected : ℕ → Bool → Event
  selection_cleared refresh_pressed batch_delete_pressed delete_confirmed delete_dismissed
        form_closed :
      Event
  controls_changed : ListingControls → Event
  refresh_answered : Text → Result (Unit {0}) → Event
  menu_opened : ℕ → Event
  action_chosen : ℕ → EntryActionName → Event
  form_opened : FormAction → Event
  mutation_answered batch_answered : Text → List Text → Result (Option Text) → Event

module _ (platform : Platform) (has_tasks : Bool) (encode : Text → Text) (base_path : Text) where
  abbrev select_row : Page → Option FileEntry → Bool → Page
  select_row p none checked = p
  select_row p (some e) checked = select p e checked

  abbrev open_menu : Page → Option FileEntry → Page
  open_menu p none = p
  open_menu p (some e) = record p { menu_entry = some e }

  abbrev choose_action : Page → Option FileEntry → EntryActionName → Page
  choose_action p none action = p
  choose_action p (some e) action =
      (perform_entry_action platform has_tasks encode base_path p action e).0

  -- The rows are shown once there is a listing.
  unfoldable pub handle : Page → Event → Page
  unfolding select select_all update_listing_controls refresh_begin refresh_end displayed_entries
      selection_state perform_entry_action confirm_delete mutation_end batch_end
  handle p (navigated path listing) = record p {
    current_path = path;
    listing = listing;
    fetching = false;
  }
  handle p (listed listing) = record p { listing = some listing }
  handle p (fetching_changed fetching) = record p { fetching = fetching }
  handle p (all_selected checked) = if is_some p.listing then select_all platform p checked else p
  handle p (row_selected row checked) =
      if is_some p.listing
      then select_row p (get_elem? (displayed_entries platform p) row) checked
      else p
  handle p selection_cleared = record p { selected = [] }
  handle p refresh_pressed = (refresh_begin p).0
  handle p batch_delete_pressed = record p {
    pending_delete = some (batch (selection_state platform p).selected_entries);
  }
  handle p delete_confirmed = (confirm_delete platform has_tasks encode base_path p).0
  handle p delete_dismissed = record p { pending_delete = none }
  handle p form_closed = record p { form = none }
  handle p (controls_changed controls) = update_listing_controls p controls
  handle p (refresh_answered path r) = refresh_end p path r
  handle p (menu_opened row) = open_menu p (get_elem? (displayed_entries platform p) row)
  handle p (action_chosen row action) =
      choose_action p (get_elem? (displayed_entries platform p) row) action
  handle p (form_opened action) = record p { form = some (action, none) }
  handle p (mutation_answered endpoint affected r) = (mutation_end p endpoint affected r).0
  handle p (batch_answered endpoint affected r) = (batch_end p endpoint affected r).0

  unfoldable pub react : Page → Event → Page
  unfolding handle settle
  react p e = settle (handle p e)

  unfoldable pub run_events : Page → List Event → Page
  unfolding react
  run_events p [] = p
  run_events p (e ∷ es) = run_events (react p e) es
