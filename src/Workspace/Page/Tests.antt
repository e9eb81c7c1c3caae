-- ===== src/Workspace/Page/Tests.antt =====
-- The file view on a small listing.
use file_harbor.Base.{
  ◌≡◌, refl, ◌⊎◌, true, false, List, [], ◌∷◌, none, some, codes, All, map, filter,
}
use mathlib.Core.List.{Perm}
use file_harbor.Api.Records.{DirectoryListing}
use file_harbor.Workspace.Actions.{entry_menu_actions}
use file_harbor.Workspace.Listing.{of_kind, matches_query, filter_and_sort_entries}
use file_harbor.Workspace.Selection.{listing_selection_state}
use file_harbor.Workspace.Tests.{lengths, readme, folder}
use file_harbor.Workspace.Form.{open_form, submit, call_submit}
use file_harbor.Workspace.Page.{
  Page, newdir, settle, open_page, token_of, entries, contains, path_effect, token_effect,
  controls_effect, select, displayed_entries, selection_state, selected_for_current_token,
}
use file_harbor.Workspace.Page.Batch.{
  named, batch_body, do_batch, affected_directories, mutate_batch,
}
use file_harbor.Workspace.Page.Commands.{perform_entry_action, confirm_delete}
use file_harbor.Workspace.Page.Events.{
  Event, row_selected, listed, navigated, batch_delete_pressed, react, run_events,
}
use file_harbor.Workspace.Page.Events.Provenance.{ShowsSame, selection_provenance}
use file_harbor.Workspace.Page.Named.{batch_names_selected}
use file_harbor.Workspace.Page.ReadOnly.{IsHarmless, read_only-IsHarmless}

abbrev listing : DirectoryListing
listing = record {
  path = codes "d";
  parent_path = some [];
  listing_token = codes "token";
  entries = readme ∷ folder ∷ [];
  truncated = false;
  disk = none;
}

abbrev page : Page
page = settle (open_page (codes "d") (some listing))

abbrev run : List Event → Page
run es = run_events lengths true (λ s. s) [] page es

abbrev one_selected : List Event
one_selected = row_selected 1 true ∷ []

-- The second row is the file, since folders come first.
row : (run one_selected).selected ≡ codes "a.md" ∷ []
unfolding run_events open_page settle path_effect token_effect controls_effect select
    displayed_entries filter_and_sort_entries
row = refl

batch_of_row :
    do_batch lengths true (run one_selected) (codes "do/batch/delete") none
    ≡ mutate_batch
        (codes "do/batch/delete")
        (record {
          listing_token = some (codes "token");
          entries = named readme ∷ [];
          destination = none;
        })
        (codes "d" ∷ [])
      ∷ []
unfolding run_events open_page settle path_effect token_effect controls_effect select
    displayed_entries filter_and_sort_entries do_batch batch_body affected_directories
    selection_state selected_for_current_token listing_selection_state
batch_of_row = refl

selection_provenance_example :
    ((react lengths true (λ s. s) [] (run one_selected) (navigated (codes "e") none)).selected ≡ [])
    ⊎ ShowsSame
        (run one_selected)
        (react lengths true (λ s. s) [] (run one_selected) (navigated (codes "e") none))
selection_provenance_example =
    selection_provenance lengths true (λ s. s) [] (codes "d") (some listing) one_selected
      (navigated (codes "e") none)

batch_names_selected_example :
    ((batch_body lengths true (run one_selected) none).listing_token
      ≡ token_of (run one_selected).listing)
    × Perm (batch_body lengths true (run one_selected) none).entries (
        map named (
          filter
            (λ e. contains (run one_selected).selected e.path)
            (filter (matches_query lengths ((run one_selected).controls).query) (
              filter
                (of_kind lengths ((run one_selected).controls).kind)
                (entries (run one_selected))))))
batch_names_selected_example =
    batch_names_selected lengths true (λ s. s) [] (codes "d") (some listing) one_selected none

read_only-IsHarmless_example :
    All
      (λ action. IsHarmless page (perform_entry_action lengths true (λ s. s) [] page action readme))
      (entry_menu_actions readme false true)
read_only-IsHarmless_example = read_only-IsHarmless lengths true (λ s. s) [] page readme true

-- A new folder is asked for in the current directory.
new_folder :
    submit (record (open_form newdir none (codes "d")) { value = codes "x" })
    ≡ call_submit
        (codes "do/newdir")
        ((codes "path", codes "d") ∷ (codes "dirname", codes "x") ∷ [])
unfolding submit open_form
new_folder = refl

-- A listing that arrives while the deletion of a selected entry waits for its confirmation empties
-- the selection: the confirmed deletion asks the server for nothing.
deletion_lost :
    (confirm_delete lengths true
      (λ s. s)
      []
      (run (
        row_selected 1 true
        ∷ batch_delete_pressed
        ∷ listed (record listing { listing_token = codes "other" })
        ∷ []))).1
    ≡ []
unfolding run_events open_page settle path_effect token_effect controls_effect select
    displayed_entries filter_and_sort_entries confirm_delete do_batch batch_body
    affected_directories selection_state selected_for_current_token listing_selection_state
deletion_lost = refl
