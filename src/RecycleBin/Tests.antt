-- ===== src/RecycleBin/Tests.antt =====
-- A bin of two pages.
use file_harbor.Base.{◌≡◌, refl, [], ◌∷◌, ◌++◌, none, some, Text, codes, parent_path, false}
use file_harbor.Api.Records.{file, TrashEntry, TrashPage}
use file_harbor.RecycleBin.{
  Bin, purge_all, displayed_entries, confirm_purge, empty_trash, invalidate_trash, on_restored,
  restored, panel_opened, page_loaded, panel_closed, purge_pressed, typed, react, run_events,
  set_pending_purge,
}
use file_harbor.RecycleBin.Paging.{loading_of, entries_of, pages_appended}
use file_harbor.RecycleBin.Purging.{purge_needs_typing}

abbrev closed : Bin
closed = record {
  open_ = false;
  cursor = none;
  entries = [];
  next_cursor = none;
  data_ = none;
  pending_purge = none;
  confirmation = [];
}

abbrev entry : Text → TrashEntry
entry id = record {
  id = id;
  name = id;
  original_path = id;
  kind = file;
  size_bytes = 1;
  deleted_at = [];
}

abbrev first : TrashPage
first = record { entries = entry (codes "1") ∷ []; next_cursor = some (codes "c") }

abbrev second : TrashPage
second = record { entries = entry (codes "2") ∷ entry (codes "3") ∷ []; next_cursor = none }

-- Entry 2 is purged, and stays on the screen.
abbrev purged : TrashPage
purged = record { entries = entry (codes "3") ∷ []; next_cursor = none }

pages_appended_example :
    (displayed_entries (run_events closed (panel_opened (some first) ∷ loading_of (second ∷ [])))
      ≡ entries_of (first ∷ second ∷ []))
    × (displayed_entries (
          react
            (run_events closed (panel_opened (some first) ∷ loading_of (second ∷ [])))
            (page_loaded purged))
        ≡ entries_of (first ∷ second ∷ []) ++ entry (codes "3") ∷ [])
pages_appended_example = pages_appended closed first second [] purged (refl, tt)

purge_needs_typing_example :
    confirm_purge (
      run_events
        (record closed { confirmation = codes "DELETE" })
        (purge_pressed purge_all ∷ panel_closed ∷ []))
    ≡ []
purge_needs_typing_example =
    purge_needs_typing (record closed { confirmation = codes "DELETE" }) purge_all
      (panel_closed ∷ []) refl

confirmed :
    confirm_purge (run_events closed (purge_pressed purge_all ∷ typed (codes "DELETE") ∷ []))
    ≡ empty_trash (codes "DELETE") ∷ []
unfolding confirm_purge run_events set_pending_purge
confirmed = refl

restored_here : restored (codes "a/b") (codes "a") ≡ invalidate_trash ∷ on_restored (codes "a") ∷ []
unfolding restored parent_path
restored_here = refl
