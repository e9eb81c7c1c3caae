-- ===== src/RecycleBin.antt =====
-- The recycle bin: web/src/components/RecycleBinPanel.tsx. The query cache gives the answer of
-- `getTrash` for the cursor that is shown; an answer that is equal to the one before is no change.
pub mod Paging
pub mod Purging
mod Tests
use file_harbor.Base.{
  ℕ, Bool, true, false, not, ◌&&◌, ◌||◌, List, [], ◌∷◌, ◌++◌, Option, none, some, Text, codes,
  truthy, is_some, parent_path, ◌===◌, if◌then◌else◌,
}
use file_harbor.Base.Results.{Result, ok, err}
use file_harbor.Api.Records.{TrashEntry, TrashPage}

pub data PendingPurge : Type 0 where
  purge_entry : TrashEntry → PendingPurge
  purge_all : PendingPurge

pub record Bin : Type 0 where
  pub open_ : Bool
  pub cursor : Option Text
  pub entries : List TrashEntry
  pub next_cursor : Option Text
  pub data_ : Option TrashPage
  pub pending_purge : Option PendingPurge
  pub confirmation : Text

-- `cursor ? ... : ...`
abbrev pub has_cursor : Option Text → Bool
has_cursor none = false
has_cursor (some cursor) = truthy cursor

-- The effect of an answer.
abbrev taken : Bin → Option TrashPage → Bin
taken b none = b
taken b (some page) =
    if b.open_
    then record b {
      entries = if has_cursor b.cursor then b.entries ++ page.entries else page.entries;
      next_cursor = page.next_cursor;
    }
    else b

unfoldable pub data_effect : Bin → Bin
data_effect b = taken b b.data_

-- The effect of an opened panel.
unfoldable pub open_effect : Bin → Bin
open_effect b = if b.open_ then record b { cursor = none; entries = []; next_cursor = none } else b

abbrev or_entries : Option TrashPage → List TrashEntry → List TrashEntry
or_entries none other = other
or_entries (some page) other = page.entries

abbrev pub or_cursor : Option Text → Option Text → Option Text
or_cursor none other = other
or_cursor (some cursor) other = some cursor

abbrev data_cursor : Option TrashPage → Option Text
data_cursor none = none
data_cursor (some page) = page.next_cursor

unfoldable pub displayed_entries : Bin → List TrashEntry
displayed_entries b = if has_cursor b.cursor then b.entries else or_entries b.data_ b.entries

unfoldable pub displayed_next_cursor : Bin → Option Text
displayed_next_cursor b =
    if has_cursor b.cursor then b.next_cursor else or_cursor (data_cursor b.data_) b.next_cursor

-- The requests of the panel, and the view that it tells of a restored entry.
pub data BinCommand : Type 0 where
  restore_trash : Text → BinCommand
  purge_trash : Text → Text → BinCommand
  empty_trash : Text → BinCommand
  invalidate_trash : BinCommand
  on_restored : Text → BinCommand

abbrev purge_command : Text → Option PendingPurge → List BinCommand
purge_command confirmation none = []
purge_command confirmation (some (purge_entry e)) = purge_trash e.id confirmation ∷ []
purge_command confirmation (some purge_all) = empty_trash confirmation ∷ []

unfoldable pub confirm_purge : Bin → List BinCommand
confirm_purge b =
    if not (b.confirmation === codes "DELETE")
    then []
    else purge_command b.confirmation b.pending_purge

-- The callback of a restored entry, with the path that the server gave it.
unfoldable pub restored : Text → Text → List BinCommand
unfolding parent_path
restored path current_directory =
    if parent_path path === current_directory
    then invalidate_trash ∷ on_restored current_directory ∷ []
    else invalidate_trash ∷ []

-- `setPendingPurge`, with the effect of a change, which empties the field.
unfoldable pub set_pending_purge : Bin → Option PendingPurge → Bin
set_pending_purge b pending = record b {
  pending_purge = pending;
  confirmation = if is_some pending || is_some b.pending_purge then [] else b.confirmation;
}

pub data Event : Type 0 where
  panel_opened more_pressed : Option TrashPage → Event
  panel_closed purge_dismissed : Event
  page_loaded : TrashPage → Event
  purge_pressed : PendingPurge → Event
  typed : Text → Event
  purge_answered : Result (Unit {0}) → Event

-- An opened panel and a further page show what the cache has for their cursor, if anything.
unfoldable pub react : Bin → Event → Bin
unfolding data_effect open_effect displayed_next_cursor set_pending_purge
react b (panel_opened cached) =
    data_effect (record (open_effect (record b { open_ = true })) { data_ = cached })
react b panel_closed = record b { open_ = false }
react b (more_pressed cached) =
    data_effect (record b { cursor = displayed_next_cursor b; data_ = cached })
react b (page_loaded page) = data_effect (record b { data_ = some page })
react b (purge_pressed pending) = set_pending_purge b (some pending)
react b purge_dismissed = set_pending_purge b none
react b (typed text) = record b { confirmation = text }
react b (purge_answered (ok value)) = set_pending_purge b none
react b (purge_answered (err e)) = b

unfoldable pub run_events : Bin → List Event → Bin
unfolding react
run_events b [] = b
run_events b (e ∷ es) = run_events (react b e) es
