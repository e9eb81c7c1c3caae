-- ===== src/Workspace/Folder.antt =====
-- The choice of a destination and the size of a directory:
-- web/src/components/FolderDestinationPicker.tsx and web/src/components/DirectorySize.tsx.
use file_harbor.Base.{
  ℕ, Bool, true, false, ◌||◌, List, [], ◌∷◌, ◌++◌, Option, none, some, Text, codes, but_last,
  segments, join_slash, ◌===◌, if◌then◌else◌,
}
use file_harbor.Base.Results.{failure_code, Result, ok, err}

-- The picker's path, with the value that the form around it was given.
pub record Picker : Type 0 where
  pub path : Text
  pub value : Text

-- The effect of another value.
unfoldable pub value_effect : Picker → Text → Picker
value_effect p value = record { path = value; value = value }

unfoldable pub navigate : Picker → Text → Picker
navigate p next = record { path = next; value = next }

unfoldable pub go_up : Picker → Picker
unfolding navigate segments join_slash
go_up p = navigate p (join_slash (but_last (segments p.path)))

-- The paths of the breadcrumbs: each part with those before it.
unfoldable pub crumbs_from : List Text → List Text → List Text
unfolding join_slash
crumbs_from before [] = []
crumbs_from before (part ∷ parts) =
    join_slash (before ++ part ∷ []) ∷ crumbs_from (before ++ part ∷ []) parts

unfoldable pub crumbs : Picker → List Text
unfolding crumbs_from segments
crumbs p = crumbs_from [] (segments p.path)

-- The scan of a directory's size.
pub record SizeScan : Type 0 where
  pub id : Text
  pub state : Text
  pub code : Option Text

pub record DirectorySize : Type 0 where
  pub id : Option Text
  pub pending : Bool
  pub error : Option Text
  pub scan : Option SizeScan

abbrev pub is_running : Option SizeScan → Bool
is_running none = false
is_running (some scan) = scan.state === codes "running"

-- `refetchInterval`, in milliseconds; none stands for `false`.
unfoldable pub refetch_interval : DirectorySize → Option ℕ
refetch_interval d = if is_running d.scan then some 1000 else none

-- `start` up to its await, and after it.
unfoldable pub start_begin : DirectorySize → DirectorySize
start_begin d = record d { pending = true; error = none }

unfoldable pub start_end : DirectorySize → Result SizeScan → DirectorySize
start_end d (ok scan) = record d { pending = false; id = some scan.id; scan = some scan }
start_end d (err e) = record d { pending = false; error = some (failure_code e) }

-- The button is disabled while a scan runs.
unfoldable pub start_disabled : DirectorySize → Bool
start_disabled d = d.pending || is_running d.scan
