-- ===== src/Directories/Tests.antt =====
-- Selections of small folders.
use file_harbor.Base.{◌≡◌, refl, false, List, [], ◌∷◌, none, some, codes}
use file_harbor.Base.Results.{ok, err, js_error}
use file_harbor.Uploads.Model.{SourceFile}
use file_harbor.Directories.{DirectorySelection, files_with_directories, invalid_path}
use file_harbor.Directories.Selected.{IsSelectionOf, files_with_directories-IsSelectionOf}
use file_harbor.Directories.Drop.{
  file_entry, directory_entry, read_batch, read_end, empty_batch, next_entry, Root,
  dropped_directories,
}
use file_harbor.Directories.Pick.{
  file_handle, directory_handle, a_handle, no_handles, pick_directory,
}
use file_harbor.Directories.Bounds.{IsSelection, dropped_directories-IsSelection}
use file_harbor.Directories.Bounds.Picked.{pick_directory-IsSelection}

abbrev note : SourceFile
note = record {
  name = codes "n.md";
  last_modified = 1;
  webkit_relative_path = codes "a/b/n.md";
  bytes = [];
}

abbrev picked_files : DirectorySelection
picked_files = record {
  files = record { file = note; relative_path = codes "a/b/n.md" } ∷ [];
  directories = codes "a" ∷ codes "a/b" ∷ [];
}

two_ancestors : files_with_directories (note ∷ []) ≡ ok picked_files
unfolding files_with_directories
two_ancestors = refl

files_with_directories-IsSelectionOf_example : IsSelectionOf (note ∷ []) picked_files
files_with_directories-IsSelectionOf_example =
    files_with_directories-IsSelectionOf (note ∷ []) picked_files two_ancestors

abbrev dropped : List Root
dropped =
    record {
      entry = some (
          directory_entry (codes "a")
            (read_batch (next_entry (file_entry (codes "n.md") (ok note)) empty_batch) read_end));
      file = none;
    }
    ∷ []

abbrev dropped_files : DirectorySelection
dropped_files = record {
  files = record { file = note; relative_path = codes "a/n.md" } ∷ [];
  directories = codes "a" ∷ [];
}

dropped_two : dropped_directories dropped ≡ ok dropped_files
unfolding dropped_directories
dropped_two = refl

dropped_directories-IsSelection_example : IsSelection dropped_files
dropped_directories-IsSelection_example =
    dropped_directories-IsSelection dropped dropped_files dropped_two

picked_two :
    pick_directory
      (λ _. false)
      (js_error (codes "AbortError"))
      (λ n. n)
      30000
      (directory_handle (codes "a") (a_handle (file_handle (codes "n.md") (ok note)) no_handles))
    ≡ ok dropped_files
unfolding pick_directory
picked_two = refl

pick_directory-IsSelection_example : IsSelection dropped_files
pick_directory-IsSelection_example =
    pick_directory-IsSelection (λ _. false) (js_error (codes "AbortError")) (λ n. n) 30000
      (directory_handle (codes "a") (a_handle (file_handle (codes "n.md") (ok note)) no_handles))
      dropped_files picked_two

-- A folder whose name is two dots is refused.
dropped_dots :
    dropped_directories
      (record { entry = some (directory_entry (codes "..") read_end); file = none } ∷ [])
    ≡ err invalid_path
unfolding dropped_directories
dropped_dots = refl
