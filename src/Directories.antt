-- ===== src/Directories.antt =====
-- The folders that a user picks or drops: web/src/uploads/directoryEntries.ts.
pub mod Drop
pub mod Pick
pub mod Selected
pub mod Bounds
mod Tests
use file_harbor.Base.{
  ℕ, zero, suc, ◌+◌, ◌-◌, Bool, true, false, not, ◌||◌, List, [], ◌∷◌, ◌++◌, Text, codes, truthy,
  length, take, any, ltb, ◌==◌, ◌===◌, if◌then◌else◌, split_slash, join_slash, map,
}
use file_harbor.Base.Results.{Failure, js_error, Result, ok, err, and_then}
use file_harbor.Uploads.Model.{SourceFile}

pub record DirectoryFile : Type 0 where
  pub file : SourceFile
  pub relative_path : Text

pub record DirectorySelection : Type 0 where
  pub files : List DirectoryFile
  pub directories : List Text

abbrev pub max_depth : ℕ
max_depth = 64

abbrev pub max_entries : ℕ
max_entries = 10000

abbrev pub invalid_path : Failure
invalid_path = js_error (codes "invalid_path")

abbrev pub batch_limit_exceeded : Failure
batch_limit_exceeded = js_error (codes "batch_limit_exceeded")

-- The parts that `validate` refuses: empty, a dot or two, or with a backslash or a null character.
unfoldable pub is_unsafe_part : Text → Bool
is_unsafe_part part =
    not (truthy part)
    || part === codes "."
    || part === codes ".."
    || any (λ c. c == 92) part
    || any (λ c. c == 0) part

unfoldable pub validate : Text → Result (Unit {0})
unfolding split_slash is_unsafe_part
validate path =
    let parts = split_slash path in
    if not (truthy path) || ltb max_depth (length parts) || any is_unsafe_part parts
    then err invalid_path
    else ok tt

abbrev pub contains_path : Text → List Text → Bool
contains_path k xs = any (λ j. j === k) xs

-- `Set.add`: a set keeps the order in which its values were added.
unfoldable pub add_path : Text → List Text → List Text
add_path k xs = if contains_path k xs then xs else xs ++ k ∷ []

-- `for (let i = from; i < from + left; i++) directories.add(parts.slice(0, i).join('/'))`
unfoldable pub add_ancestors : List Text → List Text → ℕ → ℕ → List Text
unfolding add_path join_slash
add_ancestors directories parts from zero = directories
add_ancestors directories parts from (suc left) =
    add_ancestors (add_path (join_slash (take from parts)) directories) parts (from + 1) left

-- `file.webkitRelativePath || file.name`
unfoldable pub chosen_path : SourceFile → Text
chosen_path file = if truthy file.webkit_relative_path then file.webkit_relative_path else file.name

-- `files.map(...)`, with the set that its callback fills.
unfoldable pub collect : List SourceFile → List Text → Result (List DirectoryFile × List Text)
unfolding chosen_path validate add_ancestors
collect [] directories = ok ([], directories)
collect (file ∷ files) directories =
    let path = chosen_path file in
    let parts = split_slash path in
    let rest = collect files (add_ancestors directories parts 1 (length parts - 1)) in
    and_then (validate path) (λ _.
      and_then rest
        (λ (entries, all). ok (record { file = file; relative_path = path } ∷ entries, all)))

unfoldable pub files_with_directories : List SourceFile → Result DirectorySelection
unfolding collect
files_with_directories files =
    if ltb max_entries (length files)
    then err batch_limit_exceeded
    else and_then (collect files []) (λ (entries, directories).
      if ltb max_entries (length directories + length entries)
      then err batch_limit_exceeded
      else ok (record { files = entries; directories = directories }))
