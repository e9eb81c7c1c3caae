-- ===== src/Directories/Drop.antt =====
-- `droppedDirectories` of web/src/uploads/directoryEntries.ts. The browser's entries are trees: a
-- file entry with what `file(resolve, reject)` answers, a directory entry with what the calls of
-- `readEntries` answer, or an entry that is neither.
use file_harbor.Base.{
  ℕ, ◌+◌, Bool, true, false, List, [], ◌∷◌, ◌++◌, Option, none, some, Text, slash, truthy, ltb,
  if◌then◌else◌,
}
use file_harbor.Base.Results.{Failure, Result, ok, err, and_then}
use file_harbor.Uploads.Model.{SourceFile}
use file_harbor.Directories.{DirectorySelection, max_entries, batch_limit_exceeded, validate}

mutual
  pub data Entry : Type 0 where
    file_entry : Text → Result SourceFile → Entry
    directory_entry : Text → Reader → Entry
    other_entry : Text → Entry

  -- One batch after another; an empty batch ends the reading.
  pub data Reader : Type 0 where
    read_failed : Failure → Reader
    read_end : Reader
    read_batch : Entries → Reader → Reader

  pub data Entries : Type 0 where
    empty_batch : Entries
    next_entry : Entry → Entries → Entries

-- `!batch.length`
abbrev pub is_empty : Entries → Bool
is_empty empty_batch = true
is_empty (next_entry _ _) = false

pub record Walk : Type 0 where
  pub result : DirectorySelection
  pub visited : ℕ

abbrev pub start_walk : Walk
start_walk = record { result = record { files = []; directories = [] }; visited = 0 }

-- ``prefix ? `${prefix}/${entry.name}` : entry.name``
unfoldable pub under : Text → Text → Text
under prefix name = if truthy prefix then prefix ++ slash ∷ name else name

-- `if (++visited > 10000) throw ...`
unfoldable pub visit : Walk → Result Walk
visit w =
    if ltb max_entries (w.visited + 1)
    then err batch_limit_exceeded
    else ok (record w { visited = w.visited + 1 })

unfoldable pub push_file : Walk → Text → SourceFile → Walk
push_file w path file = record w {
  result = record (w.result) {
    files = (w.result).files ++ record { file = file; relative_path = path } ∷ [];
  };
}

unfoldable pub push_directory : Walk → Text → Walk
push_directory w path = record w {
  result = record (w.result) { directories = (w.result).directories ++ path ∷ [] };
}

-- `validate(relativePath)` and the count, with which every walk of an entry begins.
unfoldable pub enter : Walk → Text → Result Walk
unfolding validate visit
enter w path = and_then (validate path) (λ _. visit w)

unfoldable mutual
  unfolding under enter push_file push_directory

  pub walk : Entry → Text → Walk → Result Walk
  walk (file_entry name file) prefix w =
      and_then (enter w (under prefix name))
        (λ v. and_then file (λ f. ok (push_file v (under prefix name) f)))
  walk (directory_entry name reader) prefix w =
      and_then (enter w (under prefix name))
        (λ v. walk_reader reader (under prefix name) (push_directory v (under prefix name)))
  walk (other_entry name) prefix w = enter w (under prefix name)

  pub walk_reader : Reader → Text → Walk → Result Walk
  walk_reader (read_failed e) path w = err e
  walk_reader read_end path w = ok w
  walk_reader (read_batch entries reader) path w =
      and_then (walk_entries entries path w)
        (λ v. if is_empty entries then ok v else walk_reader reader path v)

  pub walk_entries : Entries → Text → Walk → Result Walk
  walk_entries empty_batch path w = ok w
  walk_entries (next_entry entry entries) path w =
      and_then (walk entry path w) (walk_entries entries path)

-- A dropped item: `kind === 'file'` holds, an entry if the browser gives one, and a file.
pub record Root : Type 0 where
  pub entry : Option Entry
  pub file : Option SourceFile

unfoldable pub walk_plain_file : SourceFile → Walk → Result Walk
unfolding visit validate push_file
walk_plain_file file w =
    and_then (visit w) (λ v. and_then (validate file.name) (λ _. ok (push_file v file.name file)))

unfoldable pub walk_root : Option Entry → Option SourceFile → Walk → Result Walk
unfolding walk walk_plain_file
walk_root (some entry) file w = walk entry [] w
walk_root none (some file) w = walk_plain_file file w
walk_root none none w = ok w

unfoldable pub walk_roots : List Root → Walk → Result Walk
unfolding walk_root
walk_roots [] w = ok w
walk_roots (r ∷ rs) w = and_then (walk_root r.entry r.file w) (walk_roots rs)

unfoldable pub dropped_directories : List Root → Result DirectorySelection
unfolding walk_roots
dropped_directories roots = and_then (walk_roots roots start_walk) (λ w. ok w.result)
