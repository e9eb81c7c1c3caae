-- ===== src/Directories/Bounds.antt =====
-- The walk of dropped entries keeps to the limit on entries and selects valid paths only.
pub mod Picked
use file_harbor.Base.{
  ℕ, suc, ◌+◌, ◌≤◌, ◌≡◌, refl, Bool, true, false, List, [], ◌∷◌, ◌++◌, Option, none, some, Text,
  length, All, All-append, arith, ltb, if◌then◌else◌, if_elim, length-append,
}
use file_harbor.Base.Results.{
  Failure, Result, ok, err, and_then, OkSatisfies, and_then-OkSatisfies, of_ok,
}
use file_harbor.Uploads.Model.{SourceFile}
use file_harbor.Directories.{
  DirectoryFile, DirectorySelection, max_entries, batch_limit_exceeded, validate,
}
use file_harbor.Directories.Drop.{
  Entry, file_entry, directory_entry, other_entry, Reader, read_failed, read_end, read_batch,
  Entries, empty_batch, next_entry, is_empty, Walk, start_walk, under, visit, push_file,
  push_directory, enter, walk, walk_reader, walk_entries, Root, walk_plain_file, walk_root,
  walk_roots, dropped_directories,
}

abbrev pub Accepted : Text → Type 0
Accepted path = validate path ≡ ok tt

-- What a selection of the walks satisfies: its paths are accepted, and it keeps to the limit.
pub record IsSelection (s : DirectorySelection) : Type 0 where
  pub files_valid : All (λ (f : DirectoryFile). Accepted f.relative_path) s.files
  pub directories_valid : All Accepted s.directories
  pub within : length s.files + length s.directories ≤ max_entries

-- The walk has selected accepted paths, at most as many as it has visited entries, with `spare`
-- entries visited that are not selected yet.
pub record IsWalk (spare : ℕ) (w : Walk) : Type 0 where
  pub files_valid : All (λ (f : DirectoryFile). Accepted f.relative_path) (w.result).files
  pub directories_valid : All Accepted (w.result).directories
  pub counted : (length (w.result).files + length (w.result).directories) + spare ≤ w.visited
  pub bounded : w.visited ≤ max_entries

-- After an entry was entered, there is room for it, and its path is accepted.
abbrev pub Entered : Text → Walk → Type 0
Entered path w = IsWalk 1 w × Accepted path

validate-Accepted : (path : Text) → OkSatisfies (λ _. Accepted path) (validate path)
validate-Accepted path = accepted (validate path) refl
  where
    accepted : (r : Result (Unit {0})) → validate path ≡ r → OkSatisfies (λ _. Accepted path) r
    accepted (ok _) e = e
    accepted (err f) e = tt

visit-IsWalk : (w : Walk) → IsWalk 0 w → OkSatisfies (IsWalk 1) (visit w)
unfolding visit
visit-IsWalk w h =
    if_elim (OkSatisfies (IsWalk 1)) (ltb max_entries (w.visited + 1)) (λ _. tt)
      (λ small. record {
        files_valid = h.files_valid;
        directories_valid = h.directories_valid;
        counted = omega (arith, h.counted);
        bounded = ground arith;
      })

pub enter-Entered :
    (w : Walk) (path : Text) → IsWalk 0 w → OkSatisfies (Entered path) (enter w path)
unfolding enter
enter-Entered w path h =
    and_then-OkSatisfies (λ _. Accepted path) (Entered path) (validate path) (λ _. visit w)
      (validate-Accepted path) (λ _ a. paired (visit w) a (visit-IsWalk w h))
  where
    paired :
        (r : Result Walk) → Accepted path → OkSatisfies (IsWalk 1) r → OkSatisfies (Entered path) r
    paired (ok v) a k = (k, a)
    paired (err e) a k = tt

unused : (w : Walk) → IsWalk 1 w → IsWalk 0 w
unused w h = record {
  files_valid = h.files_valid;
  directories_valid = h.directories_valid;
  counted = omega (arith, h.counted);
  bounded = h.bounded;
}

pub push_file-IsWalk :
    (w : Walk) (path : Text) (file : SourceFile) → Entered path w → IsWalk 0 (push_file w path file)
unfolding push_file
push_file-IsWalk w path file (h, a) = record {
  files_valid = All-append _ (w.result).files (_ ∷ []) h.files_valid (a, tt);
  directories_valid = h.directories_valid;
  counted = omega (
    arith,
    h.counted,
    length-append (w.result).files (record { file = file; relative_path = path } ∷ []),
  );
  bounded = h.bounded;
}

pub push_directory-IsWalk :
    (w : Walk) (path : Text) → Entered path w → IsWalk 0 (push_directory w path)
unfolding push_directory
push_directory-IsWalk w path (h, a) = record {
  files_valid = h.files_valid;
  directories_valid = All-append _ (w.result).directories (path ∷ []) h.directories_valid (a, tt);
  counted = omega (arith, h.counted, length-append (w.result).directories (path ∷ []));
  bounded = h.bounded;
}

abbrev Walked : Result Walk → Type 0
Walked = OkSatisfies (IsWalk 0)

push_file-Walked :
    (file : Result SourceFile) (w : Walk) (path : Text)
    → Entered path w
    → Walked (and_then file (λ f. ok (push_file w path f)))
push_file-Walked (ok f) w path h = push_file-IsWalk w path f h
push_file-Walked (err e) w path h = tt

mutual
  unfolding walk

  walk-Walked :
      (entry : Entry) (prefix : Text) (w : Walk) → IsWalk 0 w → Walked (walk entry prefix w)
  walk-Walked (file_entry name file) prefix w h =
      and_then-OkSatisfies (Entered (under prefix name)) (IsWalk 0) (enter w (under prefix name)) _
        (enter-Entered w (under prefix name) h)
        (λ v k. push_file-Walked file v (under prefix name) k)
  walk-Walked (directory_entry name reader) prefix w h =
      and_then-OkSatisfies (Entered (under prefix name)) (IsWalk 0) (enter w (under prefix name)) _
        (enter-Entered w (under prefix name) h)
        (λ v k.
          walk_reader-Walked reader (under prefix name) (push_directory v (under prefix name))
            (push_directory-IsWalk v (under prefix name) k))
  walk-Walked (other_entry name) prefix w h =
      only_entered (enter w (under prefix name)) (enter-Entered w (under prefix name) h)
    where
      only_entered : (r : Result Walk) → OkSatisfies (Entered (under prefix name)) r → Walked r
      only_entered (ok v) k = unused v k.0
      only_entered (err e) k = tt

  walk_reader-Walked :
      (reader : Reader) (path : Text) (w : Walk) → IsWalk 0 w → Walked (walk_reader reader path w)
  walk_reader-Walked (read_failed e) path w h = tt
  walk_reader-Walked read_end path w h = h
  walk_reader-Walked (read_batch entries reader) path w h =
      and_then-OkSatisfies (IsWalk 0) (IsWalk 0) (walk_entries entries path w) _
        (walk_entries-Walked entries path w h)
        (λ v k.
          if_elim Walked (is_empty entries) (λ _. k) (λ _. walk_reader-Walked reader path v k))

  walk_entries-Walked :
      (entries : Entries) (path : Text) (w : Walk)
      → IsWalk 0 w
      → Walked (walk_entries entries path w)
  walk_entries-Walked empty_batch path w h = h
  walk_entries-Walked (next_entry entry entries) path w h =
      and_then-OkSatisfies (IsWalk 0) (IsWalk 0) (walk entry path w) (walk_entries entries path)
        (walk-Walked entry path w h) (λ v k. walk_entries-Walked entries path v k)

walk_plain_file-Walked :
    (file : SourceFile) (w : Walk) → IsWalk 0 w → Walked (walk_plain_file file w)
unfolding walk_plain_file
walk_plain_file-Walked file w h =
    and_then-OkSatisfies (IsWalk 1) (IsWalk 0) (visit w) _ (visit-IsWalk w h) (λ v k.
      and_then-OkSatisfies (λ _. Accepted file.name) (IsWalk 0) (validate file.name) _
        (validate-Accepted file.name) (λ _ a. push_file-IsWalk v file.name file (k, a)))

walk_root-Walked :
    (entry : Option Entry) (file : Option SourceFile) (w : Walk)
    → IsWalk 0 w
    → Walked (walk_root entry file w)
unfolding walk_root
walk_root-Walked (some entry) file w h = walk-Walked entry [] w h
walk_root-Walked none (some file) w h = walk_plain_file-Walked file w h
walk_root-Walked none none w h = h

walk_roots-Walked : (roots : List Root) (w : Walk) → IsWalk 0 w → Walked (walk_roots roots w)
unfolding walk_roots
walk_roots-Walked [] w h = h
walk_roots-Walked (r ∷ rs) w h =
    and_then-OkSatisfies (IsWalk 0) (IsWalk 0) (walk_root r.entry r.file w) (walk_roots rs)
      (walk_root-Walked r.entry r.file w h) (λ v k. walk_roots-Walked rs v k)

pub start_walk-IsWalk : IsWalk 0 start_walk
start_walk-IsWalk = record {
  files_valid = tt;
  directories_valid = tt;
  counted = omega arith;
  bounded = omega arith;
}

pub final-IsSelection : (w : Walk) → IsWalk 0 w → IsSelection w.result
final-IsSelection w h = record {
  files_valid = h.files_valid;
  directories_valid = h.directories_valid;
  within = omega (arith, h.counted, h.bounded);
}

-- Where `droppedDirectories` returns a selection, `validate` accepts the path of every file and of
-- every directory in it, and it has at most 10000 files and directories together.
pub dropped_directories-IsSelection :
    (roots : List Root) (s : DirectorySelection) → dropped_directories roots ≡ ok s → IsSelection s
unfolding dropped_directories
dropped_directories-IsSelection roots s = of_ok IsSelection (dropped_directories roots) s (
    and_then-OkSatisfies (IsWalk 0) IsSelection (walk_roots roots start_walk) _
      (walk_roots-Walked roots start_walk start_walk-IsWalk) final-IsSelection)
