-- ===== src/Directories/Selected.antt =====
-- What `filesWithDirectories` selects.
use file_harbor.Base.{
  ℕ, zero, suc, ◌+◌, ◌-◌, ◌≤◌, ◌≡◌, refl, sym, ap, subst, ◌⊎◌, inl, inr, Bool, true, false, ◌||◌,
  List, [], ◌∷◌, ◌++◌, Text, length, take, but_last, All, map, arith, ltb, ===_refl, if_elim,
  Bool-cases, split_slash, join_slash, parent_path,
}
use file_harbor.Base.Results.{Result, ok, err, OkSatisfies, and_then-OkSatisfies, of_ok}
use file_harbor.Uploads.Model.{SourceFile}
use file_harbor.Directories.{
  DirectoryFile, DirectorySelection, max_entries, validate, contains_path, add_path, add_ancestors,
  chosen_path, collect, files_with_directories,
}

-- The folder of a file is the root or one of the directories.
abbrev pub HasParent : List Text → DirectoryFile → Type 0
HasParent directories f =
    (parent_path f.relative_path ≡ [])
    ⊎ (contains_path (parent_path f.relative_path) directories ≡ true)

pub record IsSelectionOf (files : List SourceFile) (s : DirectorySelection) : Type 0 where
  pub same_files : map (λ (f : DirectoryFile). f.file) s.files ≡ files
  pub same_paths : map (λ (f : DirectoryFile). f.relative_path) s.files ≡ map chosen_path files
  pub valid : All (λ (f : DirectoryFile). validate f.relative_path ≡ ok tt) s.files
  pub parents : All (HasParent s.directories) s.files
  pub within : length s.files + length s.directories ≤ max_entries

contains_path-append :
    (k : Text) (xs ys : List Text)
    → contains_path k (xs ++ ys) ≡ (contains_path k xs || contains_path k ys)
contains_path-append k [] ys = refl
contains_path-append k (x ∷ xs) ys = ground (arith, contains_path-append k xs ys)

or_true : (b : Bool) → (b || true) ≡ true
or_true true = refl
or_true false = refl

contains_path-add_path : (k : Text) (xs : List Text) → contains_path k (add_path k xs) ≡ true
unfolding add_path
contains_path-add_path k xs = elim (Bool-cases (contains_path k xs)) [
  | inl there ↦ rw there there
  | inr new ↦
      rw (new, contains_path-append k xs (k ∷ []), ===_refl k) (or_true (contains_path k xs))
]

add_path-keeps :
    (k j : Text) (xs : List Text)
    → contains_path k xs ≡ true
    → contains_path k (add_path j xs) ≡ true
unfolding add_path
add_path-keeps k j xs h = elim (Bool-cases (contains_path j xs)) [
  | inl there ↦ rw there h
  | inr new ↦ rw (new, contains_path-append k xs (j ∷ []), h) refl
]

add_ancestors-keeps :
    (k : Text) (xs parts : List Text) (from left : ℕ)
    → contains_path k xs ≡ true
    → contains_path k (add_ancestors xs parts from left) ≡ true
unfolding add_ancestors
add_ancestors-keeps k xs parts from zero h = h
add_ancestors-keeps k xs parts from (suc left) h =
    add_ancestors-keeps k (add_path (join_slash (take from parts)) xs) parts (from + 1) left
      (add_path-keeps k (join_slash (take from parts)) xs h)

-- The last ancestor that is added.
add_ancestors-last :
    (xs parts : List Text) (from left last : ℕ)
    → last ≡ from + left
    → contains_path (join_slash (take last parts)) (add_ancestors xs parts from (suc left)) ≡ true
unfolding add_ancestors
add_ancestors-last xs parts from zero last h =
    let e : last ≡ from = omega arith in
    rw e (contains_path-add_path (join_slash (take from parts)) xs)
add_ancestors-last xs parts from (suc left) last h =
    add_ancestors-last (add_path (join_slash (take from parts)) xs) parts (from + 1) left last
      (omega arith)

take-but_last : (p : Text) (ps : List Text) → take (length ps) (p ∷ ps) ≡ but_last (p ∷ ps)
take-but_last p [] = refl
take-but_last p (q ∷ ps) = ap (λ xs. p ∷ xs) (take-but_last q ps)

-- The parent of the joined parts is added, unless it is the root.
parent_added :
    (parts xs : List Text)
    → (join_slash (but_last parts) ≡ [])
      ⊎ (contains_path (join_slash (but_last parts)) (add_ancestors xs parts 1 (length parts - 1))
          ≡ true)
parent_added [] xs = inl (unfold join_slash in refl)
parent_added (p ∷ []) xs = inl (unfold join_slash in refl)
parent_added (p ∷ q ∷ ps) xs =
    inr (last_added (length ps) (but_last (p ∷ q ∷ ps)) (omega arith) (take-but_last p (q ∷ ps)))
  where
    last_added :
        (n : ℕ) (parent : List Text)
        → length (p ∷ q ∷ ps) - 1 ≡ suc n
        → take (suc n) (p ∷ q ∷ ps) ≡ parent
        → contains_path
            (join_slash parent)
            (add_ancestors xs (p ∷ q ∷ ps) 1 (length (p ∷ q ∷ ps) - 1))
          ≡ true
    last_added n parent e d =
        subst
          (λ x.
            contains_path (join_slash x) (add_ancestors xs (p ∷ q ∷ ps) 1 (length (p ∷ q ∷ ps) - 1))
            ≡ true)
          d
          (subst
            (λ m.
              contains_path (join_slash (take (suc n) (p ∷ q ∷ ps)))
                (add_ancestors xs (p ∷ q ∷ ps) 1 m)
              ≡ true)
            (sym e) (add_ancestors-last xs (p ∷ q ∷ ps) 1 n (suc n) (omega arith)))

-- The part of the result that each step of `map` establishes.
record IsCollected (files : List SourceFile) (before : List Text)
    (r : List DirectoryFile × List Text) : Type 0 where
  same_files : map (λ (f : DirectoryFile). f.file) r.0 ≡ files
  same_paths : map (λ (f : DirectoryFile). f.relative_path) r.0 ≡ map chosen_path files
  valid : All (λ (f : DirectoryFile). validate f.relative_path ≡ ok tt) r.0
  parents : All (HasParent r.1) r.0
  keeps : (k : Text) → contains_path k before ≡ true → contains_path k r.1 ≡ true

with_its_proof : (r : Result (Unit {0})) → OkSatisfies (λ _. r ≡ ok tt) r
with_its_proof (ok _) = refl
with_its_proof (err e) = tt

collect-IsCollected :
    (files : List SourceFile) (before : List Text)
    → OkSatisfies (IsCollected files before) (collect files before)
unfolding collect
collect-IsCollected [] before = record {
  same_files = refl;
  same_paths = refl;
  valid = tt;
  parents = tt;
  keeps = λ k h. h;
}
collect-IsCollected (file ∷ files) before =
    let path = chosen_path file in
    let parts = split_slash path in
    let added = add_ancestors before parts 1 (length parts - 1) in
    and_then-OkSatisfies (λ _. validate path ≡ ok tt) (IsCollected (file ∷ files) before)
      (validate path) _ (with_its_proof (validate path))
      (λ _ accepted.
        and_then-OkSatisfies (IsCollected files added) (IsCollected (file ∷ files) before)
          (collect files added) _ (collect-IsCollected files added)
          (λ (entries, all) c. record {
            same_files = ap (λ xs. file ∷ xs) c.same_files;
            same_paths = ap (λ xs. path ∷ xs) c.same_paths;
            valid = (accepted, c.valid);
            parents = (
              elim (parent_added parts before) [
                | inl root ↦ inl (unfold parent_path in root)
                | inr there ↦ inr (unfold parent_path in c.keeps _ there)
              ],
              c.parents,
            );
            keeps = λ k h. c.keeps k (add_ancestors-keeps k before parts 1 (length parts - 1) h);
          }))

-- Where `filesWithDirectories` returns a selection, it has exactly the given files, in their order
-- and with their chosen paths; each path is accepted by `validate`; the folder that holds a file
-- is the root or one of the directories; and there are at most 10000 files and directories.
pub files_with_directories-IsSelectionOf :
    (files : List SourceFile) (s : DirectorySelection)
    → files_with_directories files ≡ ok s
    → IsSelectionOf files s
unfolding files_with_directories
files_with_directories-IsSelectionOf files s =
    of_ok (IsSelectionOf files) (files_with_directories files) s (
      if_elim Selects (ltb max_entries (length files)) (λ _. tt)
        (λ _.
          and_then-OkSatisfies (IsCollected files []) (IsSelectionOf files) (collect files []) _
            (collect-IsCollected files [])
            (λ (entries, directories) c.
              if_elim Selects (ltb max_entries (length directories + length entries)) (λ _. tt)
                (λ small. record {
                  same_files = c.same_files;
                  same_paths = c.same_paths;
                  valid = c.valid;
                  parents = c.parents;
                  within = ground arith;
                }))))
  where
    Selects : Result DirectorySelection → Type 0
    Selects = OkSatisfies (IsSelectionOf files)
