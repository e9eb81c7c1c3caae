-- ===== src/Workspace/Sorted.antt =====
-- What the file view shows: the entries that match, each once, in the order of its controls.
use mathlib.Core.List.{Perm}
use mathlib.Core.List.Perm
use file_harbor.Base.{
  ℕ, ◌≡◌, refl, true, false, List, [], ◌∷◌, Option, none, some, arith, filter, if_elim,
}
use file_harbor.Api.Records.{FileEntry}
use file_harbor.Workspace.Listing.{
  Sign, negative, zero_sign, positive, opposite, or_else, difference, Platform, ListingSort,
  folders_first, name_asc, name_desc, modified_desc, modified_asc, size_desc, size_asc,
  ListingControls, directory_number, compare_times, goes_after, compare_modified, compare_entries,
  compare_all, insert_entry, sort_entries, of_kind, matches_query, filter_and_sort_entries,
}

or_else-opposite :
    (a b c d : Sign) → c ≡ opposite a → d ≡ opposite b → or_else c d ≡ opposite (or_else a b)
or_else-opposite negative b c d e f = rw e refl
or_else-opposite zero_sign b c d e f = rw (e, f) refl
or_else-opposite positive b c d e f = rw e refl

pub difference-opposite : (a b : ℕ) → difference b a ≡ opposite (difference a b)
difference-opposite a b = ground arith

compare_times-opposite : (a b : Option ℕ) → compare_times b a ≡ opposite (compare_times a b)
compare_times-opposite none none = refl
compare_times-opposite none (some b) = refl
compare_times-opposite (some a) none = refl
compare_times-opposite (some a) (some b) = difference-opposite a b

before_after : (a b : Sign) → b ≡ opposite a → goes_after a ≡ true → goes_after b ≡ false
before_after positive b e h = rw e refl
before_after negative b e h = cc
before_after zero_sign b e h = cc

module _ (p : Platform) (s : ListingSort) where
  -- The first of these entries, if there is one, may stand right after `x`.
  abbrev pub MayFollow : FileEntry → List FileEntry → Type 0
  MayFollow x [] = Unit
  MayFollow x (y ∷ ys) = goes_after (compare_all p s x y) ≡ false

  -- No entry stands right before one that the comparison puts in front of it.
  abbrev pub IsOrdered : List FileEntry → Type 0
  IsOrdered [] = Unit
  IsOrdered (x ∷ xs) = MayFollow x xs × IsOrdered xs

module _ (p : Platform) where
  compare_entries-opposite :
      (s : ListingSort) (x y : FileEntry)
      → compare_entries p s y x ≡ opposite (compare_entries p s x y)
  unfolding compare_entries
  compare_entries-opposite folders_first x y =
      or_else-opposite _ _ _ _
        (difference-opposite (directory_number y.kind) (directory_number x.kind))
        (p.compare-opposite x.name y.name)
  compare_entries-opposite name_asc x y = p.compare-opposite x.name y.name
  compare_entries-opposite name_desc x y = p.compare-opposite y.name x.name
  compare_entries-opposite modified_desc x y =
      unfold compare_modified in
      compare_times-opposite (p.time y.modified_at) (p.time x.modified_at)
  compare_entries-opposite modified_asc x y =
      unfold compare_modified in
      compare_times-opposite (p.time x.modified_at) (p.time y.modified_at)
  compare_entries-opposite size_desc x y = difference-opposite y.size_bytes x.size_bytes
  compare_entries-opposite size_asc x y = difference-opposite x.size_bytes y.size_bytes

  compare_all-opposite :
      (s : ListingSort) (x y : FileEntry) → compare_all p s y x ≡ opposite (compare_all p s x y)
  unfolding compare_all
  compare_all-opposite s x y = or_else-opposite _ _ _ _ (compare_entries-opposite s x y) (
      or_else-opposite _ _ _ _ (p.compare-opposite x.name y.name)
        (p.compare-opposite x.path y.path))

  insert_entry-MayFollow :
      (s : ListingSort) (x y : FileEntry) (ys : List FileEntry)
      → goes_after (compare_all p s y x) ≡ false
      → MayFollow p s y ys
      → MayFollow p s y (insert_entry p s x ys)
  unfolding insert_entry
  insert_entry-MayFollow s x y [] h f = h
  insert_entry-MayFollow s x y (z ∷ zs) h f =
      if_elim (MayFollow p s y) (goes_after (compare_all p s x z)) (λ _. f) (λ _. h)

  insert_entry-IsOrdered :
      (s : ListingSort) (x : FileEntry) (ys : List FileEntry)
      → IsOrdered p s ys
      → IsOrdered p s (insert_entry p s x ys)
  unfolding insert_entry
  insert_entry-IsOrdered s x [] h = (tt, tt)
  insert_entry-IsOrdered s x (y ∷ ys) (f, h) =
      if_elim (IsOrdered p s) (goes_after (compare_all p s x y))
        (λ after. (
          insert_entry-MayFollow s x y ys
              (before_after (compare_all p s x y) (compare_all p s y x) (compare_all-opposite s x y)
                after)
              f,
          insert_entry-IsOrdered s x ys h,
        ))
        (λ before. (before, (f, h)))

  sort_entries-IsOrdered :
      (s : ListingSort) (xs : List FileEntry) → IsOrdered p s (sort_entries p s xs)
  unfolding sort_entries
  sort_entries-IsOrdered s [] = tt
  sort_entries-IsOrdered s (x ∷ xs) =
      insert_entry-IsOrdered s x (sort_entries p s xs) (sort_entries-IsOrdered s xs)

  insert_entry-Perm :
      (s : ListingSort) (x : FileEntry) (ys : List FileEntry)
      → Perm (insert_entry p s x ys) (x ∷ ys)
  unfolding insert_entry
  insert_entry-Perm s x [] = Perm.refl (x ∷ [])
  insert_entry-Perm s x (y ∷ ys) =
      if_elim (λ r. Perm r (x ∷ y ∷ ys)) (goes_after (compare_all p s x y))
        (λ _. Perm.trans (Perm.cons y (insert_entry-Perm s x ys)) (Perm.swap x y ys))
        (λ _. Perm.refl (x ∷ y ∷ ys))

  sort_entries-Perm : (s : ListingSort) (xs : List FileEntry) → Perm (sort_entries p s xs) xs
  unfolding sort_entries
  sort_entries-Perm s [] = Perm.refl []
  sort_entries-Perm s (x ∷ xs) =
      Perm.trans (insert_entry-Perm s x (sort_entries p s xs))
        (Perm.cons x (sort_entries-Perm s xs))

  -- The list shown is a rearrangement of the entries of the chosen kind whose names in lower case
  -- hold the query, and no entry in it stands right before one that the comparison of the chosen
  -- order puts in front of it.
  pub filter_and_sort_entries_lem :
      (entries : List FileEntry) (controls : ListingControls)
      → Perm (filter_and_sort_entries p entries controls) (
          filter
            (matches_query p (p.lower_case (p.trim controls.query)))
            (filter (of_kind p controls.kind) entries))
        × IsOrdered p controls.sort (filter_and_sort_entries p entries controls)
  unfolding filter_and_sort_entries
  filter_and_sort_entries_lem entries controls =
      let query = p.lower_case (p.trim controls.query) in
      let shown = filter (matches_query p query) (filter (of_kind p controls.kind) entries) in
      (sort_entries-Perm controls.sort shown, sort_entries-IsOrdered controls.sort shown)
