-- ===== src/Workspace/Listing.antt =====
-- `filterAndSortEntries` of web/src/components/workspaceListing.ts. A comparison's number is
-- reduced to its sign; a date that is not valid has no time, and a comparison with it gives NaN,
-- which the source's `||` passes over as it does zero.
use file_harbor.Base.{
  ℕ, ◌≡◌, Bool, true, false, not, ◌&&◌, ◌||◌, List, [], ◌∷◌, Option, none, some, Text, truthy,
  filter, ltb, ◌==◌, if◌then◌else◌,
}
use file_harbor.Api.Records.{EntryKind, file, directory, FileEntry}

pub data Sign : Type 0 where
  negative zero_sign positive : Sign

abbrev pub opposite : Sign → Sign
opposite negative = positive
opposite zero_sign = zero_sign
opposite positive = negative

-- `a || b`
abbrev pub or_else : Sign → Sign → Sign
or_else zero_sign b = b
or_else a b = a

-- The sign of `a - b`.
abbrev pub difference : ℕ → ℕ → Sign
difference a b = if ltb a b then negative else if ltb b a then positive else zero_sign

-- What the platform provides: the collator of the names, the time of a date, and the functions on
-- text that depend on the Unicode tables.
pub record Platform : Type 0 where
  pub compare_names : Text → Text → Sign
  pub time : Text → Option ℕ
  pub trim : Text → Text
  pub lower_case : Text → Text
  -- The collator compares two texts in either order with opposite results.
  pub compare-opposite : (a b : Text) → compare_names b a ≡ opposite (compare_names a b)

pub data KindFilter : Type 0 where
  all_kinds archives : KindFilter
  only_kind : EntryKind → KindFilter

pub data ListingSort : Type 0 where
  folders_first name_asc name_desc modified_desc modified_asc size_desc size_asc : ListingSort

pub record ListingControls : Type 0 where
  pub query : Text
  pub kind : KindFilter
  pub sort : ListingSort

-- `Number(kind === 'directory')`
abbrev pub directory_number : EntryKind → ℕ
directory_number directory = 1
directory_number file = 0

abbrev pub same_kind : EntryKind → EntryKind → Bool
same_kind file file = true
same_kind directory directory = true
same_kind _ _ = false

abbrev is_prefix : Text → Text → Bool
is_prefix [] s = true
is_prefix (c ∷ t) [] = false
is_prefix (c ∷ t) (d ∷ s) = (c == d) && is_prefix t s

-- `s.includes(t)`
abbrev pub includes : Text → Text → Bool
includes [] t = is_prefix t []
includes (c ∷ s) t = is_prefix t (c ∷ s) || includes s t

abbrev pub compare_times : Option ℕ → Option ℕ → Sign
compare_times (some a) (some b) = difference a b
compare_times (some a) none = zero_sign
compare_times none b = zero_sign

-- `a > 0` puts the right one first. `Array.prototype.sort` is stable.
abbrev pub goes_after : Sign → Bool
goes_after positive = true
goes_after _ = false

module _ (p : Platform) where
  unfoldable pub compare_modified : FileEntry → FileEntry → Sign
  compare_modified left right = compare_times (p.time left.modified_at) (p.time right.modified_at)

  unfoldable pub compare_entries : ListingSort → FileEntry → FileEntry → Sign
  unfolding compare_modified
  compare_entries folders_first left right =
      or_else (difference (directory_number right.kind) (directory_number left.kind))
        (p.compare_names left.name right.name)
  compare_entries name_desc left right = p.compare_names right.name left.name
  compare_entries modified_desc left right = compare_modified right left
  compare_entries modified_asc left right = compare_modified left right
  compare_entries size_desc left right = difference right.size_bytes left.size_bytes
  compare_entries size_asc left right = difference left.size_bytes right.size_bytes
  compare_entries name_asc left right = p.compare_names left.name right.name

  -- The comparison that is given to `sort`, with its two tie breaks.
  unfoldable pub compare_all : ListingSort → FileEntry → FileEntry → Sign
  unfolding compare_entries
  compare_all s left right =
      or_else (compare_entries s left right)
        (or_else (p.compare_names left.name right.name) (p.compare_names left.path right.path))

  unfoldable pub insert_entry : ListingSort → FileEntry → List FileEntry → List FileEntry
  unfolding compare_all
  insert_entry s x [] = x ∷ []
  insert_entry s x (y ∷ ys) =
      let rest = insert_entry s x ys in
      if goes_after (compare_all s x y) then y ∷ rest else x ∷ y ∷ ys

  unfoldable pub sort_entries : ListingSort → List FileEntry → List FileEntry
  unfolding insert_entry
  sort_entries s [] = []
  sort_entries s (x ∷ xs) = insert_entry s x (sort_entries s xs)

  abbrev pub of_kind : KindFilter → FileEntry → Bool
  of_kind all_kinds e = true
  of_kind archives e = e.is_archive
  of_kind (only_kind k) e = same_kind e.kind k

  abbrev pub matches_query : Text → FileEntry → Bool
  matches_query query e = not (truthy query) || includes (p.lower_case e.name) query

  unfoldable pub filter_and_sort_entries : List FileEntry → ListingControls → List FileEntry
  unfolding sort_entries
  filter_and_sort_entries entries controls =
      let query = p.lower_case (p.trim controls.query) in
      sort_entries controls.sort
        (filter (matches_query query) (filter (of_kind controls.kind) entries))
