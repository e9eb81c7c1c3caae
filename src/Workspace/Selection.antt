-- ===== src/Workspace/Selection.antt =====
-- `listingSelectionState` of web/src/components/workspaceListing.ts: the selected entries, and
-- the states of the box that selects all. A selection is a test on paths.
use file_harbor.Base.{
  ◌≡◌, refl, inl, inr, Bool, not, ◌&&◌, List, [], ◌∷◌, Text, arith, length, filter, all, any, ltb,
  ◌==◌, length-filter-le, Bool-cases,
}
use file_harbor.Api.Records.{FileEntry}

pub record ListingSelectionState : Type 0 where
  pub selected_entries : List FileEntry
  pub all_selected : Bool
  pub partially_selected : Bool

unfoldable pub listing_selection_state : List FileEntry → (Text → Bool) → ListingSelectionState
listing_selection_state entries has =
    let chosen = filter (λ e. has e.path) entries in
    record {
      selected_entries = chosen;
      all_selected = ltb 0 (length entries) && length chosen == length entries;
      partially_selected = ltb 0 (length chosen) && ltb (length chosen) (length entries);
    }

module _ {ℓ} {A : Type ℓ} (has : A → Bool) where
  full_filter : (xs : List A) → (length (filter has xs) == length xs) ≡ all has xs
  full_filter [] = refl
  full_filter (x ∷ xs) = elim (Bool-cases (has x)) [
    | inl h ↦ rw h (ground (arith, full_filter xs))
    | inr h ↦ rw h (ground (arith, length-filter-le has xs))
  ]

  some_filter : (xs : List A) → ltb 0 (length (filter has xs)) ≡ any has xs
  some_filter [] = refl
  some_filter (x ∷ xs) = elim (Bool-cases (has x)) [
    | inl h ↦ rw h (ground arith)
    | inr h ↦ rw h (some_filter xs)
  ]

  short_filter :
      (xs : List A) → ltb (length (filter has xs)) (length xs) ≡ any (λ x. not (has x)) xs
  short_filter [] = refl
  short_filter (x ∷ xs) = elim (Bool-cases (has x)) [
    | inl h ↦ rw h (ground (arith, short_filter xs))
    | inr h ↦ rw h (ground (arith, length-filter-le has xs))
  ]

-- The box is checked if there are entries and all of them are selected, and half checked if one is
-- selected and one is not, although the code compares lengths only.
pub listing_selection_state_lem :
    (entries : List FileEntry) (has : Text → Bool)
    → ((listing_selection_state entries has).all_selected
        ≡ (ltb 0 (length entries) && all (λ e. has e.path) entries))
      × ((listing_selection_state entries has).partially_selected
          ≡ (any (λ e. has e.path) entries && any (λ e. not (has e.path)) entries))
unfolding listing_selection_state
listing_selection_state_lem entries has = (
  rw (full_filter (λ e. has e.path) entries) refl,
  rw (some_filter (λ e. has e.path) entries, short_filter (λ e. has e.path) entries) refl,
)
