-- ===== src/Favorites/Merge.antt =====
-- What a change does to a cached list without repeated ids.
use file_harbor.Base.{
  ℕ, suc, ◌≡◌, refl, sym, ap, ◌∙◌, inl, inr, Bool, true, false, not, List, [], ◌∷◌, ◌++◌, none,
  some, Text, arith, filter, length, map, any, ◌===◌, ===_iff, Bool-cases, if◌then◌else◌,
}
use file_harbor.Api.Records.{Favorite}
use file_harbor.Favorites.{find_index, insert_at, merge}

abbrev pub has_id : Text → List Favorite → Bool
has_id id xs = any (λ item. item.id === id) xs

-- No id stands twice in the list.
abbrev pub DistinctIds : List Favorite → Type 0
DistinctIds [] = Unit
DistinctIds (x ∷ xs) = (has_id x.id xs ≡ false) × DistinctIds xs

-- The item with the id of the entry is replaced by the entry.
abbrev pub replaced : Favorite → Favorite → Favorite
replaced entry item = if item.id === entry.id then entry else item

without : Text → List Favorite → List Favorite
without id xs = filter (λ item. not (item.id === id)) xs

without_absent : (id : Text) (xs : List Favorite) → has_id id xs ≡ false → without id xs ≡ xs
unfolding without
without_absent id [] h = refl
without_absent id (x ∷ xs) h = elim (Bool-cases (x.id === id)) [
  | inl e ↦ absurd (ground arith)
  | inr e ↦ rw (e, without_absent id xs (rw e at h)) refl
]

find_index_absent :
    (id : Text) (xs : List Favorite) → has_id id xs ≡ false → find_index id xs ≡ none
unfolding find_index
find_index_absent id [] h = refl
find_index_absent id (x ∷ xs) h = elim (Bool-cases (x.id === id)) [
  | inl e ↦ absurd (ground arith)
  | inr e ↦ rw (e, find_index_absent id xs (rw e at h)) refl
]

map_absent :
    (entry : Favorite) (xs : List Favorite)
    → has_id entry.id xs ≡ false
    → map (replaced entry) xs ≡ xs
map_absent entry [] h = refl
map_absent entry (x ∷ xs) h = elim (Bool-cases (x.id === entry.id)) [
  | inl e ↦ absurd (ground arith)
  | inr e ↦ rw (e, map_absent entry xs (rw e at h)) refl
]

-- Found at an index, and put back there.
replace_present :
    (entry : Favorite) (xs : List Favorite)
    → DistinctIds xs
    → has_id entry.id xs ≡ true
    → (i : ℕ) × (find_index entry.id xs ≡ some i)
      × (insert_at i entry (without entry.id xs) ≡ map (replaced entry) xs)
unfolding find_index insert_at without
replace_present entry [] d h = cc
replace_present entry (x ∷ xs) (fresh, d) h = elim (Bool-cases (x.id === entry.id)) [
  | inl e ↦
      let same : x.id ≡ entry.id = (===_iff x.id entry.id).0 e in
      let absent : has_id entry.id xs ≡ false = rw (← same) fresh in
      (
        0,
        rw e refl,
        rw e (
            ap (λ ys. entry ∷ ys)
              (without_absent entry.id xs absent ∙ sym (map_absent entry xs absent))),
      )
  | inr e ↦
      let (i, f, g) = replace_present entry xs d (rw e at h) in
      (suc i, rw (e, f) refl, rw e (ap (λ ys. x ∷ ys) g))
]

at_end : (xs : List Favorite) (entry : Favorite) → insert_at (length xs) entry xs ≡ xs ++ entry ∷ []
unfolding insert_at
at_end [] entry = refl
at_end (x ∷ xs) entry = ap (λ ys. x ∷ ys) (at_end xs entry)

-- On a list without repeated ids, a removal takes the entry out; any other change puts the entry
-- in the place of the item with its id, or at the end if there is none.
pub merge-replaced :
    (previous : List Favorite) (entry : Favorite)
    → DistinctIds previous
    → (merge previous entry true ≡ filter (λ item. not (item.id === entry.id)) previous)
      × (merge previous entry false ≡ (
          if has_id entry.id previous
          then map (replaced entry) previous
          else previous ++ entry ∷ []))
unfolding merge
merge-replaced previous entry d = (
  refl,
  elim (Bool-cases (has_id entry.id previous)) [
    | inl there ↦
        let (i, f, g) = replace_present entry previous d there in
        rw (there, f) (unfold without insert_at in g)
    | inr absent ↦
        rw (absent, find_index_absent entry.id previous absent)
          (at_end (filter (λ item. not (item.id === entry.id)) previous) entry
            ∙ ap (λ xs. xs ++ entry ∷ [])
                (unfold without in without_absent entry.id previous absent))
  ],
)
