-- ===== src/Search/Parameters.antt =====
-- The parameters of a search: the form of web/src/components/SearchPanel.tsx. A date in the form of
-- the server is the platform's, which throws for a text that is no date.
use file_harbor.Base.{
  Bool, List, [], ◌∷◌, ◌++◌, Option, none, some, Text, codes, take, get_or_else, ◌===◌,
  if◌then◌else◌,
}
use file_harbor.Base.OrderedMap
use file_harbor.Base.Results.{js_error, Result, ok, err, and_then}

abbrev pub form_keys : List Text
form_keys =
    codes "name"
    ∷ codes "extension"
    ∷ codes "min_size"
    ∷ codes "max_size"
    ∷ codes "modified_after"
    ∷ codes "modified_before"
    ∷ []

module _ (iso : Text → Option Text) where
  abbrev iso_or_throw : Text → Result Text
  iso_or_throw value = elim (iso value) [
    | none ↦ err (js_error (codes "RangeError"))
    | some date ↦ ok date
  ]

  -- `key.startsWith('modified_') ? ... : value`
  abbrev form_value : Text → Text → Result Text
  form_value key value = if take 9 key === codes "modified_" then iso_or_throw value else ok value

  -- The loop over the fields of the form; an empty one is left out.
  unfoldable pub add_fields :
      List (Text × Text) → List Text → List (Text × Text) → Result (List (Text × Text))
  unfolding OrderedMap.get
  add_fields form [] parameters = ok parameters
  add_fields form (key ∷ keys) parameters = elim (get_or_else (OrderedMap.get key form) []) [
    | [] ↦ add_fields form keys parameters
    | c ∷ value ↦
        and_then (form_value key (c ∷ value))
          (λ v. add_fields form keys (parameters ++ (key, v) ∷ []))
  ]

  unfoldable pub search_parameters : Text → Bool → List (Text × Text) → Result (List (Text × Text))
  unfolding add_fields
  search_parameters directory recursive form = add_fields form form_keys (
      (codes "path", directory)
      ∷ (codes "recursive", (if recursive then codes "true" else codes "false"))
      ∷ [])
