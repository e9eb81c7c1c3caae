-- ===== src/Routes/Laws.antt =====
-- What the functions on addresses keep.
use file_harbor.Base.{
  ℕ, ◌≡◌, refl, ap, ◌⊎◌, inl, inr, Bool, true, false, not, ◌&&◌, List, [], ◌∷◌, some, Text, slash,
  truthy, filter, map, All, All-filter, arith, Bool-cases, if◌then◌else◌, if_elim, NoSlash,
  split_slash, join_slash, segments, split_slash-NoSlash, split_slash-join_slash, but_last,
  but_last-All,
}
use file_harbor.Routes.{
  is_slash, drop_end, with_leading_slash, trim, without_origin, trim_base_path, decode_route_splat,
  directory_path_for_editor, encode_path_segments,
}

drop_end-drop_end : (p : ℕ → Bool) (s : Text) → drop_end p (drop_end p s) ≡ drop_end p s
unfolding drop_end
drop_end-drop_end p [] = refl
drop_end-drop_end p (c ∷ s) = elim (Bool-cases (p c && not (truthy (drop_end p s)))) [
  | inl h ↦ rw h refl
  | inr h ↦ rw (h, drop_end-drop_end p s, h) refl
]

-- The text begins with a slash and does not end with one.
pub record IsAbsolute (s : Text) : Type 0 where
  pub begins : (t : Text) × (s ≡ slash ∷ t)
  pub ends : drop_end is_slash s ≡ s

kept_end :
    (c : ℕ) (s : Text)
    → drop_end is_slash s ≡ s
    → truthy s ≡ true
    → drop_end is_slash (c ∷ s) ≡ c ∷ s
unfolding drop_end
kept_end c s e h = rw (e, h) (never (is_slash c))
  where
    never : (b : Bool) → (if b && false then [] else c ∷ s) ≡ c ∷ s
    never true = refl
    never false = refl

with_leading_slash-IsAbsolute :
    (s : Text)
    → drop_end is_slash s ≡ s
    → (with_leading_slash s ≡ []) ⊎ IsAbsolute (with_leading_slash s)
unfolding with_leading_slash
with_leading_slash-IsAbsolute [] e = inl refl
with_leading_slash-IsAbsolute (c ∷ s) e =
    if_elim NilOrAbsolute (is_slash c)
      (λ h.
        if_elim NilOrAbsolute (truthy s)
          (λ _. inr (record { begins = (s, ap (λ d. d ∷ s) (ground arith)); ends = e }))
          (λ _. inl refl))
      (λ _. inr (record { begins = (c ∷ s, refl); ends = kept_end slash (c ∷ s) e refl }))
  where
    NilOrAbsolute : Text → Type 0
    NilOrAbsolute r = (r ≡ []) ⊎ IsAbsolute r

-- Whatever the page's metadata holds, the base path is empty, or it begins with a slash and does
-- not end with one.
pub trim_base_path-IsAbsolute :
    (value : Text) → (trim_base_path value ≡ []) ⊎ IsAbsolute (trim_base_path value)
unfolding trim_base_path
trim_base_path-IsAbsolute value =
    with_leading_slash-IsAbsolute (drop_end is_slash (without_origin (trim value)))
      (drop_end-drop_end is_slash (without_origin (trim value)))

abbrev pub NonEmpty : Text → Type 0
NonEmpty s = truthy s ≡ true

filter_keeps : (xs : List Text) → All NonEmpty xs → filter truthy xs ≡ xs
filter_keeps [] h = refl
filter_keeps (x ∷ xs) (h, hs) = rw (h, filter_keeps xs hs) refl

filter-NonEmpty : (xs : List Text) → All NonEmpty (filter truthy xs)
filter-NonEmpty [] = tt
filter-NonEmpty (x ∷ xs) =
    if_elim (All NonEmpty) (truthy x) (λ h. (h, filter-NonEmpty xs)) (λ _. filter-NonEmpty xs)

segments-join_slash :
    (xs : List Text) → All NoSlash xs → All NonEmpty xs → segments (join_slash xs) ≡ xs
unfolding segments
segments-join_slash [] h k = unfold join_slash split_slash in refl
segments-join_slash (x ∷ xs) h k =
    rw (split_slash-join_slash (x ∷ xs) (λ e. cc) h) (filter_keeps (x ∷ xs) k)

segments-NoSlash : (s : Text) → All NoSlash (segments s)
unfolding segments
segments-NoSlash s = All-filter NoSlash truthy (split_slash s) (split_slash-NoSlash s)

segments-NonEmpty : (s : Text) → All NonEmpty (segments s)
unfolding segments
segments-NonEmpty s = filter-NonEmpty (split_slash s)

-- The path that is read from an address has the segments of the address; the folder of an edited
-- file, whose path is not empty, has all of them but the last.
pub route_segments :
    (splat path : Text)
    → NonEmpty path
    → (segments (decode_route_splat (some splat)) ≡ segments splat)
      × (segments (directory_path_for_editor (some path) []) ≡ but_last (segments path))
unfolding decode_route_splat directory_path_for_editor
route_segments splat path h = (
  segments-join_slash (segments splat) (segments-NoSlash splat) (segments-NonEmpty splat),
  rw h (
      segments-join_slash (but_last (segments path))
        (but_last-All NoSlash (segments path) (segments-NoSlash path))
        (but_last-All NonEmpty (segments path) (segments-NonEmpty path))),
)

module _ (encode decode : Text → Text) (inverse : (s : Text) → decode (encode s) ≡ s)
    (encode-NoSlash : (s : Text) → NoSlash (encode s))
    (encode-NonEmpty : (s : Text) → NonEmpty s → NonEmpty (encode s)) where
  encoded :
      (xs : List Text)
      → All NonEmpty xs
      → All NoSlash (map encode xs) × All NonEmpty (map encode xs)
  encoded [] h = (tt, tt)
  encoded (x ∷ xs) (h, hs) =
      let (a, b) = encoded xs hs in ((encode-NoSlash x, a), (encode-NonEmpty x h, b))

  map-decode-encode : (xs : List Text) → map decode (map encode xs) ≡ xs
  map-decode-encode [] = refl
  map-decode-encode (x ∷ xs) = rw (inverse x, map-decode-encode xs) refl

  -- If `encode` can be undone, writes no slash and makes no text empty, then the encoded path,
  -- split again and decoded part by part, has the segments of the path.
  pub encode_path_segments_inverse :
      (path : Text) → map decode (segments (encode_path_segments encode path)) ≡ segments path
  unfolding encode_path_segments
  encode_path_segments_inverse path =
      let (a, b) = encoded (segments path) (segments-NonEmpty path) in
      rw (segments-join_slash (map encode (segments path)) a b) (map-decode-encode (segments path))
