-- ===== src/Routes/Tests.antt =====
-- Addresses of small paths.
use file_harbor.Base.{
  ◌+◌, ◌-◌, arith, ◌≡◌, refl, ◌⊎◌, [], ◌∷◌, Text, codes, some, map, but_last, segments, NoSlash,
}
use file_harbor.Routes.{
  trim_base_path, base_url_from, decode_route_splat, directory_path_for_editor,
  encode_path_segments,
}
use file_harbor.Routes.Laws.{
  IsAbsolute, NonEmpty, trim_base_path-IsAbsolute, route_segments, encode_path_segments_inverse,
}

origin_dropped : trim_base_path (codes " HTTPS://host:80/files// ") ≡ codes "/files"
unfolding trim_base_path
origin_dropped = refl

trim_base_path-IsAbsolute_example :
    (trim_base_path (codes "files/") ≡ []) ⊎ IsAbsolute (trim_base_path (codes "files/"))
trim_base_path-IsAbsolute_example = trim_base_path-IsAbsolute (codes "files/")

login_page : base_url_from (codes "/files") (codes "login") ≡ codes "/files/login"
unfolding base_url_from
login_page = refl

route_segments_example :
    (segments (decode_route_splat (some (codes "a//b"))) ≡ segments (codes "a//b"))
    × (segments (directory_path_for_editor (some (codes "a/b.md")) [])
        ≡ but_last (segments (codes "a/b.md")))
route_segments_example = route_segments (codes "a//b") (codes "a/b.md") refl

-- An encoding that writes two characters for each, of which none is a slash.
abbrev doubled : Text → Text
doubled [] = []
doubled (c ∷ s) = 48 ∷ (c + 49) ∷ doubled s

abbrev halved : Text → Text
halved [] = []
halved (c ∷ []) = []
halved (c ∷ d ∷ s) = (d - 49) ∷ halved s

doubled_inverse : (s : Text) → halved (doubled s) ≡ s
doubled_inverse [] = refl
doubled_inverse (c ∷ s) = let e : (c + 49) - 49 ≡ c = omega arith in rw (e, doubled_inverse s) refl

doubled-NoSlash : (s : Text) → NoSlash (doubled s)
doubled-NoSlash [] = tt
doubled-NoSlash (c ∷ s) =
    (λ e. absurd (omega (arith, e)), (λ e. absurd (omega (arith, e)), doubled-NoSlash s))

doubled-NonEmpty : (s : Text) → NonEmpty s → NonEmpty (doubled s)
doubled-NonEmpty [] h = h
doubled-NonEmpty (c ∷ s) h = refl

encode_path_segments_inverse_example :
    map halved (segments (encode_path_segments doubled (codes "a/b"))) ≡ segments (codes "a/b")
encode_path_segments_inverse_example =
    encode_path_segments_inverse doubled halved doubled_inverse doubled-NoSlash doubled-NonEmpty
      (codes "a/b")
