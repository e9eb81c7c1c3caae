-- ===== src/Routes.antt =====
-- The addresses of the client: web/src/runtime.ts, and the two functions on routes of
-- web/src/components/Workspace.tsx. `encodeURIComponent` is a parameter. `trim` takes off the
-- characters below 33 and the non-ASCII white space of the language.
pub mod Laws
mod Tests
use file_harbor.Base.{
  ℕ, ◌+◌, Bool, true, false, not, ◌&&◌, ◌||◌, List, [], ◌∷◌, ◌++◌, Option, none, some, Text, codes,
  slash, truthy, ◌==◌, ◌===◌, leb, if◌then◌else◌, get_or_else, map, but_last, segments, join_slash,
  any, take,
}
use file_harbor.Api.Records.{Language, en, zh}

-- The white space and the line ends of the language.
abbrev white_space : List ℕ
white_space =
    9 ∷ 10 ∷ 11 ∷ 12 ∷ 13 ∷ 32 ∷ 160 ∷ 5760 ∷ 8232 ∷ 8233 ∷ 8239 ∷ 8287 ∷ 12288 ∷ 65279 ∷ []

abbrev pub is_space : ℕ → Bool
is_space c = any (λ d. d == c) white_space || (leb 8192 c && leb c 8202)

abbrev pub is_slash : ℕ → Bool
is_slash c = c == slash

-- The text without its last characters of a kind: `replace(/[...]+$/, '')`.
unfoldable pub drop_end : (ℕ → Bool) → Text → Text
drop_end p [] = []
drop_end p (c ∷ s) = let rest = drop_end p s in if p c && not (truthy rest) then [] else c ∷ rest

-- The text without its first characters of a kind: `replace(/^[...]+/, '')`.
unfoldable pub drop_start : (ℕ → Bool) → Text → Text
drop_start p [] = []
drop_start p (c ∷ s) = let rest = drop_start p s in if p c then rest else c ∷ s

unfoldable pub trim : Text → Text
unfolding drop_start drop_end
trim s = drop_end is_space (drop_start is_space s)

-- The same character, or the capital of a small letter.
abbrev same_letter : ℕ → ℕ → Bool
same_letter lower c = c == lower || (leb b'a' lower && leb lower b'z' && c + 32 == lower)

-- What is left of a text after a prefix, whose letters match in either case.
abbrev after_prefix : Text → Text → Option Text
after_prefix [] s = some s
after_prefix (c ∷ t) [] = none
after_prefix (c ∷ t) (d ∷ s) = let rest = after_prefix t s in if same_letter c d then rest else none

-- `[^/]+` after the scheme: at least one character that is not a slash.
unfoldable pub after_host : Text → Option Text
unfolding drop_start
after_host [] = none
after_host (c ∷ s) = if is_slash c then none else some (drop_start (λ d. not (is_slash d)) s)

abbrev after_scheme : Text → Option Text → Option Text → Option Text
after_scheme s (some rest) other = after_host rest
after_scheme s none (some rest) = after_host rest
after_scheme s none none = none

-- `replace(/^https?:\/\/[^/]+/i, '')`
unfoldable pub without_origin : Text → Text
unfolding after_host
without_origin s =
    get_or_else
      (after_scheme s (after_prefix (codes "https://") s) (after_prefix (codes "http://") s)) s

-- The last line of `trimBasePath`.
unfoldable pub with_leading_slash : Text → Text
with_leading_slash [] = []
with_leading_slash (c ∷ s) = if is_slash c then (if truthy s then c ∷ s else []) else slash ∷ c ∷ s

unfoldable pub trim_base_path : Text → Text
unfolding trim without_origin drop_end with_leading_slash
trim_base_path value = with_leading_slash (drop_end is_slash (without_origin (trim value)))

-- `baseUrlFrom`
unfoldable pub base_url_from : Text → Text → Text
unfolding drop_start
base_url_from base_path path =
    let suffix = if truthy path then slash ∷ drop_start is_slash path else [] in
    if truthy (base_path ++ suffix) then base_path ++ suffix else slash ∷ []

-- `decodeRouteSplat`
unfoldable pub decode_route_splat : Option Text → Text
unfolding segments join_slash
decode_route_splat splat = join_slash (segments (get_or_else splat []))

pub record RuntimeMetadata : Type 0 where
  pub base_path : Text
  pub csrf_nonce : Text
  pub language : Language
  pub login_next : Text

-- `getRuntime`, with the contents of the page's meta elements, the language of its root in lower
-- case, and the empty text for an element that is missing.
unfoldable pub get_runtime : (Text → Text) → Text → RuntimeMetadata
unfolding trim_base_path base_url_from
get_runtime read_meta root_language =
    let base_path = trim_base_path (read_meta (codes "fileharbor-base")) in
    let locale = read_meta (codes "fileharbor-locale") in
    let next = read_meta (codes "fileharbor-login-next") in
    record {
      base_path = base_path;
      csrf_nonce = read_meta (codes "fileharbor-nonce");
      language =
          if locale === codes "zh-CN"
            || (not (locale === codes "en") && take 2 root_language === codes "zh")
          then zh
          else en;
      login_next = if truthy next then next else base_url_from base_path [];
    }

-- `directoryPathForEditor`
unfoldable pub directory_path_for_editor : Option Text → Text → Text
unfolding segments join_slash
directory_path_for_editor none directory_path = directory_path
directory_path_for_editor (some editor_path) directory_path =
    if truthy editor_path then join_slash (but_last (segments editor_path)) else directory_path

module _ (encode : Text → Text) where
  unfoldable pub encode_path_segments : Text → Text
  unfolding segments join_slash
  encode_path_segments path = join_slash (map encode (segments path))

  unfoldable pub directory_route : Text → Text
  unfolding encode_path_segments
  directory_route path =
      let encoded = encode_path_segments path in
      if truthy encoded then codes "/d/" ++ encoded else codes "/"

  unfoldable pub editor_route : Text → Text
  unfolding encode_path_segments
  editor_route path =
      let encoded = encode_path_segments path in
      if truthy encoded then codes "/edit/" ++ encoded else codes "/edit"

  unfoldable pub item_url : Text → Text → Text → Text
  unfolding base_url_from directory_route editor_route encode_path_segments
  item_url base_path prefix path = base_url_from base_path (
      if prefix === codes "d"
      then directory_route path
      else if prefix === codes "edit"
      then editor_route path
      else slash ∷ prefix ++ slash ∷ encode_path_segments path)
