-- ===== src/Translations.antt =====
-- The translations: web/src/i18n/index.tsx. The messages are a tree of texts; a number among the
-- values is its text.
mod Tests
use file_harbor.Base.{
  ℕ, ◌+◌, ◌-◌, zero, suc, Bool, true, false, List, [], ◌∷◌, ◌++◌, Option, none, some, Text, codes,
  length, take, drop, get_or_else, ◌===◌, ◌==◌, if◌then◌else◌,
}
use file_harbor.Api.Records.{Language, en, zh}

-- `Translation`: messages and groups of them by their names.
mutual
  pub data Messages : Type 0 where
    message : Text → Messages
    group : Members → Messages

  pub data Members : Type 0 where
    no_member : Members
    member : Text → Messages → Members → Members

unfoldable pub find_member : Text → Members → Option Messages
find_member name no_member = none
find_member name (member key m ms) = if key === name then some m else find_member name ms

-- `key.split('.')`
abbrev pub dot : ℕ
dot = b'.'

abbrev push_front : ℕ → List Text → List Text
push_front c [] = (c ∷ []) ∷ []
push_front c (part ∷ parts) = (c ∷ part) ∷ parts

unfoldable pub split_dot : Text → List Text
split_dot [] = [] ∷ []
split_dot (c ∷ s) = let rest = split_dot s in if c == dot then [] ∷ rest else push_front c rest

-- `result?.[segment]`: a text has no such member.
abbrev step : Option Messages → Text → Option Messages
step none segment = none
step (some (message text)) segment = none
step (some (group members)) segment = find_member segment members

unfoldable pub walk : Option Messages → List Text → Option Messages
unfolding find_member
walk m [] = m
walk m (segment ∷ segments) = walk (step m segment) segments

abbrev text_of : Option Messages → Option Text
text_of (some (message text)) = some text
text_of _ = none

-- `resolve`
unfoldable pub resolve : Messages → Text → Option Text
unfolding walk split_dot
resolve messages key = text_of (walk (some messages) (split_dot key))

-- What a replacement says after a dollar sign: a dollar sign, what was found, or what stands before
-- or after it.
unfoldable pub dollar : Text → Text → Text → ℕ → Text
dollar found before after c =
    if c == b'$'
    then b'$' ∷ []
    else if c == b'&'
    then found
    else if c == b'`'
    then before
    else if c == b'\''
    then after
    else b'$' ∷ c ∷ []

-- What `replaceAll` puts for a match; the Boolean says that a dollar sign was read.
unfoldable pub expand : Text → Text → Text → Bool → Text → Text
unfolding dollar
expand found before after false [] = []
expand found before after true [] = b'$' ∷ []
expand found before after true (c ∷ s) =
    dollar found before after c ++ expand found before after false s
expand found before after false (c ∷ s) = elim (c == b'$') [
  | true ↦ expand found before after true s
  | false ↦ c ∷ expand found before after false s
]

-- `text.replaceAll(pattern, replacement)` for a pattern that is not empty, from a place in the
-- text on, with what stands before it; the number says how much of a match is still to be passed
-- over.
unfoldable pub replace_from : Text → Text → Text → ℕ → Text → Text
unfolding expand
replace_from pattern replacement before skip [] = []
replace_from pattern replacement before (suc skip) (c ∷ s) =
    replace_from pattern replacement (before ++ c ∷ []) skip s
replace_from pattern replacement before zero (c ∷ s) =
    elim (take (length pattern) (c ∷ s) === pattern) [
      | true ↦
          expand pattern before (drop (length pattern) (c ∷ s)) false replacement
          ++ replace_from pattern replacement (before ++ c ∷ []) (length pattern - 1) s
      | false ↦ c ∷ replace_from pattern replacement (before ++ c ∷ []) 0 s
    ]

-- The placeholder of a name in braces.
abbrev pub placeholder : Text → Text
placeholder name = codes "{" ++ name ++ codes "}"

unfoldable pub fill : Text → List (Text × Text) → Text
unfolding replace_from
fill text [] = text
fill text ((name, value) ∷ values) = fill (replace_from (placeholder name) value [] 0 text) values

-- `t` for the messages of the chosen language.
unfoldable pub translate : Messages → Text → List (Text × Text) → Text
unfolding resolve fill
translate messages key values =
    fill
      (get_or_else (resolve messages key) (
        if take 6 key === codes "error."
        then get_or_else (resolve messages (codes "error.generic")) []
        else key))
      values

-- `locale === 'zh' ? zh : en`
abbrev pub messages_of : Messages → Messages → Language → Messages
messages_of english chinese en = english
messages_of english chinese zh = chinese
