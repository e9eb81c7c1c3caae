-- ===== src/Translations/Tests.antt =====
-- A message with a name in it.
use file_harbor.Base.{◌≡◌, refl, List, [], ◌∷◌, Text, codes}
use file_harbor.Translations.{
  Messages, message, group, no_member, member, find_member, translate, fill, resolve, walk,
  split_dot, expand, dollar, replace_from,
}

abbrev english : Messages
english = group (
    member (codes "error") (group (member (codes "generic") (message (codes "Failed.")) no_member))
      (member (codes "recycleBin")
        (group (member (codes "restored") (message (codes "Restored {name}.")) no_member))
        no_member))

abbrev named : Text → List (Text × Text)
named name = (codes "name", name) ∷ []

filled :
    translate english (codes "recycleBin.restored") (named (codes "a.txt"))
    ≡ codes "Restored a.txt."
unfolding translate resolve walk find_member split_dot fill replace_from expand dollar
filled = refl

unknown_error : translate english (codes "error.gone") [] ≡ codes "Failed."
unfolding translate resolve walk find_member split_dot fill
unknown_error = refl

unknown_key : translate english (codes "dialog") [] ≡ codes "dialog"
unfolding translate resolve walk find_member split_dot fill
unknown_key = refl

-- A file whose name has two dollar signs is shown with one.
dollar_lost :
    translate english (codes "recycleBin.restored") (named (codes "a$$.txt"))
    ≡ codes "Restored a$.txt."
unfolding translate resolve walk find_member split_dot fill replace_from expand dollar
dollar_lost = refl
