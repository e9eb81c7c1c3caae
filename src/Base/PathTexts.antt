-- ===== src/Base/PathTexts.antt =====
-- `s.split('/')`, `parts.join('/')`, `filter(Boolean)`, and the parent of a path, as the client
-- writes them in many places.
use Prim.Native.Nat.{ℕ}
use mathlib.Core.Path.{◌≡◌, refl, ap, ◌∙◌}
use mathlib.Core.Logic.{◌≢◌}
use mathlib.Core.List.{List, [], ◌∷◌, ◌++◌}
use native.Mathlib.Omega.{arith}
use file_harbor.Base.Tests.{◌==◌, if◌then◌else◌}
use file_harbor.Base.Lists.{but_last, filter, All}
use file_harbor.Base.Texts.{Text, truthy}

abbrev pub slash : ℕ
slash = b'/'

-- Put a character in front of the first part.
unfoldable pub push_front : ℕ → List Text → List Text
push_front c [] = (c ∷ []) ∷ []
push_front c (p ∷ ps) = (c ∷ p) ∷ ps

unfoldable pub split_slash : Text → List Text
unfolding push_front
split_slash [] = [] ∷ []
split_slash (c ∷ s) = if c == slash then [] ∷ split_slash s else push_front c (split_slash s)

unfoldable pub join_slash : List Text → Text
join_slash [] = []
join_slash (p ∷ []) = p
join_slash (p ∷ q ∷ ps) = p ++ slash ∷ join_slash (q ∷ ps)

-- `path.split('/').filter(Boolean)`
unfoldable pub segments : Text → List Text
unfolding split_slash
segments path = filter truthy (split_slash path)

-- `path.split('/').slice(0, -1).join('/')`
unfoldable pub parent_path : Text → Text
unfolding split_slash join_slash
parent_path path = join_slash (but_last (split_slash path))

abbrev pub NoSlash : Text → Type 0
NoSlash [] = Unit
NoSlash (c ∷ s) = (c ≢ slash) × NoSlash s

push_front-NoSlash :
    (c : ℕ) (ps : List Text) → c ≢ slash → All NoSlash ps → All NoSlash (push_front c ps)
unfolding push_front
push_front-NoSlash c [] n h = ((n, tt), tt)
push_front-NoSlash c (p ∷ ps) n (h, hs) = ((n, h), hs)

-- No part of a split holds a slash.
pub split_slash-NoSlash : (s : Text) → All NoSlash (split_slash s)
unfolding split_slash
split_slash-NoSlash [] = (tt, tt)
split_slash-NoSlash (c ∷ s) =
    ground (arith, split_slash-NoSlash s, push_front-NoSlash c (split_slash s))

-- A split has at least one part.
pub split_slash-ne-nil : (s : Text) → split_slash s ≢ []
unfolding split_slash
split_slash-ne-nil [] e = cc
split_slash-ne-nil (c ∷ s) e = absurd (ground (arith, split_slash-ne-nil s))

join_slash-push_front :
    (c : ℕ) (ps : List Text) → ps ≢ [] → join_slash (push_front c ps) ≡ c ∷ join_slash ps
unfolding push_front join_slash
join_slash-push_front c [] h = absurd (h refl)
join_slash-push_front c (p ∷ []) h = refl
join_slash-push_front c (p ∷ q ∷ ps) h = refl

join_slash-nil : (ps : List Text) → ps ≢ [] → join_slash ([] ∷ ps) ≡ slash ∷ join_slash ps
unfolding join_slash
join_slash-nil [] h = absurd (h refl)
join_slash-nil (p ∷ ps) h = refl

-- Joining the parts of a text gives the text back.
pub join_slash-split_slash : (s : Text) → join_slash (split_slash s) ≡ s
unfolding split_slash
join_slash-split_slash [] = unfold join_slash in refl
join_slash-split_slash (c ∷ s) = ground (
  arith,
  split_slash-ne-nil s,
  join_slash-split_slash s,
  join_slash-nil (split_slash s),
  join_slash-push_front c (split_slash s),
)

split_slash-append : (p s : Text) → NoSlash p → split_slash (p ++ slash ∷ s) ≡ p ∷ split_slash s
unfolding split_slash
split_slash-append [] s h = refl
split_slash-append (c ∷ p) s (n, h) = ground (arith, split_slash-append p s h)

split_slash_of_NoSlash : (p : Text) → NoSlash p → split_slash p ≡ p ∷ []
unfolding split_slash
split_slash_of_NoSlash [] h = refl
split_slash_of_NoSlash (c ∷ p) (n, h) = ground (arith, split_slash_of_NoSlash p h)

-- Parts without a slash are found again by a split of their join.
pub split_slash-join_slash :
    (ps : List Text) → ps ≢ [] → All NoSlash ps → split_slash (join_slash ps) ≡ ps
unfolding join_slash
split_slash-join_slash [] n h = absurd (n refl)
split_slash-join_slash (p ∷ []) n (h, _) = split_slash_of_NoSlash p h
split_slash-join_slash (p ∷ q ∷ ps) n (h, hs) =
    split_slash-append p _ h ∙ ap (p ∷◌) (split_slash-join_slash (q ∷ ps) (λ e. cc) hs)

pub but_last-All {ℓ} : (P : Text → Type ℓ) (ps : List Text) → All P ps → All P (but_last ps)
but_last-All P [] h = tt
but_last-All P (p ∷ []) h = tt
but_last-All P (p ∷ q ∷ ps) (h, hs) = (h, but_last-All P (q ∷ ps) hs)
