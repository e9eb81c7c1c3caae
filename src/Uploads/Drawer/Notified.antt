-- ===== src/Uploads/Drawer/Notified.antt =====
-- The view is told once of each batch of uploads.
use file_harbor.Base.{
  ℕ, ◌≤◌, ◌<◌, length-append, ◌≡◌, ◌∙◌, refl, ap, Bool, true, false, not, ◌&&◌, List, [], ◌∷◌, ◌++◌,
  Text, length, ltb, any, if_elim, inl, inr, Bool-cases, if◌then◌else◌, ◌===◌, all, arith,
}
use file_harbor.Uploads.Model.{QueueItem}
use file_harbor.Uploads.Drawer.{
  Drawer, has_non_terminal, is_completed, add_text, add_completed, collect, all_done, tell, render,
}

-- The renderings of a list of snapshots.
abbrev pub render_all : Drawer → List (List QueueItem) → Drawer
render_all d [] = d
render_all d (items ∷ more) = render_all (render d items) more

and_not : (b c : Bool) → c ≡ true → (b && not c) ≡ false
and_not true c h = simp h
and_not false c h = refl

tell-silent :
    (d : Drawer)
    → (all_done d && not d.was_all_done) ≡ false
    → ((tell d).told ≡ d.told) × ((tell d).was_all_done ≡ d.was_all_done)
unfolding tell
tell-silent d h = (simp h, simp h)

tell-loud :
    (d : Drawer)
    → (all_done d && not d.was_all_done) ≡ true
    → ((tell d).told ≡ d.told ++ d.completed_destinations ∷ []) × ((tell d).was_all_done ≡ true)
unfolding tell
tell-loud d h = (simp h, simp h)

not_done : (a b c e : Bool) → c ≡ true → ((a && b && not c) && e) ≡ false
not_done true true c e h = simp h
not_done true false c e h = refl
not_done false b c e h = refl

reset : (was b : Bool) → b ≡ true → (if was && b then false else was) ≡ false
reset true b h = simp h
reset false b h = refl

kept : (was b : Bool) → b ≡ false → (if was && b then false else was) ≡ was
kept true b h = simp h
kept false b h = refl

-- While items are under way nothing is told, and a finished batch is forgotten.
busy-silent :
    (d : Drawer) (items : List QueueItem)
    → has_non_terminal items ≡ true
    → ((render d items).told ≡ d.told) × ((render d items).was_all_done ≡ false)
unfolding render collect all_done
busy-silent d items busy =
    let e = collect (record d { items = items }) in
    let quiet = tell-silent e (
      not_done (ltb 0 (length items)) (ltb 0 (length e.completed_destinations))
        (has_non_terminal items) (not e.was_all_done) busy) in
    (quiet.0, quiet.1 ∙ reset d.was_all_done (has_non_terminal items) busy)

-- Once it has been told, further renderings of finished items tell nothing.
quiet-silent :
    (d : Drawer) (items : List QueueItem)
    → d.was_all_done ≡ true
    → has_non_terminal items ≡ false
    → ((render d items).told ≡ d.told) × ((render d items).was_all_done ≡ true)
unfolding render collect
quiet-silent d items done quiet =
    let e = collect (record d { items = items }) in
    let still : e.was_all_done ≡ true = kept d.was_all_done (has_non_terminal items) quiet ∙ done in
    let silent = tell-silent e (and_not (all_done e) e.was_all_done still) in
    (silent.0, silent.1 ∙ still)

abbrev pub is_quiet : List QueueItem → Bool
is_quiet items = not (has_non_terminal items)

all_quiet-silent :
    (d : Drawer) (more : List (List QueueItem))
    → d.was_all_done ≡ true
    → all is_quiet more ≡ true
    → (render_all d more).told ≡ d.told
all_quiet-silent d [] done quiet = refl
all_quiet-silent d (items ∷ more) done quiet = elim (Bool-cases (has_non_terminal items)) [
  | inl busy ↦ absurd (cc (simp busy at quiet))
  | inr idle ↦
      let once = quiet-silent d items done idle in
      all_quiet-silent (render d items) more once.1 (simp idle at quiet) ∙ once.0
]

add_text-length : (s : Text) (texts : List Text) → length texts ≤ length (add_text s texts)
add_text-length s texts =
    if_elim (λ r. length texts ≤ length r) (any (λ u. u === s) texts) (λ _. omega arith)
      (λ _. omega (arith, length-append texts (s ∷ [])))

add_text-grows : (s : Text) (texts : List Text) → 0 < length (add_text s texts)
add_text-grows s [] = omega arith
add_text-grows s (t ∷ texts) = omega (arith, add_text-length s (t ∷ texts))

add_completed-length :
    (items : List QueueItem) (found : List Text) → length found ≤ length (add_completed items found)
add_completed-length [] found = omega arith
add_completed-length (item ∷ items) found =
    if_elim (λ r. length found ≤ length (add_completed items r)) (is_completed item.phase)
      (λ _. omega (
        arith,
        add_text-length item.path found,
        add_completed-length items (add_text item.path found),
      ))
      (λ _. add_completed-length items found)

abbrev pub some_completed : List QueueItem → Bool
some_completed items = any (λ (item : QueueItem). is_completed item.phase) items

add_completed-grows :
    (items : List QueueItem) (found : List Text)
    → some_completed items ≡ true
    → (0 < length items) × (0 < length (add_completed items found))
add_completed-grows [] found h = absurd cc
add_completed-grows (item ∷ items) found h = elim (Bool-cases (is_completed item.phase)) [
  | inl completed ↦ (
    omega arith,
    simp completed (
        omega (
          arith,
          add_text-grows item.path found,
          add_completed-length items (add_text item.path found),
        )),
  )
  | inr other ↦ (omega arith, simp other (add_completed-grows items found (simp other at h)).1)
]

done_now :
    (a b : ℕ) (c w : Bool)
    → 0 < a
    → 0 < b
    → c ≡ false
    → w ≡ false
    → (ltb 0 a && ltb 0 b && not c && not w) ≡ true
done_now a b c w h k e f = rw (e, f) (ground arith)

first_told :
    (d : Drawer) (items : List QueueItem)
    → d.was_all_done ≡ false
    → has_non_terminal items ≡ false
    → some_completed items ≡ true
    → ((render d items).told ≡ d.told ++ add_completed items d.completed_destinations ∷ [])
      × ((render d items).was_all_done ≡ true)
unfolding render collect all_done
first_told d items was quiet some_done =
    let e = collect (record d { items = items }) in
    let still : e.was_all_done ≡ false = kept d.was_all_done (has_non_terminal items) quiet ∙ was in
    let same : e.completed_destinations ≡ add_completed items d.completed_destinations = simp was in
    let grows =
      add_completed-grows items
        (if d.was_all_done && has_non_terminal items then [] else d.completed_destinations)
        some_done in
    let loud = tell-loud e (
      done_now (length items) (length e.completed_destinations) (has_non_terminal items)
        e.was_all_done grows.0 grows.1 quiet still) in
    (loud.0 ∙ ap (λ found. d.told ++ found ∷ []) same, loud.1)

-- If an upload is under way in one rendering and none is in any later one, and one is completed in
-- the first of these, then the view is told exactly once: of the destinations that the rendering
-- with the upload under way had collected and those of the uploads completed after it.
pub told_once :
    (d : Drawer) (busy items : List QueueItem) (more : List (List QueueItem))
    → has_non_terminal busy ≡ true
    → has_non_terminal items ≡ false
    → some_completed items ≡ true
    → all is_quiet more ≡ true
    → (render_all d (busy ∷ items ∷ more)).told
      ≡ d.told ++ add_completed items (render d busy).completed_destinations ∷ []
told_once d busy items more under_way quiet some_done later =
    let before = busy-silent d busy under_way in
    let told = first_told (render d busy) items before.1 quiet some_done in
    all_quiet-silent (render (render d busy) items) more told.1 later
    ∙ told.0
    ∙ ap (λ x. x ++ add_completed items (render d busy).completed_destinations ∷ []) before.0
