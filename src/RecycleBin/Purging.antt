-- ===== src/RecycleBin/Purging.antt =====
-- Nothing is purged before the user has typed the word for it.
use file_harbor.Base.{
  ◌≡◌, refl, ◌∙◌, Bool, true, false, List, [], ◌∷◌, none, some, if_elim, is_some, subst, ◌&&◌, all,
  if◌then◌else◌, inl, inr, Bool-cases,
}
use file_harbor.Base.Results.{ok, err}
use file_harbor.RecycleBin.{
  Bin, PendingPurge, data_effect, open_effect, confirm_purge, set_pending_purge,
  displayed_next_cursor, Event, panel_opened, more_pressed, panel_closed, purge_dismissed,
  page_loaded, purge_pressed, typed, purge_answered, react, run_events,
}

abbrev pub is_not_typed : Event → Bool
is_not_typed (typed text) = false
is_not_typed _ = true

taken-confirmation : (b : Bin) → (data_effect b).confirmation ≡ b.confirmation
unfolding data_effect
taken-confirmation b =
    elim b.data_ as (λ o. (data_effect (record b { data_ = o })).confirmation ≡ b.confirmation) [
      | none ↦ refl
      | some page ↦
          if_elim (λ (q : Bin). q.confirmation ≡ b.confirmation) b.open_ (λ _. refl) (λ _. refl)
    ]

open_effect-confirmation : (b : Bin) → (open_effect b).confirmation ≡ b.confirmation
unfolding open_effect
open_effect-confirmation b =
    if_elim (λ (q : Bin). q.confirmation ≡ b.confirmation) b.open_ (λ _. refl) (λ _. refl)

dismissed-empty :
    (changed : Bool) (b : Bin) → b.confirmation ≡ [] → (if changed then [] else b.confirmation) ≡ []
dismissed-empty true b h = refl
dismissed-empty false b h = h

react-empty :
    (b : Bin) (e : Event)
    → b.confirmation ≡ []
    → is_not_typed e ≡ true
    → (react b e).confirmation ≡ []
unfolding react set_pending_purge
react-empty b (panel_opened cached) h still =
    taken-confirmation (record (open_effect (record b { open_ = true })) { data_ = cached })
    ∙ open_effect-confirmation (record b { open_ = true })
    ∙ h
react-empty b panel_closed h still = h
react-empty b (more_pressed cached) h still =
    taken-confirmation (record b { cursor = displayed_next_cursor b; data_ = cached }) ∙ h
react-empty b (page_loaded page) h still = taken-confirmation (record b { data_ = some page }) ∙ h
react-empty b (purge_pressed pending) h still = refl
react-empty b purge_dismissed h still = dismissed-empty (is_some b.pending_purge) b h
react-empty b (typed text) h still = absurd cc
react-empty b (purge_answered (ok value)) h still = dismissed-empty (is_some b.pending_purge) b h
react-empty b (purge_answered (err e)) h still = h

run_events-empty :
    (b : Bin) (es : List Event)
    → b.confirmation ≡ []
    → all is_not_typed es ≡ true
    → (run_events b es).confirmation ≡ []
unfolding run_events
run_events-empty b [] h still = h
run_events-empty b (e ∷ es) h still = elim (Bool-cases (is_not_typed e)) [
  | inl quiet ↦
      run_events-empty (react b e) es (react-empty b e h quiet)
        (subst (λ x. (x && all is_not_typed es) ≡ true) quiet still)
  | inr types ↦ absurd (cc (subst (λ x. (x && all is_not_typed es) ≡ true) types still))
]

-- Once a purge has been chosen, for an entry or for all of them, no request to purge is sent by a
-- confirmation after any events among which nothing is typed, whatever was typed before.
pub purge_needs_typing :
    (b : Bin) (pending : PendingPurge) (es : List Event)
    → all is_not_typed es ≡ true
    → confirm_purge (run_events b (purge_pressed pending ∷ es)) ≡ []
unfolding run_events
purge_needs_typing b pending es still =
    unconfirmed (run_events (react b (purge_pressed pending)) es) (
      run_events-empty (react b (purge_pressed pending)) es (unfold react set_pending_purge in refl)
        still)
  where
    unconfirmed : (q : Bin) → q.confirmation ≡ [] → confirm_purge q ≡ []
    unconfirmed q h = unfold confirm_purge in rw h refl
