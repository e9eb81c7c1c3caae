-- ===== src/Api/Settling.antt =====
-- When the promise of `xhrUploadPart` is settled.
use file_harbor.Base.{
  ℕ, Bool, true, false, ◌&&◌, ◌≡◌, refl, sym, ap, subst, List, [], ◌∷◌, none, some, leb, ltb,
  if_elim,
}
use file_harbor.Base.Results.{Result}
use file_harbor.Api.PartRequest.{
  PartRequest, json_code, unparsable, PartEvent, signal_abort, xhr_error, xhr_abort, xhr_load,
  finish, abort, finish_or_catch, load, handle, handle_all,
}

-- A settled request listens to its signal no more.
abbrev pub IsSettled : PartRequest → Type 0
IsSettled r = (r.settled ≡ true) × (r.listening ≡ false)

handle_settled : (r : PartRequest) (e : PartEvent) → IsSettled r → handle r e ≡ r
unfolding handle load finish_or_catch finish abort
handle_settled r signal_abort (s, l) = rw l refl
handle_settled r (xhr_error status) (s, l) = rw s refl
handle_settled r xhr_abort (s, l) = rw s refl
handle_settled r (xhr_load status body) (s, l) =
    if_elim (λ x. x ≡ r) (leb 200 status && ltb status 300) (λ _. rw s refl) (λ _. rw s refl)

-- After a request is settled, no event changes it, so its promise keeps its outcome.
handle_all_settled : (r : PartRequest) (es : List PartEvent) → IsSettled r → handle_all r es ≡ r
unfolding handle_all
handle_all_settled r [] h = refl
handle_all_settled r (e ∷ es) h = rw (handle_settled r e h) (handle_all_settled r es h)

-- A response of an error whose body is not JSON: the request counts as settled, but its promise is
-- neither resolved nor rejected, whatever happens afterwards.
pub unparsable_hangs :
    (r : PartRequest) (status : ℕ) (es : List PartEvent)
    → r.settled ≡ false
    → (leb 200 status && ltb status 300) ≡ false
    → (handle_all r (xhr_load status unparsable ∷ es)).outcome ≡ none
unfolding handle_all finish
unparsable_hangs r status es open_ failed =
    let after : PartRequest = record r { settled = true; listening = false; outcome = none } in
    let e : handle r (xhr_load status unparsable) ≡ after =
      unfold handle load finish_or_catch in rw (failed, open_) refl in
    subst (λ x. (handle_all x es).outcome ≡ none) (sym e)
      (ap (λ x. x.outcome) (handle_all_settled after es (refl, refl)))

-- The events after which there is a result.
abbrev pub settles : PartEvent → Bool
settles signal_abort = true
settles (xhr_error status) = true
settles xhr_abort = true
settles (xhr_load status (json_code code)) = true
settles (xhr_load status unparsable) = leb 200 status && ltb status 300

-- An open request that listens to its signal is settled by the first abort, error or response, a
-- failed response whose body is not JSON apart: its promise has an outcome then, and later events
-- change neither the outcome nor anything else of the request.
pub first_event_decides :
    (r : PartRequest) (e : PartEvent) (es : List PartEvent)
    → r.settled ≡ false
    → r.listening ≡ true
    → settles e ≡ true
    → ((o : Result (Unit {0})) × ((handle r e).outcome ≡ some o))
      × (handle_all r (e ∷ es) ≡ handle r e)
unfolding handle_all
first_event_decides r e es open_ listens h =
    let (o, d, k) = decided e h in ((o, d), handle_all_settled (handle r e) es k)
  where
    Decided : PartRequest → Type 0
    Decided x = (o : Result (Unit {0})) × (x.outcome ≡ some o) × IsSettled x

    decided : (e : PartEvent) → settles e ≡ true → Decided (handle r e)
    decided signal_abort h =
        unfold handle load finish abort in rw (listens, open_) (_, refl, (refl, refl))
    decided (xhr_error status) h = unfold handle load finish in rw open_ (_, refl, (refl, refl))
    decided xhr_abort h = unfold handle load finish in rw open_ (_, refl, (refl, refl))
    decided (xhr_load status (json_code code)) h =
        unfold handle load finish finish_or_catch in
        if_elim Decided (leb 200 status && ltb status 300) (λ _. rw open_ (_, refl, (refl, refl)))
          (λ _. rw open_ (_, refl, (refl, refl)))
    decided (xhr_load status unparsable) h =
        unfold handle load finish in rw (h, open_) (_, refl, (refl, refl))
