-- ===== src/Editor/Saving.antt =====
-- What a run of the editor keeps: one save at a time, and no unsaved text that looks saved.
use file_harbor.Base.{
  ◌≡◌, refl, Bool, true, false, not, ◌&&◌, List, [], ◌∷◌, ◌++◌, Option, none, some, Text, any,
  truthy, if_elim, ◌===◌, ===_iff, ===_refl, get_or_else,
}
use file_harbor.Base.Results.{Result, ok, err}
use file_harbor.Editor.{
  Editor, dirty, Loaded, load_end, Save, sending, refreshing, save_failed, leave, after_save, close,
  navigate, keep_editing, Session, save_begin, send_end, refresh_end, loaded, Event, types,
  press_save, press_save_and_close, press_reload, press_close, press_discard, press_keep, navigates,
  load_answer, save_answer, refresh_answer, react, start, run_events,
}

abbrev pub is_confirmed : Text → List Text → Bool
is_confirmed text texts = any (λ t. t === text) texts

-- There is no save and the flag is off, or there is one and it is on.
abbrev pub OneSave : List Save → Bool → Type 0
OneSave [] saving = saving ≡ false
OneSave (s ∷ []) saving = saving ≡ true
OneSave (s ∷ t ∷ ss) saving = ⊥

pub record IsSafe (s : Session) : Type 0 where
  pub one_save : OneSave s.saves (s.editor).saving
  pub known : is_confirmed (s.editor).original s.confirmed ≡ true

-- A handler that leaves the flag and the original as they are.
abbrev KeepsBoth : Editor → Editor → Type 0
KeepsBoth e f = (f.saving ≡ e.saving) × (f.original ≡ e.original)

with_editor-IsSafe :
    (s : Session) (f : Editor) → IsSafe s → KeepsBoth s.editor f → IsSafe (record s { editor = f })
with_editor-IsSafe s f h (a, b) = record { one_save = rw a h.one_save; known = rw b h.known }

close-KeepsBoth : (e : Editor) → KeepsBoth e (close e)
unfolding close
close-KeepsBoth e = if_elim (KeepsBoth e) (dirty e) (λ _. (refl, refl)) (λ _. (refl, refl))

navigate-KeepsBoth : (e : Editor) → KeepsBoth e (navigate e)
unfolding navigate
navigate-KeepsBoth e =
    if_elim (KeepsBoth e) (dirty e && not e.allow_navigation) (λ _. (refl, refl))
      (λ _. (refl, refl))

leave-KeepsBoth : (e : Editor) (held : Bool) → KeepsBoth e (leave e held)
unfolding leave
leave-KeepsBoth e held = if_elim (KeepsBoth e) held (λ _. (refl, refl)) (λ _. (refl, refl))

after_save-KeepsBoth : (e : Editor) (closing : Option Bool) → KeepsBoth e (after_save e closing)
unfolding after_save
after_save-KeepsBoth e none = (refl, refl)
after_save-KeepsBoth e (some held) = leave-KeepsBoth e held

save_begin-IsSafe :
    (s : Session) (writable enabled : Bool) (closing : Option Bool)
    → IsSafe s
    → IsSafe (save_begin s writable enabled closing)
unfolding save_begin
save_begin-IsSafe s writable enabled closing h =
    if_elim IsSafe (enabled && not (s.editor).saving && writable && truthy (s.editor).version)
      (λ e. record {
        one_save =
            first s.saves (idle enabled (s.editor).saving writable (truthy (s.editor).version) e)
              h.one_save;
        known = h.known;
      })
      (λ _. h)
  where
    idle : (a b c d : Bool) → (a && not b && c && d) ≡ true → b ≡ false
    idle true false c d h = refl
    idle true true c d h = cc
    idle false b c d h = cc

    first :
        (ss : List Save)
        → (s.editor).saving ≡ false
        → OneSave ss (s.editor).saving
        → OneSave (ss ++ sending (s.editor).value closing ∷ []) true
    first [] off one = refl
    first (t ∷ []) off one = cc
    first (t ∷ u ∷ ss) off one = absurd one

-- The last save is gone.
none_left : (t : Save) (more : List Save) (b : Bool) → OneSave (t ∷ more) b → OneSave more false
none_left t [] b h = refl
none_left t (u ∷ more) b h = absurd h

another : (t u : Save) (more : List Save) (b : Bool) → OneSave (t ∷ more) b → OneSave (u ∷ more) b
another t u [] b h = h
another t u (v ∷ more) b h = absurd h

send_end-IsSafe : (s : Session) (r : Result Text) → IsSafe s → IsSafe (send_end s r)
unfolding send_end
send_end-IsSafe s r h = by_saves s.saves refl r
  where
    by_saves : (ss : List Save) → s.saves ≡ ss → (r : Result Text) → IsSafe (send_end s r)
    by_saves [] e r = rw (e, send_end) h
    by_saves (refreshing closing ∷ more) e r = rw (e, send_end) h
    by_saves (sending text closing ∷ more) e (ok version) =
        rw (e, send_end)
          (record {
            one_save =
                another (sending text closing) (refreshing closing) more _ (rw e at h.one_save);
            known = rw (===_refl text) refl;
          })
    by_saves (sending text closing ∷ more) e (err f) =
        rw (e, send_end)
          (record {
            one_save =
                unfold save_failed in none_left (sending text closing) more _ (rw e at h.one_save);
            known = unfold save_failed in h.known;
          })

refresh_end-IsSafe : (s : Session) (r : Result (Unit {0})) → IsSafe s → IsSafe (refresh_end s r)
unfolding refresh_end
refresh_end-IsSafe s r h = by_saves s.saves refl r
  where
    by_saves : (ss : List Save) → s.saves ≡ ss → (r : Result (Unit {0})) → IsSafe (refresh_end s r)
    by_saves [] e r = rw (e, refresh_end) h
    by_saves (sending text closing ∷ more) e r = rw (e, refresh_end) h
    by_saves (refreshing closing ∷ more) e (ok _) =
        let (a, b) = after_save-KeepsBoth (record (s.editor) { saving = false }) closing in
        rw (e, refresh_end)
          (record {
            one_save = rw a (none_left (refreshing closing) more _ (rw e at h.one_save));
            known = rw b h.known;
          })
    by_saves (refreshing closing ∷ more) e (err f) =
        rw (e, refresh_end)
          (record {
            one_save =
                unfold save_failed in none_left (refreshing closing) more _ (rw e at h.one_save);
            known = unfold save_failed in h.known;
          })

loaded-IsSafe : (s : Session) (r : Result Loaded) → IsSafe s → IsSafe (loaded s r)
unfolding loaded load_end
loaded-IsSafe s (ok doc) h = record {
  one_save = h.one_save;
  known = rw (===_refl (get_or_else doc.content [])) refl;
}
loaded-IsSafe s (err f) h = record { one_save = h.one_save; known = h.known }

react-IsSafe : (writable : Bool) (s : Session) (e : Event) → IsSafe s → IsSafe (react writable s e)
unfolding react
react-IsSafe writable s (types text) h =
    if_elim IsSafe writable (λ _. record { one_save = h.one_save; known = h.known }) (λ _. h)
react-IsSafe writable s press_save h = save_begin-IsSafe s writable _ none h
react-IsSafe writable s press_save_and_close h =
    save_begin-IsSafe s writable true (some (s.editor).blocked) h
react-IsSafe writable s press_reload h = record { one_save = h.one_save; known = h.known }
react-IsSafe writable s press_close h = with_editor-IsSafe s _ h (close-KeepsBoth s.editor)
react-IsSafe writable s press_discard h =
    with_editor-IsSafe s _ h (leave-KeepsBoth s.editor (s.editor).blocked)
react-IsSafe writable s press_keep h =
    with_editor-IsSafe s (keep_editing s.editor) h (unfold keep_editing in (refl, refl))
react-IsSafe writable s navigates h = with_editor-IsSafe s _ h (navigate-KeepsBoth s.editor)
react-IsSafe writable s (load_answer r) h = loaded-IsSafe s r h
react-IsSafe writable s (save_answer r) h = send_end-IsSafe s r h
react-IsSafe writable s (refresh_answer r) h = refresh_end-IsSafe s r h

run_events-from :
    (writable : Bool) (s : Session) (es : List Event) → IsSafe s → IsSafe (run_events writable s es)
unfolding run_events
run_events-from writable s [] h = h
run_events-from writable s (e ∷ es) h =
    run_events-from writable (react writable s e) es (react-IsSafe writable s e h)

-- After any events on a new dialog, at most one save is under way, and exactly then the dialog
-- says that it saves; the text that counts as saved is empty or one that the server has answered
-- or confirmed.
pub run_events-IsSafe : (writable : Bool) (es : List Event) → IsSafe (run_events writable start es)
run_events-IsSafe writable es =
    run_events-from writable start es (record { one_save = refl; known = refl })

-- After any events on a new dialog: if its text does not count as changed, so that the dialog
-- closes without a question, the text is empty or one that the server has answered or confirmed.
pub clean_confirmed :
    (writable : Bool) (es : List Event)
    → dirty (run_events writable start es).editor ≡ false
    → is_confirmed
        ((run_events writable start es).editor).value
        (run_events writable start es).confirmed
      ≡ true
clean_confirmed writable es clean =
    let s = run_events writable start es in
    let same : (s.editor).value ≡ (s.editor).original =
      (===_iff (s.editor).value (s.editor).original).0 (not_not _ clean) in
    rw same ((run_events-IsSafe writable es).known)
  where
    not_not : (b : Bool) → not b ≡ false → b ≡ true
    not_not true h = refl
    not_not false h = cc
