-- ===== src/Search.antt =====
-- The search of files: web/src/components/SearchPanel.tsx. Abort controllers are numbered in the
-- order in which they are made; the list says which of them are aborted.
pub mod Latest
pub mod Parameters
mod Tests
use file_harbor.Base.{
  ℕ, suc, Bool, true, false, not, ◌&&◌, List, [], ◌∷◌, ◌++◌, Option, none, some, Text, codes,
  length, set, get_elem?, get_or_else, is_some, ◌==◌, if◌then◌else◌,
}
use file_harbor.Api.Records.{EntryKind}
use file_harbor.Base.Results.{
  failure_code, Failure, api_error, js_error, other_value, Result, ok, err,
}

-- The records of web/src/api/client.ts for the answer of a search.
pub record SearchHit : Type 0 where
  pub name : Text
  pub path : Text
  pub parent : Text
  pub kind : EntryKind
  pub size : ℕ
  pub modified : Text
  pub version : Text

pub record SearchResult : Type 0 where
  pub entries : List SearchHit
  pub visited : ℕ
  pub skipped : ℕ
  pub incomplete : Bool
  pub reason : Option Text

pub record Search : Type 0 where
  pub controllers : List Bool
  pub active : Option ℕ
  pub busy : Bool
  pub result : Option SearchResult
  pub error : Option Text

-- `active.current?.abort()`
abbrev abort_active : Search → Option ℕ → List Bool
abort_active s none = s.controllers
abort_active s (some c) = set s.controllers c true

-- `cancel`
unfoldable pub cancel : Search → Search
cancel s = record s { controllers = abort_active s s.active; active = none; busy = false }

-- `search` up to its await.
unfoldable pub search_begin : Search → Search
search_begin s = record {
  controllers = abort_active s s.active ++ false ∷ [];
  active = some (length (abort_active s s.active));
  busy = true;
  result = none;
  error = none;
}

abbrev pub is_current : Option ℕ → ℕ → Bool
is_current none c = false
is_current (some d) c = d == c

-- The `try` and `catch` blocks after the await.
abbrev shown : Search → Result SearchResult → Search
shown s (ok r) = record s { result = some r }
shown s (err f) = record s { error = some (failure_code f) }

-- `search` after its await, with the `finally` block.
unfoldable pub search_end : Search → ℕ → Result SearchResult → Search
search_end s c r =
    let aborted = get_or_else (get_elem? s.controllers c) false in
    let s' = if is_current s.active c && not aborted then shown s r else s in
    if is_current s.active c then record s' { active = none; busy = false } else s'

pub data Event : Type 0 where
  submit press_cancel : Event
  answer : ℕ → Result SearchResult → Event

unfoldable pub react : Search → Event → Search
unfolding cancel search_begin search_end
react s submit = search_begin s
react s press_cancel = cancel s
react s (answer c r) = search_end s c r

abbrev pub start : Search
start = record { controllers = []; active = none; busy = false; result = none; error = none }

unfoldable pub run_events : Search → List Event → Search
unfolding react
run_events s [] = s
run_events s (e ∷ es) = run_events (react s e) es
