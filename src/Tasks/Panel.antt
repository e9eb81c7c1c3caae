-- ===== src/Tasks/Panel.antt =====
-- The panel of the jobs: web/src/tasks/TaskPanel.tsx.
use file_harbor.Base.{
  Bool, true, false, not, ◌&&◌, ◌||◌, List, [], ◌∷◌, Option, none, some, Text, codes, truthy,
  filter, any, get_or_else, is_some, ltb, length, parent_path, join_slash, ◌===◌, if◌then◌else◌,
}
use file_harbor.Base.Results.{failure_code, Result, ok, err}
use file_harbor.Api.Records.{FileJob, JobKind, JobSource}
use file_harbor.Routes.{directory_route}
use file_harbor.Tasks.{is_running}

abbrev is_extract : JobKind → Bool
is_extract JobKind.extract = true
is_extract _ = false

-- `sources[0]?.path.split('/').slice(0, -1).join('/') || ''`
abbrev first_parent : List JobSource → Text
unfolding parent_path
first_parent [] = []
first_parent (source ∷ sources) = parent_path source.path

-- `destination`; a directory that is missing is the empty text, which the panel shows as the root.
unfoldable pub destination_of : FileJob → Text
unfolding parent_path join_slash
destination_of job =
    if not (is_extract job.kind)
    then job.destination
    else if (job.target).mode === codes "chosen"
    then get_or_else (job.target).directory []
    else join_slash (
        filter truthy (
          first_parent job.sources
          ∷ (if (job.target).mode === codes "new_folder"
              then get_or_else (job.target).name []
              else [])
          ∷ []))

pub data PanelAction : Type 0 where
  retry_action remove_action : PanelAction

pub record Panel : Type 0 where
  pub error : Text
  pub busy : Option Text
  pub confirm : Option (Text × PanelAction)

-- `act` up to its await, and after it.
unfoldable pub act_begin : Panel → Text → Panel
act_begin p id = record p { busy = some id; error = [] }

unfoldable pub act_end {ℓ} : {A : Type ℓ} → Panel → Result A → Panel
act_end p (ok value) = record p { busy = none; confirm = none }
act_end p (err e) = record p { busy = none; error = failure_code e }

-- `active` and `finished`
unfoldable pub active : List FileJob → List FileJob
active jobs = filter is_running jobs

unfoldable pub finished : List FileJob → List FileJob
finished jobs = filter (λ job. not (is_running job)) jobs

abbrev can_retry : FileJob → Bool
can_retry job =
    any (λ state. state === job.state)
      (codes "failed" ∷ codes "cancelled" ∷ codes "partial" ∷ codes "interrupted" ∷ [])

-- The buttons of a job that is not to be confirmed.
pub record JobButtons : Type 0 where
  pub cancel : Bool
  pub cancel_disabled : Bool
  pub open_ : Bool
  pub retry : Bool
  pub remove : Bool

unfoldable pub buttons : Panel → FileJob → Bool → Bool → JobButtons
buttons p job can_mutate can_remove = record {
  cancel = is_running job;
  cancel_disabled = not can_mutate || is_some p.busy || job.cancel_requested;
  open_ = ltb 0 (length job.published);
  retry = can_mutate && can_retry job;
  remove = can_mutate && not (is_running job) && can_remove;
}

-- Where the button of a finished job leads; none without a result.
unfoldable pub open_route : (Text → Text) → FileJob → Option Text
unfolding directory_route parent_path
open_route encode job = elim job.published [
  | [] ↦ none
  | result ∷ results ↦ some (
      directory_route encode (
        if is_extract job.kind && (job.target).mode === codes "new_folder"
        then result
        else parent_path result))
]
