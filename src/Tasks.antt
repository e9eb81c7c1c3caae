-- ===== src/Tasks.antt =====
-- The jobs on the server as the client follows them: web/src/tasks/TaskProvider.tsx. A request is
-- known by its signature, the JSON text of it.
pub mod Keys
pub mod Retrying
pub mod Panel
mod Tests
use file_harbor.Base.{
  ℕ, suc, ◌+◌, Bool, true, false, not, ◌&&◌, ◌||◌, List, [], ◌∷◌, ◌++◌, Option, none, some, Text,
  codes, truthy, length, filter, any, find, parent_path, get_or_else, is_some, ltb, ◌===◌,
  if◌then◌else◌,
}
use file_harbor.Base.Decimal.{decimal}
use file_harbor.Base.OrderedMap
use file_harbor.Base.Results.{Failure, api_error, js_error, other_value, Result, ok, err, and_then}
use file_harbor.Api.Records.{
  FileEntry, DirectoryListing, FileJob, JobSource, NamedVersion, JobRequest,
}

-- The keys of the requests under way, whether the panel is open, the signatures of the jobs seen,
-- and how often the list of jobs and the listings were invalidated.
pub record Tasks : Type 0 where
  pub pending : List (Text × Text)
  pub open_ : Bool
  pub seen : List (Text × Text)
  pub job_refreshes : ℕ
  pub listing_refreshes : ℕ

-- `pending.get(signature) || fresh`
abbrev pub key_or : Option Text → Text → Text
key_or none fresh = fresh
key_or (some key) fresh = if truthy key then key else fresh

-- `submit` up to its await, with the key that the request carries.
unfoldable pub submit_begin : Tasks → Text → Text → Tasks × Text
unfolding OrderedMap.put OrderedMap.get
submit_begin s signature fresh =
    let key = key_or (OrderedMap.get signature s.pending) fresh in
    (record s { pending = OrderedMap.put signature key s.pending }, key)

-- `failure instanceof ApiError && failure.code === 'job_hidden'`
abbrev pub is_hidden : Failure → Bool
is_hidden (api_error status code) = code === codes "job_hidden"
is_hidden (js_error message) = false
is_hidden other_value = false

abbrev refreshed : Tasks → Tasks
refreshed s = record s { job_refreshes = suc s.job_refreshes }

-- `submit` after its await.
unfoldable pub submit_end {ℓ} : {A : Type ℓ} → Tasks → Text → Result A → Tasks
unfolding OrderedMap.delete
submit_end s signature (ok _) =
    refreshed (record s { pending = OrderedMap.delete signature s.pending; open_ = true })
submit_end s signature (err e) =
    if is_hidden e
    then refreshed (record s { pending = OrderedMap.delete signature s.pending })
    else s

-- `['queued', 'running'].includes(state)`
abbrev pub is_running : FileJob → Bool
is_running job = job.state === codes "queued" || job.state === codes "running"

unfoldable pub job_signature : FileJob → Text
job_signature job = job.state ++ codes ":" ++ decimal (length job.published)

abbrev same_signature : Option Text → Text → Bool
same_signature none t = false
same_signature (some s) t = s === t

-- One turn of the loop that looks for new results.
unfoldable pub note_job : Tasks → FileJob → Tasks
unfolding job_signature OrderedMap.put OrderedMap.get
note_job s job =
    let signature = job_signature job in
    let changed =
      not (same_signature (OrderedMap.get job.id s.seen) signature)
      && (ltb 0 (length job.published) || not (is_running job)) in
    record s {
      seen = OrderedMap.put job.id signature s.seen;
      listing_refreshes = if changed then suc s.listing_refreshes else s.listing_refreshes;
    }

unfoldable pub note_jobs : Tasks → List FileJob → Tasks
unfolding note_job
note_jobs s [] = s
note_jobs s (job ∷ jobs) = note_jobs (note_job s job) jobs

-- `refetchInterval`, in milliseconds; none stands for `false`.
unfoldable pub refetch_interval : List FileJob → Bool → Option ℕ
refetch_interval jobs panel_open =
    if any is_running jobs then some 1000 else if panel_open then some 5000 else none

-- `activeCount`
unfoldable pub active_count : List FileJob → ℕ
active_count jobs = length (filter is_running jobs)

-- The function that `remove` gives to `setQueryData`.
unfoldable pub without_job : FileJob → List FileJob → List FileJob
without_job job jobs = filter (λ entry. not (entry.id === job.id)) jobs

-- The listing that `retry` asks for; `sources[0]` of an empty list throws.
unfoldable pub retry_parent : FileJob → Option Text
unfolding parent_path
retry_parent job = elim job.sources [
  | [] ↦ none
  | source ∷ sources ↦ some (parent_path source.path)
]

unfoldable pub retry_entry : List FileEntry → JobSource → Result NamedVersion
retry_entry entries source = elim (find (λ item. item.path === source.path) entries) [
  | none ↦ err (js_error (codes "source unavailable"))
  | some entry ↦ ok (record { name = entry.name; version = entry.version })
]

unfoldable pub retry_entries : List FileEntry → List JobSource → Result (List NamedVersion)
unfolding retry_entry
retry_entries entries [] = ok []
retry_entries entries (source ∷ sources) =
    let rest = retry_entries entries sources in
    and_then (retry_entry entries source) (λ e. and_then rest (λ es. ok (e ∷ es)))

-- `retry` between the answer of the listing and the call of `submit`.
unfoldable pub retry_request : FileJob → DirectoryListing → Result JobRequest
unfolding retry_entries
retry_request job listing = and_then (retry_entries listing.entries job.sources) (λ entries.
    ok (record {
      kind = job.kind;
      previous = some job.id;
      path = none;
      version = none;
      destination = some job.destination;
      name = job.name;
      target = some job.target;
      listing_token = some listing.listing_token;
      entries = entries;
    }))
