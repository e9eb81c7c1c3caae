-- ===== src/Workspace/Page/Batch.antt =====
-- What the file view asks of the server for the selected entries: `batchBody`, `affectedDirectories`
-- and `doBatch`.
use file_harbor.Base.{
  Bool, false, ◌&&◌, List, [], ◌∷◌, Option, none, some, Text, codes, truthy, map, length, ltb,
  ◌===◌, if◌then◌else◌,
}
use file_harbor.Api.Records.{FileEntry, NamedVersion, JobKind, JobRequest}
use file_harbor.Workspace.Listing.{Platform}
use file_harbor.Workspace.Page.{Page, token_of, selection_state}

pub record BatchBody : Type 0 where
  pub listing_token : Option Text
  pub entries : List NamedVersion
  pub destination : Option Text

-- What the view calls: a job, a mutation or a batch with the directories that it changes, a route,
-- an address, or the refresh of a listing or of the recycle bin.
pub data Command : Type 0 where
  submit_job : JobRequest → Command
  mutate : Text → List (Text × Text) → List Text → Command
  mutate_batch : Text → BatchBody → List Text → Command
  go_to assign_location refresh_directory : Text → Command
  refresh_trash : Command

abbrev pub named : FileEntry → NamedVersion
named e = record { name = e.name; version = e.version }

-- `[...new Set([currentPath, ...(destination === undefined ? [] : [destination])])]`
unfoldable pub affected_directories : Page → Option Text → List Text
affected_directories p none = p.current_path ∷ []
affected_directories p (some destination) =
    if destination === p.current_path
    then p.current_path ∷ []
    else p.current_path ∷ destination ∷ []

abbrev pub has_token : Page → Bool
has_token p = elim (token_of p.listing) [ none ↦ false | some token ↦ truthy token ]

-- `{ kind: 'copy', ...batchBody(destination) }`
abbrev pub copy_job : BatchBody → JobRequest
copy_job body = record {
  kind = JobKind.copy;
  previous = none;
  path = none;
  version = none;
  destination = body.destination;
  name = none;
  target = none;
  listing_token = body.listing_token;
  entries = body.entries;
}

module _ (platform : Platform) (has_tasks : Bool) where
  unfoldable pub batch_body : Page → Option Text → BatchBody
  unfolding selection_state
  batch_body p destination = record {
    listing_token = token_of p.listing;
    entries = map named (selection_state platform p).selected_entries;
    destination = destination;
  }

  unfoldable pub do_batch : Page → Text → Option Text → List Command
  unfolding batch_body affected_directories selection_state
  do_batch p endpoint destination =
      let body = batch_body p destination in
      if endpoint === codes "do/batch/copy" && has_tasks && has_token p
      then submit_job (copy_job body) ∷ []
      else if has_token p && ltb 0 (length (selection_state platform p).selected_entries)
      then mutate_batch endpoint body (affected_directories p destination) ∷ []
      else []
