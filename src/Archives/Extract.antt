-- ===== src/Archives/Extract.antt =====
-- The extraction of an archive: web/src/components/ExtractArchiveDialog.tsx.
use file_harbor.Base.{
  ℕ, ◌+◌, Bool, true, false, not, ◌&&◌, ◌||◌, List, [], ◌∷◌, none, some, Text, codes, truthy, map,
  filter, any, leb, parent_path, join_slash, ◌===◌, ◌==◌, if◌then◌else◌,
}
use file_harbor.Base.Results.{failure_code, Result, ok, err}
use file_harbor.Api.Records.{FileEntry, JobKind, JobTarget, JobRequest}
use file_harbor.Routes.{trim}

-- The suffixes that the regular expression names.
abbrev archive_suffixes : List Text
archive_suffixes =
    codes "tar.snappy"
    ∷ codes "tar.bzip2"
    ∷ codes "tar.zstd"
    ∷ codes "tar.zlib"
    ∷ codes "tar.gzip"
    ∷ codes "tar.gz"
    ∷ codes "tar.bz2"
    ∷ codes "tar.xz"
    ∷ codes "tar.zst"
    ∷ codes "tar.lz4"
    ∷ codes "tar.br"
    ∷ codes "tar.sz"
    ∷ codes "tar.zz"
    ∷ codes "snappy"
    ∷ codes "bzip2"
    ∷ codes "gzip"
    ∷ codes "zstd"
    ∷ codes "zlib"
    ∷ codes "tgz"
    ∷ codes "tbz2"
    ∷ codes "tbz"
    ∷ codes "tzst"
    ∷ codes "txz"
    ∷ codes "zip"
    ∷ codes "rar"
    ∷ codes "tar"
    ∷ codes "gz"
    ∷ codes "bz2"
    ∷ codes "xz"
    ∷ codes "zst"
    ∷ codes "lz4"
    ∷ codes "br"
    ∷ codes "sz"
    ∷ codes "zz"
    ∷ []

-- The flag `i` on the letters that the suffixes have.
abbrev lower : ℕ → ℕ
lower c = if leb b'A' c && leb c b'Z' then c + 32 else c

abbrev is_suffix : Text → Bool
is_suffix s = any (λ suffix. suffix === map lower s) archive_suffixes

-- `name.replace(/.../i, '')`: the first dot from which a suffix reaches the end.
unfoldable pub without_suffix : Text → Text
without_suffix [] = []
without_suffix (c ∷ s) =
    let rest = without_suffix s in if c == b'.' && is_suffix s then [] else c ∷ rest

pub data ExtractMode : Type 0 where
  new_folder current chosen : ExtractMode

pub record Extraction : Type 0 where
  pub mode : ExtractMode
  pub name : Text
  pub directory : Text
  pub pending : Bool
  pub error : Text

unfoldable pub open_extraction : FileEntry → Extraction
unfolding without_suffix parent_path
open_extraction e = record {
  mode = new_folder;
  name = without_suffix e.name;
  directory = parent_path e.path;
  pending = false;
  error = [];
}

unfoldable pub output : FileEntry → Extraction → Text
unfolding parent_path join_slash
output e x = elim x.mode [
  | new_folder ↦ join_slash (filter truthy (parent_path e.path ∷ x.name ∷ []))
  | current ↦ parent_path e.path
  | chosen ↦ x.directory
]

-- `{ mode, ...(mode === 'new_folder' ? { name } : mode === 'chosen' ? { directory } : {}) }`
unfoldable pub target_of : Extraction → JobTarget
target_of x = elim x.mode [
  | new_folder ↦ record { mode = codes "new_folder"; directory = none; name = some x.name }
  | current ↦ record { mode = codes "current"; directory = none; name = none }
  | chosen ↦ record { mode = codes "chosen"; directory = some x.directory; name = none }
]

-- `submit` up to its await, with the job that it asks for.
unfoldable pub submit_begin : FileEntry → Extraction → Extraction × JobRequest
unfolding target_of
submit_begin e x = (
  record x { pending = true; error = [] },
  record {
    kind = JobKind.extract;
    previous = none;
    path = some e.path;
    version = some e.version;
    destination = none;
    name = none;
    target = some (target_of x);
    listing_token = none;
    entries = [];
  },
)

-- `submit` after its await, and whether the dialog is closed.
unfoldable pub submit_end {ℓ} : {A : Type ℓ} → Extraction → Result A → Extraction × Bool
submit_end x (ok value) = (record x { pending = false }, true)
submit_end x (err e) = (record x { pending = false; error = failure_code e }, false)

abbrev is_new_folder : ExtractMode → Bool
is_new_folder new_folder = true
is_new_folder _ = false

-- `confirmDisabled`
unfoldable pub confirm_disabled : Extraction → Bool
unfolding trim
confirm_disabled x = x.pending || (is_new_folder x.mode && not (truthy (trim x.name)))
