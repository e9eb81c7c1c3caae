-- ===== src/Tasks/Retrying.antt =====
-- What a job that is retried names.
use file_harbor.Base.{
  ℕ, suc, ◌≡◌, refl, inl, inr, List, [], ◌∷◌, some, Text, find, get_elem?, ◌===◌, ===_iff,
  Option-cases, Bool-cases,
}
use file_harbor.Base.Results.{ok, OkSatisfies, and_then-OkSatisfies, of_ok}
use file_harbor.Api.Records.{
  FileEntry, DirectoryListing, FileJob, JobSource, NamedVersion, JobRequest,
}
use file_harbor.Tasks.{retry_entry, retry_entries, retry_request}

-- The name and version are those of an entry of the listing with the source's path.
pub record Names (entries : List FileEntry) (source : JobSource) (named : NamedVersion)
    : Type 0 where
  pub position : ℕ
  pub entry : FileEntry
  pub listed : get_elem? entries position ≡ some entry
  pub same_path : entry.path ≡ source.path
  pub same_name : named.name ≡ entry.name
  pub same_version : named.version ≡ entry.version

-- Each source has its name, in the same order.
abbrev pub NamesAll : List FileEntry → List JobSource → List NamedVersion → Type 0
NamesAll entries [] [] = Unit
NamesAll entries [] (n ∷ ns) = ⊥
NamesAll entries (s ∷ ss) [] = ⊥
NamesAll entries (s ∷ ss) (n ∷ ns) = Names entries s n × NamesAll entries ss ns

found :
    (path : Text) (entries : List FileEntry) (e : FileEntry)
    → find (λ item. item.path === path) entries ≡ some e
    → (i : ℕ) × (get_elem? entries i ≡ some e) × (e.path ≡ path)
found path [] e h = cc
found path (x ∷ xs) e h = elim (Bool-cases (x.path === path)) [
  | inl same ↦
      let first : some x ≡ some e = rw same at h in
      let it : x ≡ e = cc in (0, first, rw (← it) ((===_iff x.path path).0 same))
  | inr other ↦ let (i, l, p) = found path xs e (rw other at h) in (suc i, l, p)
]

retry_entry-Names :
    (entries : List FileEntry) (source : JobSource)
    → OkSatisfies (Names entries source) (retry_entry entries source)
unfolding retry_entry
retry_entry-Names entries source =
    elim (Option-cases (find (λ item. item.path === source.path) entries)) [
      | inl e ↦ rw (e, retry_entry) tt
      | inr (x, e) ↦
          let (i, l, p) = found source.path entries x e in
          rw (e, retry_entry)
            (record {
              position = i;
              entry = x;
              listed = l;
              same_path = p;
              same_name = refl;
              same_version = refl;
            })
    ]

retry_entries-NamesAll :
    (entries : List FileEntry) (sources : List JobSource)
    → OkSatisfies (NamesAll entries sources) (retry_entries entries sources)
unfolding retry_entries
retry_entries-NamesAll entries [] = tt
retry_entries-NamesAll entries (source ∷ sources) =
    and_then-OkSatisfies (Names entries source) (NamesAll entries (source ∷ sources))
      (retry_entry entries source) _ (retry_entry-Names entries source)
      (λ n k.
        and_then-OkSatisfies (NamesAll entries sources) (NamesAll entries (source ∷ sources))
          (retry_entries entries sources) _ (retry_entries-NamesAll entries sources)
          (λ ns ks. (k, ks)))

-- Where the retry of a job has a request, it names the job as the one before it, it has the token
-- of the listing, and its entries are, source by source in order, entries of that listing with
-- the path of the source, with the version that the listing shows.
pub retry_request-NamesAll :
    (job : FileJob) (listing : DirectoryListing) (r : JobRequest)
    → retry_request job listing ≡ ok r
    → (r.previous ≡ some job.id)
      × (r.listing_token ≡ some listing.listing_token)
      × NamesAll listing.entries job.sources r.entries
unfolding retry_request
retry_request-NamesAll job listing r = of_ok Repeats (retry_request job listing) r (
    and_then-OkSatisfies (NamesAll listing.entries job.sources) Repeats
      (retry_entries listing.entries job.sources) _
      (retry_entries-NamesAll listing.entries job.sources) (λ names k. (refl, refl, k)))
  where
    Repeats : JobRequest → Type 0
    Repeats q =
        (q.previous ≡ some job.id)
        × (q.listing_token ≡ some listing.listing_token)
        × NamesAll listing.entries job.sources q.entries
