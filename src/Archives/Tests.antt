-- ===== src/Archives/Tests.antt =====
-- The tree of a small archive.
use file_harbor.Base.{◌≡◌, refl, List, [], ◌∷◌, true, false, none, some, codes, Text, segments}
use file_harbor.Archives.{
  ArchiveEntry, archive_file, archive_tree, ArchiveNode, ArchiveRow, node, render, add_entries,
  add_entry, update_child,
}
use file_harbor.Archives.Extract.{without_suffix}
use file_harbor.Archives.Tree.{entry_at, last_named, archive_tree_lem}

abbrev entry : Text → ArchiveEntry
entry name = record { name = name; kind = archive_file; size = some 1 }

abbrev es : List ArchiveEntry
es = entry (codes "a/b") ∷ entry (codes "c") ∷ record (entry (codes "/a//b")) { size = some 2 } ∷ []

archive_tree_lem_example :
    entry_at (codes "a" ∷ codes "b" ∷ []) (archive_tree es)
    ≡ last_named (codes "a" ∷ codes "b" ∷ []) none es
archive_tree_lem_example = archive_tree_lem es (codes "a" ∷ codes "b" ∷ [])

abbrev row : Text → ArchiveRow
row path = record { depth = 0; path = path; is_directory = false; is_open = false; size = some 1 }

abbrev rows : ArchiveNode → List ArchiveRow
rows (node path old cs) = render 0 cs

drawn :
    rows (archive_tree es)
    ≡ record (row (codes "a")) { is_directory = true; is_open = true; size = none }
      ∷ record (row (codes "a/b")) { depth = 1; size = some 2 }
      ∷ row (codes "c")
      ∷ []
unfolding archive_tree add_entries add_entry update_child render segments
drawn = refl

suffix_dropped : without_suffix (codes "my.files.TAR.gz") ≡ codes "my.files"
unfolding without_suffix
suffix_dropped = refl
