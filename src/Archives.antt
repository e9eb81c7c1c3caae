-- ===== src/Archives.antt =====
-- The preview of an archive as a tree: `ArchiveTree` of
-- web/src/components/ArchivePreviewPanel.tsx.
pub mod Tree
pub mod Extract
mod Tests
use file_harbor.Base.{
  ℕ, ◌+◌, zero, Bool, true, false, ◌||◌, ◌&&◌, List, [], ◌∷◌, ◌++◌, Option, none, some, Text,
  truthy, slash, segments, get_or_else, ◌===◌, ◌==◌, if◌then◌else◌,
}

pub data ArchiveKind : Type 0 where
  archive_file archive_directory : ArchiveKind

pub record ArchiveEntry : Type 0 where
  pub name : Text
  pub kind : ArchiveKind
  pub size : Option ℕ

mutual
  pub data ArchiveNode : Type 0 where
    node : Text → Option ArchiveEntry → Children → ArchiveNode

  -- A `Map` from the parts of names, in the order in which they were met.
  pub data Children : Type 0 where
    no_child : Children
    child : Text → ArchiveNode → Children → Children

abbrev pub empty_node : Text → ArchiveNode
empty_node path = node path none no_child

-- `node.path ? `${node.path}/${part}` : part`
abbrev pub child_path : Text → Text → Text
child_path path part = if truthy path then path ++ slash ∷ part else part

unfoldable pub find_child : Text → Children → Option ArchiveNode
find_child part no_child = none
find_child part (child q n cs) = if q === part then some n else find_child part cs

-- Go on at the child of a part, which is made if there is none.
unfoldable pub update_child : Text → ArchiveNode → (ArchiveNode → ArchiveNode) → Children → Children
update_child part fresh f no_child = child part (f fresh) no_child
update_child part fresh f (child q n cs) =
    let rest = update_child part fresh f cs in
    if q === part then child q (f n) cs else child q n rest

-- The loop over the parts of an entry's name.
unfoldable pub add_entry : ArchiveEntry → List Text → ArchiveNode → ArchiveNode
unfolding update_child
add_entry e [] (node path old cs) = node path (some e) cs
add_entry e (part ∷ parts) (node path old cs) =
    node path old (update_child part (empty_node (child_path path part)) (add_entry e parts) cs)

-- The loop over the entries.
unfoldable pub add_entries : List ArchiveEntry → ArchiveNode → ArchiveNode
unfolding add_entry segments
add_entries [] root = root
add_entries (e ∷ es) root = add_entries es (add_entry e (segments e.name) root)

unfoldable pub archive_tree : List ArchiveEntry → ArchiveNode
unfolding add_entries
archive_tree es = add_entries es (empty_node [])

-- A row that is drawn: its depth and path, whether it is a directory, and the size that is shown.
pub record ArchiveRow : Type 0 where
  pub depth : ℕ
  pub path : Text
  pub is_directory : Bool
  pub is_open : Bool
  pub size : Option ℕ

abbrev has_children : Children → Bool
has_children no_child = false
has_children (child part n cs) = true

abbrev names_directory : Option ArchiveEntry → Bool
names_directory none = false
names_directory (some e) = elim e.kind [ archive_file ↦ false | archive_directory ↦ true ]

abbrev shown_size : Option ArchiveEntry → Option ℕ
shown_size none = none
shown_size (some e) = e.size

abbrev row_of : ℕ → ArchiveNode → ArchiveRow
row_of depth (node path entry cs) =
    let directory = has_children cs || names_directory entry in
    record {
      depth = depth;
      path = path;
      is_directory = directory;
      is_open = directory && depth == 0;
      size = if directory then none else shown_size entry;
    }

-- `render`: every node before its children.
unfoldable mutual
  pub render : ℕ → Children → List ArchiveRow
  render depth no_child = []
  render depth (child part n cs) = render_node depth n ++ render depth cs

  pub render_node : ℕ → ArchiveNode → List ArchiveRow
  render_node depth (node path entry cs) = row_of depth (node path entry cs) ∷ render (depth + 1) cs
