-- ===== src/Archives/Tree.antt =====
-- The tree holds at each path the last entry of that path.
use file_harbor.Base.{
  ◌≡◌, ◌∙◌, refl, ap, inl, inr, Bool, true, false, ◌&&◌, List, [], ◌∷◌, Option, none, some, Text,
  segments, get_or_else, ===_iff, ◌===◌, arith, Bool-cases, if◌then◌else◌,
}
use file_harbor.Archives.{
  ArchiveEntry, ArchiveNode, Children, node, no_child, child, empty_node, child_path, find_child,
  update_child, add_entry, add_entries, archive_tree,
}

abbrev at_child {ℓ} : {A : Type ℓ} → (ArchiveNode → Option A) → Option ArchiveNode → Option A
at_child f none = none
at_child f (some n) = f n

-- The entry of the node at a path.
abbrev pub entry_at : List Text → ArchiveNode → Option ArchiveEntry
entry_at [] (node path entry cs) = entry
entry_at (part ∷ parts) (node path entry cs) = at_child (entry_at parts) (find_child part cs)

abbrev pub same_parts : List Text → List Text → Bool
same_parts [] [] = true
same_parts [] (q ∷ qs) = false
same_parts (p ∷ ps) [] = false
same_parts (p ∷ ps) (q ∷ qs) = p === q && same_parts ps qs

-- The last of the entries whose name has these parts, or a given one.
abbrev pub last_named : List Text → Option ArchiveEntry → List ArchiveEntry → Option ArchiveEntry
last_named parts found [] = found
last_named parts found (e ∷ es) =
    last_named parts (if same_parts (segments e.name) parts then some e else found) es

find_child-update_child :
    (part other : Text) (fresh : ArchiveNode) (f : ArchiveNode → ArchiveNode) (cs : Children)
    → find_child other (update_child part fresh f cs) ≡ (
        if part === other
        then some (f (get_or_else (find_child part cs) fresh))
        else find_child other cs)
unfolding find_child update_child
find_child-update_child part other fresh f no_child = refl
find_child-update_child part other fresh f (child q n cs) = ground (
  arith,
  ===_iff part other,
  ===_iff q part,
  ===_iff q other,
  find_child-update_child part other fresh f cs,
)

entry_at-empty_node : (parts : List Text) (path : Text) → entry_at parts (empty_node path) ≡ none
unfolding find_child
entry_at-empty_node [] path = refl
entry_at-empty_node (part ∷ parts) path = refl

entry_at-or_empty :
    (parts : List Text) (path : Text) (o : Option ArchiveNode)
    → entry_at parts (get_or_else o (empty_node path)) ≡ at_child (entry_at parts) o
entry_at-or_empty parts path none = entry_at-empty_node parts path
entry_at-or_empty parts path (some n) = refl

entry_at-add_entry :
    (e : ArchiveEntry) (ps qs : List Text) (n : ArchiveNode)
    → entry_at qs (add_entry e ps n) ≡ (if same_parts ps qs then some e else entry_at qs n)
unfolding add_entry
entry_at-add_entry e [] [] (node path old cs) = refl
entry_at-add_entry e [] (q ∷ qs) (node path old cs) = refl
entry_at-add_entry e (p ∷ ps) [] (node path old cs) = refl
entry_at-add_entry e (p ∷ ps) (q ∷ qs) (node path old cs) =
    let fresh = empty_node (child_path path p) in
    rw (find_child-update_child p q fresh (add_entry e ps) cs) (elim (Bool-cases (p === q)) [
      | inr other ↦ rw other refl
      | inl same ↦ rw same (
          entry_at-add_entry e ps qs (get_or_else (find_child p cs) fresh)
          ∙ ap (λ x. if same_parts ps qs then some e else x)
              (entry_at-or_empty qs (child_path path p) (find_child p cs)
                ∙ ap (λ r. at_child (entry_at qs) (find_child r cs)) ((===_iff p q).0 same)))
    ])

entry_at-add_entries :
    (es : List ArchiveEntry) (parts : List Text) (root : ArchiveNode)
    → entry_at parts (add_entries es root) ≡ last_named parts (entry_at parts root) es
unfolding add_entries
entry_at-add_entries [] parts root = refl
entry_at-add_entries (e ∷ es) parts root =
    entry_at-add_entries es parts (add_entry e (segments e.name) root)
    ∙ ap (λ found. last_named parts found es) (entry_at-add_entry e (segments e.name) parts root)

-- The node at a path holds the last entry of the archive whose name has the parts of this path, and
-- there is no entry at a path that no name has, so entries of other names never hide each other.
pub archive_tree_lem :
    (es : List ArchiveEntry) (parts : List Text)
    → entry_at parts (archive_tree es) ≡ last_named parts none es
unfolding archive_tree
archive_tree_lem es parts =
    entry_at-add_entries es parts (empty_node [])
    ∙ ap (λ found. last_named parts found es) (entry_at-empty_node parts [])
