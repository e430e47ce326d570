-- ===== src/MemFs/Calls.antt =====
-- The calls of src/harlin/fs/mem_fs.c. `resolve_parent_create` returns a pointer into its own stack
-- frame; the name is taken to be what stood there.
use har_lin_kernel.Base.{
  ℕ, zero, suc, Bool, true, false, not, ◌||◌, Option, none, some, List, [], ◌∷◌, ◌++◌, ◌-◌, ltb,
  ◌==◌, if◌then◌else◌, length, take, drop, map,
}
use har_lin_kernel.PathWalk.{slash}
use har_lin_kernel.MemFs.{
  Node, Nodes, node, change, node_count, name_max, payload_max, file_type, dir_type, default_file,
  default_dir, taken, freed, alloc_node, free_node, find_child, resolve_path, resolve_parent_create,
}

abbrev pub root_node : Node → Node
root_node e = record e {
  type = dir_type;
  name = slash ∷ [];
  parent = some 0;
  mode = default_dir;
  owner = 0;
  group = 0;
}

-- `Harlin_MemFsInit`; node 0 is free then, so that its call of `alloc_node` cannot fail.
unfoldable pub init : Nodes → Nodes
init nodes = change 0 (λ e. root_node (taken e)) (map freed nodes)

-- A node that is entered as the first child of its parent.
abbrev pub filled : ℕ → List ℕ → ℕ → ℕ → Option ℕ → Node → Node
filled type name parent mode sibling e = record e {
  type = type;
  name = name;
  parent = some parent;
  next_sibling = sibling;
  mode = mode;
}

abbrev pub with_first : Option ℕ → Node → Node
with_first c e = record e { first_child = c }

unfoldable pub enter_at : ℕ → ℕ → List ℕ → ℕ → Option ℕ × Nodes → Bool × Nodes
enter_at type mode name parent (none, nodes) = (false, nodes)
enter_at type mode name parent (some n, nodes) = (
  true,
  change parent (with_first (some n))
      (change n (filled type name parent mode (node nodes parent).first_child) nodes),
)

unfoldable pub create_in : ℕ → ℕ → Option (ℕ × List ℕ) → Nodes → Bool × Nodes
create_in type mode none nodes = (false, nodes)
create_in type mode (some (parent, name)) nodes =
    if not ((node nodes parent).type == dir_type)
    then (false, nodes)
    else elim (find_child nodes parent name) [
      | none ↦ enter_at type mode name parent (alloc_node nodes)
      | some _ ↦ (false, nodes)
    ]

-- `Harlin_MemFsMkdir`: whether it succeeds.
unfoldable pub mkdir : List ℕ → Nodes → Bool × Nodes
unfolding create_in enter_at alloc_node resolve_parent_create
mkdir path nodes = create_in dir_type default_dir (resolve_parent_create nodes path) nodes

-- `Harlin_MemFsCreate`
unfoldable pub create : List ℕ → Nodes → Bool × Nodes
unfolding create_in enter_at alloc_node resolve_parent_create
create path nodes = create_in file_type default_file (resolve_parent_create nodes path) nodes

-- `c == n`, for an index that may be -1.
abbrev pub is_node : ℕ → Option ℕ → Bool
is_node n none = false
is_node n (some c) = c == n

-- The loop of `Harlin_MemFsRmdir` and `Harlin_MemFsRemove`: the sibling before node `n`, with
-- `rounds` left.
unfoldable pub find_before : Nodes → ℕ → ℕ → Option ℕ → Option ℕ
find_before nodes n zero c = none
find_before nodes n (suc rounds) none = none
find_before nodes n (suc rounds) (some c) =
    let rest = find_before nodes n rounds (node nodes c).next_sibling in
    if is_node n (node nodes c).next_sibling then some c else rest

abbrev pub with_next : Option ℕ → Node → Node
with_next c e = record e { next_sibling = c }

unfoldable pub unlink_behind : ℕ → Option ℕ → Nodes → Nodes
unlink_behind n none nodes = nodes
unlink_behind n (some c) nodes = change c (with_next (node nodes n).next_sibling) nodes

-- Node `n` leaves the children of `parent`; every node that is found has a parent.
unfoldable pub unlink : ℕ → Option ℕ → Nodes → Nodes
unlink n none nodes = nodes
unlink n (some parent) nodes =
    let first = (node nodes parent).first_child in
    if is_node n first
    then change parent (with_first (node nodes n).next_sibling) nodes
    else unlink_behind n (find_before nodes n node_count first) nodes

-- The end of both functions.
unfoldable pub drop_node : ℕ → Nodes → Nodes
unfolding unlink unlink_behind find_before free_node
drop_node n nodes = free_node n (unlink n (node nodes n).parent nodes)

unfoldable pub remove_at : Option ℕ → Nodes → Bool × Nodes
remove_at none nodes = (false, nodes)
remove_at (some n) nodes = if n == 0 then (false, nodes) else (true, drop_node n nodes)

-- `Harlin_MemFsRemove`
unfoldable pub remove : List ℕ → Nodes → Bool × Nodes
unfolding remove_at drop_node resolve_path
remove path nodes = remove_at (resolve_path nodes path) nodes

abbrev pub is_none {ℓ} : {A : Type ℓ} → Option A → Bool
is_none none = true
is_none (some _) = false

unfoldable pub rmdir_at : Option ℕ → Nodes → Bool × Nodes
rmdir_at none nodes = (false, nodes)
rmdir_at (some n) nodes =
    if n == 0 || not ((node nodes n).type == dir_type) || not (is_none (node nodes n).first_child)
    then (false, nodes)
    else (true, drop_node n nodes)

-- `Harlin_MemFsRmdir`
unfoldable pub rmdir : List ℕ → Nodes → Bool × Nodes
unfolding rmdir_at drop_node resolve_path
rmdir path nodes = rmdir_at (resolve_path nodes path) nodes

-- The first bytes of the payload become `bytes`.
abbrev pub with_payload : List ℕ → Node → Node
with_payload bytes e = record e {
  payload = bytes ++ drop (length bytes) e.payload;
  payload_size = length bytes;
}

unfoldable pub write_at : Option ℕ → List ℕ → Nodes → Option ℕ × Nodes
write_at none bytes nodes = (none, nodes)
write_at (some n) bytes nodes =
    let stored = take payload_max bytes in
    if not ((node nodes n).type == file_type)
    then (none, nodes)
    else (some (length stored), change n (with_payload stored) nodes)

-- `Harlin_MemFsWrite`; `bytes` has `size` of them. The number of bytes that it stores, or `none`
-- for -1.
unfoldable pub write : List ℕ → List ℕ → Nodes → Option ℕ × Nodes
unfolding write_at resolve_path
write path bytes nodes = write_at (resolve_path nodes path) bytes nodes

unfoldable pub read_at : Option ℕ → ℕ → Nodes → Option (List ℕ)
read_at none size nodes = none
read_at (some n) size nodes =
    if not ((node nodes n).type == file_type)
    then none
    else some (
        take (if ltb (node nodes n).payload_size size then (node nodes n).payload_size else size)
          (node nodes n).payload)

-- `Harlin_MemFsRead`: the bytes that it copies out, whose number it returns.
unfoldable pub read : List ℕ → ℕ → Nodes → Option (List ℕ)
unfolding read_at resolve_path
read path size nodes = read_at (resolve_path nodes path) size nodes

-- `struct mem_fs_dir_entry`
pub record DirEntry : Type 0 where
  pub name : List ℕ
  pub type : ℕ
  pub node : ℕ

abbrev pub entry_of : Nodes → ℕ → DirEntry
entry_of nodes c = record {
  name = take (name_max - 1) (node nodes c).name;
  type = (node nodes c).type;
  node = c;
}

-- The loop of `Harlin_MemFsLs`, with room for `rounds` more entries.
pub ls_loop : Nodes → ℕ → Option ℕ → List DirEntry
ls_loop nodes zero c = []
ls_loop nodes (suc rounds) none = []
ls_loop nodes (suc rounds) (some c) =
    entry_of nodes c ∷ ls_loop nodes rounds (node nodes c).next_sibling

ls_at : Option ℕ → ℕ → Nodes → Option (List DirEntry)
ls_at none max nodes = none
ls_at (some n) max nodes =
    if not ((node nodes n).type == dir_type)
    then none
    else some (ls_loop nodes max (node nodes n).first_child)

-- `Harlin_MemFsLs`: the entries, whose number it returns; without an array it only counts them.
unfoldable pub ls : List ℕ → ℕ → Nodes → Option (List DirEntry)
unfolding ls_at ls_loop resolve_path
ls path max nodes = ls_at (resolve_path nodes path) max nodes
